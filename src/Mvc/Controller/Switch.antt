-- ===== src/Mvc/Controller/Switch.antt =====
-- Which view is active, and who hears of an event.
use wireless_tsn_configurato.Base.{
  leb, ◌<◌, ◌≡◌, refl, ap, ◌∙◌, false, Option, none, some, List, [], ◌∷◌, ◌++◌, arith,
  if◌then◌else◌, length,
}
use wireless_tsn_configurato.Base.Text.{CString}
use wireless_tsn_configurato.Base.Table.{text_eq, find, has, find-append_new, beq_refl}
use wireless_tsn_configurato.Common.{ok, max_str}
use wireless_tsn_configurato.Common.StrUtil.Copy.{copied_of_lt}
use wireless_tsn_configurato.Mvc.Controller.{
  max_views, View, Slot, Controller, activated, deactivated, event, register_view, activate,
  route_event, enter, leave,
}

abbrev slot_name : Slot → CString
slot_name s = s.name

abbrev pub goodbye {ℓ} : {A : Type ℓ} → (View → List A) → Option View → List A
goodbye f none = []
goodbye f (some v) = f v

leave-goodbye :
    {D : Type 0} (old : Option View)
    → leave {D = D} old ≡ goodbye (λ w. if w.deactivate then deactivated w.self ∷ [] else []) old
unfolding leave
leave-goodbye none = refl
leave-goodbye (some w) = refl

module _ (c : Controller) (v : View) (name : CString) where
  abbrev slot : Slot
  slot = record { name = name; view = v }

  abbrev after : Controller
  after = record c { views = c.views ++ slot ∷ [] }

  registered :
      length c.views < max_views
      → length name < max_str
      → register_view c (some v) (some name) ≡ (ok, after)
  unfolding register_view
  registered room fits =
      let full : leb max_views (length c.views) ≡ false = ground arith in
      rw full (rw (copied_of_lt max_str name fits))

  found : has slot_name name c.views ≡ false → find slot_name name after.views ≡ some slot
  found new =
      find-append_new slot_name name slot c.views new ∙ rw (beq_refl {K = CString} slot_name name)

-- What `htsn_controller_activate` does with the view that it finds.
activate_found :
    {D : Type 0} (c : Controller) (name : CString) (s : Slot)
    → find slot_name name c.views ≡ some s
    → activate {D = D} c (some name)
      ≡ (some s.view, leave c.active ++ enter s.view, record c { active = some s.view })
unfolding activate
activate_found c name s h = rw (h, activate)

module _ {D : Type 0} (c : Controller) (v : View) (name : CString) where
  -- A view that is registered under a new name that fits its buffer can be activated by that name:
  -- it is returned and becomes the active view, after the callback of the view that was active and
  -- its own have run, and from then on it alone hears of events.
  pub activate-register_view :
      length c.views < max_views
      → length name < max_str
      → has slot_name name c.views ≡ false
      → (topic : CString) (payload : D)
      → let (result, c') = register_view c (some v) (some name) in
        let (found, calls, c'') = activate {D = D} c' (some name) in
        (result ≡ ok)
        × (found ≡ some v)
        × (calls
            ≡ goodbye (λ w. if w.deactivate then deactivated w.self ∷ [] else []) c.active
              ++ (if v.activate then activated v.self ∷ [] else []))
        × (c''.active ≡ some v)
        × (route_event c'' (some topic) payload
            ≡ (if v.on_event then event v.self topic payload ∷ [] else []))
  unfolding route_event enter
  activate-register_view room fits new topic payload = rw (registered c v name room fits) (
      rw (activate_found {D = D} (after c v name) name (slot c v name) (found c v name new))
        (refl, refl, ap (λ l. l ++ enter v) (leave-goodbye c.active), refl, refl))
