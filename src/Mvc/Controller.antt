-- ===== src/Mvc/Controller.antt =====
-- src/mvc/controller.c, and the callbacks of a view (view.h). A callback that runs is a value.
pub mod Switch
use wireless_tsn_configurato.Base.{
  ℕ, Bool, Option, none, some, List, [], ◌∷◌, ◌++◌, leb, if◌then◌else◌, length,
}
use wireless_tsn_configurato.Base.Text.{CString}
use wireless_tsn_configurato.Base.Table.{text_eq, find}
use wireless_tsn_configurato.Common.{Error, ok, invalid_arg, max_str}
use wireless_tsn_configurato.Common.StrUtil.{copied}

abbrev pub max_views : ℕ
max_views = 32

-- `struct htsn_view`: which callbacks are set. `self` names the object.
pub record View : Type 0 where
  pub self : ℕ
  pub activate : Bool
  pub deactivate : Bool
  pub on_event : Bool

pub record Slot : Type 0 where
  pub name : CString
  pub view : View

-- `struct htsn_controller`: `views[0 .. num_views)` and the active view.
pub record Controller : Type 0 where
  pub views : List Slot
  pub active : Option View

pub data Call (D : Type 0) : Type 0 where
  activated : ℕ → Call D
  deactivated : ℕ → Call D
  event : ℕ → CString → D → Call D

-- `htsn_controller_create`
unfoldable pub create : Controller
create = record { views = []; active = none }

-- `htsn_controller_register_view`
unfoldable pub register_view : Controller → Option View → Option CString → Error × Controller
register_view c none name = (invalid_arg, c)
register_view c (some v) none = (invalid_arg, c)
register_view c (some v) (some name) =
    if leb max_views (length c.views) then (invalid_arg, c) else (
      ok,
      record c { views = c.views ++ (record { name = copied max_str name; view = v } ∷ []) },
    )

module _ {D : Type 0} where
  leave : Option View → List (Call D)
  leave none = []
  leave (some v) = if v.deactivate then deactivated v.self ∷ [] else []

  enter : View → List (Call D)
  enter v = if v.activate then activated v.self ∷ [] else []

  -- `htsn_controller_activate`: the view, the callbacks that run, and the controller.
  unfoldable pub activate : Controller → Option CString → Option View × List (Call D) × Controller
  unfolding leave enter
  activate c none = (none, [], c)
  activate c (some name) = elim (find (λ (s : Slot). s.name) name c.views) [
    | none ↦ (none, [], c)
    | some s ↦ (some s.view, leave c.active ++ enter s.view, record c { active = some s.view })
  ]

  -- `htsn_controller_route_event`
  unfoldable pub route_event : Controller → Option CString → D → List (Call D)
  route_event c none payload = []
  route_event c (some topic) payload = elim c.active [
    | none ↦ []
    | some v ↦ if v.on_event then event v.self topic payload ∷ [] else []
  ]
