-- ===== src/Agent/Networks/Refined.antt =====
-- The operations on the blob of networks are those on the list.
use mathlib.Core.List.{append-nil}
use mathlib.Core.Path.{subst}
use wireless_tsn_configurato.Base.{
  ◌+◌, ◌-◌, ◌≤◌, ◌<◌, ◌≡◌, ◌∙◌, refl, sym, ap, Bool, true, false, not, ◌==◌, Option, none, some,
  List, [], ◌∷◌, ◌++◌, arith, leb, length, take, drop, replicate, set, Bool-cases, inl, inr,
  length-append, take_of_le, length-replicate, take-length_append,
}
use wireless_tsn_configurato.Base.Text.{CString, str_eq, is_empty}
use wireless_tsn_configurato.Agent.Nvs.{Network, Nvs, ReadsBack, set_given, set_str}
use wireless_tsn_configurato.Agent.Networks.{
  net_max, key_wifi_ssid, key_wifi_pass, blank, replace_pass, others, net_count, net_load, place,
  net_add, net_remove, net_clear, or_empty,
}
use wireless_tsn_configurato.Agent.Networks.Spec.{
  listed, with_pass, without, entry, added, Op, add, remove, clear, after, after_all,
}
use wireless_tsn_configurato.Agent.Networks.Lists.{
  set-append, length-drop_one, take_one_more, nil_of_length, evicted, length-with_pass,
  replace-listed, others-without, length-after,
}
use wireless_tsn_configurato.Agent.Networks.Stored.{
  stored, stored-net_save, stored-set_str, load-stored, counted, loaded_entries,
}

module _ {H : Type 0} (nvs : Nvs H) (sound : ReadsBack nvs) where
  module _ (h : H) (ssid pass : CString) (ns : List Network) where
    Placed : H × Bool → Type 0
    Placed r = (stored nvs sound r.0 ≡ added ssid pass ns) × (r.1 ≡ not (listed ssid ns))

    place-listed :
        (tail : List Network)
        → listed ssid ns ≡ true
        → Placed (place nvs h (length ns) (ns ++ tail) ssid pass)
    unfolding place Placed added
    place-listed tail l =
        let found : replace_pass (length ns) ssid pass (ns ++ tail)
            ≡ some (with_pass ssid pass ns ++ tail) =
          replace-listed ssid pass ns tail ∙ rw l refl in
        let list = with_pass ssid pass ns in
        rw (found, place)
          (rw l (
            stored-net_save nvs sound h (list ++ tail) (length ns)
                ∙ ap (λ k. take k (list ++ tail)) (sym (length-with_pass ssid pass ns))
                ∙ take-length_append list tail,
            refl,
          ))

    place_new :
        (tail : List Network)
        → listed ssid ns ≡ false
        → length ns < net_max
        → length tail ≡ net_max - length ns
        → Placed (place nvs h (length ns) (ns ++ tail) ssid pass)
    unfolding place Placed added
    place_new [] l room size = absurd (omega arith)
    place_new (e ∷ tail) l room size =
        let found : replace_pass (length ns) ssid pass (ns ++ e ∷ tail) ≡ none =
          replace-listed ssid pass ns (e ∷ tail) ∙ rw l refl in
        let fits : leb net_max (length ns) ≡ false = ground (arith, room) in
        let new = entry ssid pass in
        rw (found, place)
          (rw (l, fits)
            (
              stored-net_save nvs sound h (set (ns ++ e ∷ tail) (length ns) new) (length ns + 1)
                  ∙ ap (take (length ns + 1)) (set-append ns e new tail)
                  ∙ take_one_more ns new tail,
              refl,
            ))

    place_full :
        listed ssid ns ≡ false
        → length ns ≡ net_max
        → Placed (place nvs h (length ns) (ns ++ []) ssid pass)
    unfolding place Placed added
    place_full l full =
        let found : replace_pass (length ns) ssid pass (ns ++ []) ≡ none =
          replace-listed ssid pass ns [] ∙ rw l refl in
        let fits : leb net_max (length ns) ≡ true = ground (arith, full) in
        let new = entry ssid pass in
        let one_less = length-append (drop 1 ns) (new ∷ []) in
        rw (found, place)
          (rw (l, fits)
            (
              stored-net_save nvs sound h _ net_max
                  ∙ ap (λ xs. take net_max (set (drop 1 xs ++ drop 9 xs) 9 new)) (append-nil ns)
                  ∙ ap (take net_max) (evicted ns new full)
                  ∙ take_of_le net_max _ (omega (arith, one_less, length-drop_one ns, full)),
              refl,
            ))

  placed :
      (h : H) (ssid pass : CString)
      → length (stored nvs sound h) ≤ net_max
      → Placed h ssid pass
          (stored nvs sound h)
          (place nvs h (net_count nvs h) (net_load nvs h) ssid pass)
  placed h ssid pass fits =
      let ns = stored nvs sound h in
      let tail = replicate (net_max - length ns) blank in
      let core : Placed h ssid pass ns (place nvs h (length ns) (ns ++ tail) ssid pass) =
        elim (Bool-cases (listed ssid ns)) [
          | inl l ↦ place-listed h ssid pass ns tail l
          | inr l ↦ elim (Bool-cases (leb net_max (length ns))) [
            | inl full ↦
                let ten : length ns ≡ net_max = ground (arith, fits, full) in
                let none_left : tail ≡ [] =
                  ap (λ k. replicate k blank) {y = 0} (omega (arith, ten)) in
                subst (λ t. Placed h ssid pass ns (place nvs h (length ns) (ns ++ t) ssid pass))
                  (sym none_left) (place_full h ssid pass ns l ten)
            | inr room ↦
                place_new h ssid pass ns tail l (ground (arith, room))
                  (length-replicate (net_max - length ns) blank)
          ]
        ] in
      subst (λ c. Placed h ssid pass ns (place nvs h c (net_load nvs h) ssid pass))
        (sym (counted nvs sound h fits))
        (subst (λ l. Placed h ssid pass ns (place nvs h (length ns) l ssid pass))
          (sym (load-stored nvs sound h fits)) core)

  stored-set_given :
      (h : H) (pass : Option CString)
      → stored nvs sound (set_given nvs h key_wifi_pass pass) ≡ stored nvs sound h
  unfolding set_given str_eq
  stored-set_given h none = refl
  stored-set_given h (some s) = stored-set_str nvs sound h key_wifi_pass s refl

  net_add-after :
      (h : H) (ssid : CString) (pass : Option CString)
      → length (stored nvs sound h) ≤ net_max
      → stored nvs sound (net_add nvs h (some ssid) pass).0
        ≡ after (add ssid pass) (stored nvs sound h)
  unfolding net_add after Placed
  net_add-after h ssid pass fits = elim (Bool-cases (is_empty ssid)) [
    | inl e ↦ rw e refl
    | inr e ↦
        let h1 = set_given nvs h key_wifi_pass pass in
        let h2 = set_str nvs h1 key_wifi_ssid ssid in
        let same : stored nvs sound h2 ≡ stored nvs sound h =
          stored-set_str nvs sound h1 key_wifi_ssid ssid (unfold str_eq in refl)
          ∙ stored-set_given h pass in
        rw e (
          (placed h2 ssid (or_empty pass) (omega (arith, ap length same, fits))).0
          ∙ ap (added ssid (or_empty pass)) same)
  ]

  net_remove-after :
      (h : H) (ssid : CString)
      → length (stored nvs sound h) ≤ net_max
      → stored nvs sound (net_remove nvs h (some ssid)) ≡ after (remove ssid) (stored nvs sound h)
  unfolding net_remove after
  net_remove-after h ssid fits = elim (Bool-cases (is_empty ssid)) [
    | inl e ↦ rw e refl
    | inr e ↦ elim (Bool-cases (net_count nvs h == 0)) [
      | inl gone ↦
          let none_left : stored nvs sound h ≡ [] =
            nil_of_length (stored nvs sound h) (ground (arith, counted nvs sound h fits, gone)) in
          rw (e, gone) (none_left ∙ ap (without ssid) (sym none_left))
      | inr some_left ↦
          let kept = others ssid (take (net_count nvs h) (net_load nvs h)) in
          rw (e, some_left)
            (stored-net_save nvs sound h kept (length kept)
              ∙ take_of_le (length kept) kept (omega arith)
              ∙ ap (others ssid) (loaded_entries nvs sound h fits)
              ∙ others-without ssid (stored nvs sound h))
    ]
  ]

  -- The operations as the program calls them.
  unfoldable pub step : Op → H → H
  step (add ssid pass) h = (net_add nvs h (some ssid) pass).0
  step (remove ssid) h = net_remove nvs h (some ssid)
  step clear h = net_clear nvs h

  unfoldable pub steps : List Op → H → H
  unfolding step
  steps [] h = h
  steps (op ∷ ops) h = steps ops (step op h)

  step_refines :
      (op : Op) (h : H)
      → length (stored nvs sound h) ≤ net_max
      → stored nvs sound (step op h) ≡ after op (stored nvs sound h)
  unfolding step
  step_refines (add ssid pass) h fits = net_add-after h ssid pass fits
  step_refines (remove ssid) h fits = net_remove-after h ssid fits
  step_refines clear h fits = unfold net_clear after in stored-net_save nvs sound h [] 0

  -- Whatever networks are added and removed, in whatever order, the store holds what the same
  -- operations make of the list, and never more than ten, if it held no more at the start and the
  -- library reports no error.
  pub steps_refine :
      (ops : List Op) (h : H)
      → length (stored nvs sound h) ≤ net_max
      → (stored nvs sound (steps ops h) ≡ after_all ops (stored nvs sound h))
        × (length (stored nvs sound (steps ops h)) ≤ net_max)
  unfolding steps after_all
  steps_refine [] h fits = (refl, fits)
  steps_refine (op ∷ ops) h fits =
      let one = step_refines op h fits in
      let small : length (stored nvs sound (step op h)) ≤ net_max =
        omega (arith, ap length one, length-after op (stored nvs sound h) fits) in
      let (rest, bound) = steps_refine ops (step op h) small in
      (rest ∙ ap (after_all ops) one, bound)
