-- ===== src/Agent/Networks/Stored.antt =====
-- The blob of networks in the store, as it is written and read.
use wireless_tsn_configurato.Base.{
  ℕ, zero, suc, ◌-◌, ◌≤◌, ◌≡◌, ◌∙◌, refl, ap, true, false, ◌==◌, Option, none, some, List, [], ◌++◌,
  arith, leb, if◌then◌else◌, length, take, replicate, min, Option-cases, Bool-cases, inl, inr,
  take-length_append,
}
use wireless_tsn_configurato.Base.Text.{CString, str_eq}
use wireless_tsn_configurato.Agent.Nvs.{
  Network, networks, str, Nvs, ReadsBack, as_networks, set_str, set_item,
}
use wireless_tsn_configurato.Agent.Networks.{
  net_max, key_net_list, blank, net_count, net_load, net_save,
}
use wireless_tsn_configurato.Agent.Networks.Lists.{take-append_le, take-replicate}

abbrev or_nil : Option (List Network) → List Network
or_nil o = elim o [ none ↦ [] | some ns ↦ ns ]

loaded :
    (o : Option (List Network))
    → length (or_nil o) ≤ net_max
    → elim o as (λ x. List Network) [
      | none ↦ replicate net_max blank
      | some ns ↦
          if leb (length ns) net_max
          then take net_max (ns ++ replicate net_max blank)
          else replicate net_max blank
    ]
      ≡ or_nil o ++ replicate (net_max - length (or_nil o)) blank
loaded none h = refl
loaded (some ns) h =
    let fits : leb (length ns) net_max ≡ true = ground (arith, h) in
    rw fits (
      take-append_le net_max ns (replicate net_max blank) h
      ∙ ap (◌++◌ ns) (take-replicate (net_max - length ns) net_max blank (omega arith)))

module _ {H : Type 0} (nvs : Nvs H) (sound : ReadsBack nvs) where
  open sound use {writes, reads, get_set, get_erase, get_commit}

  -- The networks that the blob holds; none without one.
  unfoldable pub stored : H → List Network
  stored h = elim (as_networks (nvs.get h key_net_list)) [ none ↦ [] | some ns ↦ ns ]

  stored-commit : (h : H) → stored (nvs.commit h).1 ≡ stored h
  unfolding stored
  stored-commit h = rw (get_commit h key_net_list, stored) refl

  pub stored-net_save :
      (h : H) (list : List Network) (n : ℕ) → stored (net_save nvs h list n) ≡ take n list
  unfolding stored net_save str_eq
  stored-net_save h list zero = rw (writes h) (
      stored-commit (nvs.erase_key h key_net_list)
      ∙ rw (get_erase h key_net_list key_net_list, stored) refl)
  stored-net_save h list (suc n) =
      let some_left : (suc n == 0) ≡ false = ground arith in
      let saved = networks (take (suc n) list) in
      rw (writes h, some_left)
        (stored-commit (nvs.set h key_net_list saved)
          ∙ rw (get_set h key_net_list saved key_net_list, stored) refl)

  pub stored-set_str :
      (h : H) (key s : CString)
      → str_eq key key_net_list ≡ false
      → stored (set_str nvs h key s) ≡ stored h
  unfolding stored set_str set_item str_eq
  stored-set_str h key s e = rw (writes h) (
      stored-commit (nvs.set h key (str s))
      ∙ rw (get_set h key (str s) key_net_list, stored) (rw e refl))

  pub count-stored : (h : H) → net_count nvs h ≡ min (length (stored h)) net_max
  unfolding net_count stored
  count-stored h = elim (Option-cases (nvs.get h key_net_list)) [
    | inl e ↦ elim (Bool-cases (nvs.opens h false)) [
      | inl o ↦ rw (o, net_count) (rw (e, stored) (omega arith))
      | inr o ↦ rw (o, net_count) (rw (e, stored) (omega arith))
    ]
    | inr (v, e) ↦
        rw (reads h key_net_list v e, net_count)
          (elim (Option-cases (as_networks (nvs.get h key_net_list))) [
            | inl n ↦ rw (n, stored) (omega arith)
            | inr (ns, n) ↦ rw (n, stored) refl
          ])
  ]

  pub load-stored :
      (h : H)
      → length (stored h) ≤ net_max
      → net_load nvs h ≡ stored h ++ replicate (net_max - length (stored h)) blank
  unfolding net_load stored
  load-stored h fits = elim (Option-cases (nvs.get h key_net_list)) [
    | inl e ↦ elim (Bool-cases (nvs.opens h false)) [
      | inl o ↦ rw (o, net_load) (rw (e, stored) refl)
      | inr o ↦ rw (o, net_load) (rw (e, stored) refl)
    ]
    | inr (v, e) ↦
        rw (reads h key_net_list v e, net_load) (loaded (as_networks (nvs.get h key_net_list)) fits)
  ]

  pub counted : (h : H) → length (stored h) ≤ net_max → net_count nvs h ≡ length (stored h)
  counted h fits = omega (arith, count-stored h, fits)

  pub loaded_entries :
      (h : H) → length (stored h) ≤ net_max → take (net_count nvs h) (net_load nvs h) ≡ stored h
  loaded_entries h fits =
      let tail = replicate (net_max - length (stored h)) blank in
      ap (λ k. take k (net_load nvs h)) (counted h fits)
      ∙ ap (take (length (stored h))) (load-stored h fits)
      ∙ take-length_append (stored h) tail
