-- ===== src/Policy/Calm.antt =====
-- The turns of the loop in rpi-ai/policy_engine.c, and the cooldowns of the rules.
use mathlib.Core.List.{append_assoc}
use mathlib.Core.Path.{subst}
use wireless_tsn_configurato.Base.{
  ◌&&◌, suc, ◌≡◌, ◌⊎◌, ◌∙◌, refl, sym, ap, true, false, none, some, List, [], ◌∷◌, ◌++◌, map, arith,
  leb, if◌then◌else◌, length, length-append, get_elem?, Bool-cases, if_both, leb→le, Option-cases,
  inl, inr, ◌<◌, ◌≤◌,
}
use wireless_tsn_configurato.Base.Int.{ℤ, ◌-ℤ◌, ltb_ℤ}
use wireless_tsn_configurato.Base.Text.{CString, str_eq, str_eq_iff}
use wireless_tsn_configurato.Base.Table.{
  text_eq, find, modify, Unique, Fresh, find-modify, find-append_new, Unique-modify, beq_refl,
}
use wireless_tsn_configurato.Common.StrUtil.Copy.{copied_of_lt}
use wireless_tsn_configurato.Db.Engine.{Sqlite}
use wireless_tsn_configurato.Policy.{
  Engine, Rule, rule_key, r1_cooldown_s, r1_calm_s, r3_cooldown_s, r3_latency_ms, max_rules,
  is_cooling, is_calm, fire, rest, apply_r1, restore_r1, check_r3, sweep_at, sweep_from, sweep,
  new_rule,
}
use wireless_tsn_configurato.Policy.Rules.{IsSound, not_has_of_find}

-- A rule after a turn of the loop.
abbrev pub judged : ℤ → Rule → Rule
judged now r =
    if r.active && ltb_ℤ r1_calm_s (now -ℤ r.last_fired) then record r { active = false } else r

get_elem?-append :
    (done : List Rule) (r : Rule) (rs : List Rule)
    → get_elem? (done ++ (r ∷ rs)) (length done) ≡ some r
get_elem?-append [] r rs = refl
get_elem?-append (d ∷ done) r rs = get_elem?-append done r rs

-- Behind rules for other devices, the first rule for a device is found and changed.
Fresh-append :
    (k : CString) (done : List Rule) (r : Rule) (rs : List Rule)
    → Fresh rule_key k (done ++ (r ∷ rs))
    → str_eq (rule_key r) k ≡ false
Fresh-append k [] r rs h = h.0
Fresh-append k (d ∷ done) r rs h = Fresh-append k done r rs h.1

before_other :
    (d : Rule) (done : List Rule) (r : Rule) (rs : List Rule)
    → Fresh rule_key d.device_id (done ++ (r ∷ rs))
    → str_eq d.device_id r.device_id ≡ false
before_other d done r rs h =
    let new = Fresh-append d.device_id done r rs h in
    ground (arith, new, str_eq_iff d.device_id r.device_id, str_eq_iff r.device_id d.device_id)

find-append :
    (done : List Rule) (r : Rule) (rs : List Rule)
    → Unique rule_key (done ++ (r ∷ rs))
    → find rule_key r.device_id (done ++ (r ∷ rs)) ≡ some r
unfolding find
find-append [] r rs u = rw (beq_refl rule_key r.device_id) refl
find-append (d ∷ done) r rs u = rw (before_other d done r rs u.0) (find-append done r rs u.1)

modify-append :
    (f : Rule → Rule) (done : List Rule) (r : Rule) (rs : List Rule)
    → Unique rule_key (done ++ (r ∷ rs))
    → modify rule_key r.device_id f (done ++ (r ∷ rs)) ≡ done ++ (f r ∷ rs)
unfolding modify
modify-append f [] r rs u = rw (beq_refl rule_key r.device_id) refl
modify-append f (d ∷ done) r rs u =
    rw (before_other d done r rs u.0) (ap (λ xs. d ∷ xs) (modify-append f done r rs u.1))

rule_key-judged : (now : ℤ) (r : Rule) → rule_key (judged now r) ≡ rule_key r
rule_key-judged now r =
    if_both (λ r'. rule_key r' ≡ rule_key r) (r.active && ltb_ℤ r1_calm_s (now -ℤ r.last_fired))
      refl refl

module _ {H : Type 0} (sql : Sqlite H) where
  -- A rule that is calm is active, so restoring it changes its entry.
  active_of_calm : (now : ℤ) (r : Rule) → is_calm now r ≡ true → r.active ≡ true
  unfolding is_calm
  active_of_calm now r calm = ground arith

  -- The entry `i` of the loop is judged, the others stay.
  r1-sweep_at :
      (now : ℤ) (e : Engine H) (done : List Rule) (r : Rule) (rs : List Rule)
      → e.r1 ≡ done ++ (r ∷ rs)
      → Unique rule_key (done ++ (r ∷ rs))
      → (sweep_at sql now e (length done)).r1 ≡ done ++ (judged now r ∷ rs)
  unfolding sweep_at restore_r1 is_calm rest
  r1-sweep_at now e done r rs same u =
      let there : get_elem? e.r1 (length done) ≡ some r = rw same (get_elem?-append done r rs) in
      elim (Bool-cases (is_calm now r)) [
        | inl calm ↦ rw (there, sweep_at) (rw calm (r1-restore (active_of_calm now r calm)))
        | inr busy ↦ rw (there, sweep_at) (rw busy same)
      ]
    where
      r1-restore : r.active ≡ true → (restore_r1 sql e r.device_id).r1 ≡ done ++ (rest r ∷ rs)
      r1-restore on =
          let found : find rule_key r.device_id e.r1 ≡ some r = rw same (find-append done r rs u) in
          rw (found, restore_r1) (rw on (rw same (modify-append rest done r rs u)))

  r1-sweep_from :
      (now : ℤ) (rs done : List Rule) (e : Engine H)
      → e.r1 ≡ done ++ rs
      → Unique rule_key (done ++ rs)
      → (sweep_from sql now (length rs) (length done) e).r1 ≡ done ++ map (judged now) rs
  unfolding sweep_from
  r1-sweep_from now [] done e same u = same
  r1-sweep_from now (r ∷ rs) done e same u =
      let one = judged now r ∷ [] in
      let next = sweep_at sql now e (length done) in
      let further : length (done ++ one) ≡ suc (length done) =
        omega (arith, length-append done one) in
      let unique : Unique rule_key (done ++ (judged now r ∷ rs)) =
        subst (Unique rule_key) (modify-append (judged now) done r rs u) (
          Unique-modify rule_key r.device_id (judged now) (rule_key-judged now) (done ++ (r ∷ rs))
            u) in
      sym (ap (λ i. (sweep_from sql now (length rs) i next).r1) further)
      ∙ (r1-sweep_from now rs (done ++ one) next
            (r1-sweep_at now e done r rs same u ∙ sym (append_assoc done one rs))
            (rw (append_assoc done one rs) unique)
          ∙ append_assoc done one (map (judged now) rs))

  -- A turn of the loop ends each rule that was last fired more than 300 seconds ago, and leaves all
  -- else in the table of rules as it was, whatever the order of the entries.
  pub r1-sweep : (now : ℤ) (e : Engine H) → IsSound e → (sweep sql now e).r1 ≡ map (judged now) e.r1
  unfolding sweep
  r1-sweep now e v = r1-sweep_from now e.r1 [] e refl v.unique

  -- What an event leaves for its device: unless the table is full, a rule that is active, and that
  -- either has just been fired or was fired less than 120 seconds before and then nothing changed.
  pub find-apply_r1 :
      (now : ℤ) (e : Engine H) (dev : CString)
      → length dev < 128
      → let e' = apply_r1 sql now e dev in
        ((find rule_key dev e.r1 ≡ none) × (max_rules ≤ length e.r1) × (e' ≡ e))
        ⊎ ((r : Rule) × (find rule_key dev e'.r1 ≡ some r)
            × (r.active ≡ true)
            × ((r.last_fired ≡ now)
                ⊎ ((e' ≡ e) × (ltb_ℤ (now -ℤ r.last_fired) r1_cooldown_s ≡ true))))
  unfolding apply_r1 is_cooling fire new_rule
  find-apply_r1 now e dev short = elim (Option-cases (find rule_key dev e.r1)) [
    | inl new ↦
        let added = fire now (new_rule dev) in
        let at_end : find rule_key dev (e.r1 ++ (added ∷ [])) ≡ some added =
          find-append_new rule_key dev added e.r1
            (rw (copied_of_lt 128 dev short) (not_has_of_find dev e.r1 new))
          ∙ rw (copied_of_lt 128 dev short) (rw (beq_refl rule_key dev) refl) in
        elim (Bool-cases (leb max_rules (length e.r1))) [
          | inl full ↦
              rw (new, apply_r1) (rw full (inl (refl, leb→le max_rules (length e.r1) full, refl)))
          | inr room ↦ rw (new, apply_r1) (rw room (inr (added, at_end, refl, inl refl)))
        ]
    | inr (r, known) ↦ elim (Bool-cases (is_cooling now r)) [
      | inl cooling ↦
          rw (known, apply_r1)
            (rw cooling (inr (r, known, active r cooling, inr (refl, recent r cooling))))
      | inr due ↦
          rw (known, apply_r1)
            (rw due (
              inr (
                fire now r,
                find-modify rule_key dev (fire now) (λ x. refl) dev e.r1
                    ∙ rw (beq_refl rule_key dev, known) refl,
                refl,
                inl refl,
              )))
    ]
  ]
    where
      active : (r : Rule) → is_cooling now r ≡ true → r.active ≡ true
      active r h = ground arith

      recent :
          (r : Rule) → is_cooling now r ≡ true → ltb_ℤ (now -ℤ r.last_fired) r1_cooldown_s ≡ true
      recent r h = ground arith

  -- Once R3 has reserved a stream, for the next 300 seconds it does nothing for any device: the
  -- cooldown is one for all.
  pub check_r3_cooldown :
      (now later : ℤ) (e : Engine H) (dev other : CString) (lat lat' : ℤ)
      → let e' = check_r3 sql now e dev lat in
        e'.r3_last ≡ now
        → ltb_ℤ (later -ℤ now) r3_cooldown_s ≡ true
        → check_r3 sql later e' other lat' ≡ e'
  unfolding check_r3
  check_r3_cooldown now later e dev other lat lat' fired soon =
      waits (check_r3 sql now e dev lat) fired
    where
      waits : (e' : Engine H) → e'.r3_last ≡ now → check_r3 sql later e' other lat' ≡ e'
      waits e' h =
          let cool : ltb_ℤ (later -ℤ e'.r3_last) r3_cooldown_s ≡ true = rw h soon in
          if_both (λ x. x ≡ e') (ltb_ℤ lat' r3_latency_ms) refl (rw cool refl)
