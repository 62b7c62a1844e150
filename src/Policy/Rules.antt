-- ===== src/Policy/Rules.antt =====
-- The table of rules of rpi-ai/policy_engine.c: its bound, its ids, and what an event leaves in it.
use wireless_tsn_configurato.Base.{
  ℕ, zero, suc, ◌≤◌, ◌<◌, ◌≡◌, refl, ap, false, ◌&&◌, ◌||◌, none, List, [], ◌∷◌, arith, leb, length,
  length-append, get_elem?, Bool-cases, if_both, Option-cases, inl, inr,
}
use wireless_tsn_configurato.Base.Int.{ℤ, pos, ◌-ℤ◌, ltb_ℤ}
use wireless_tsn_configurato.Base.Text.{CString, codes, is_empty}
use wireless_tsn_configurato.Base.Table.{
  text_eq, find, has, modify, Unique, Unique-append_new, Unique-modify, length-modify,
}
use wireless_tsn_configurato.Common.{is_ok}
use wireless_tsn_configurato.Common.StrUtil.Copy.{copied_of_lt, length-copied}
use wireless_tsn_configurato.Db.Engine.{Sqlite}
use wireless_tsn_configurato.Db.Tsn as db_tsn
use wireless_tsn_configurato.Policy.{
  r3_latency_ms, r3_cooldown_s, reserved, reserved_id, Engine, Rule, rule_key, max_rules,
  is_cooling, is_calm, fire, rest, new_rule, apply_r1, restore_r1, check_r3, sweep_at, sweep_from,
  sweep,
}
use wireless_tsn_configurato.Policy.Topics.{
  metric_device, last_number, event_device, behind_last, occurs, person, motion, on_event,
  on_metric, on_message,
}

-- The rules are within their array, and no two are for one device.
pub record IsSound {H : Type 0} (e : Engine H) : Type 0 where
  pub bounded : length e.r1 ≤ max_rules
  pub unique : Unique rule_key e.r1

pub not_has_of_find :
    (k : CString) (rs : List Rule) → find rule_key k rs ≡ none → has rule_key k rs ≡ false
unfolding find has
not_has_of_find k [] e = refl
not_has_of_find k (r ∷ rs) e = ground (arith, not_has_of_find k rs)

length-event_device : (topic : CString) → length (event_device topic) < 128
unfolding event_device
length-event_device topic = elim (Option-cases (behind_last b'/' topic)) [
  | inl none_there ↦ rw (none_there, length) (omega arith)
  | inr (s, e) ↦ rw (e, length) (length-copied 128 s (omega arith))
]

module _ {H : Type 0} (sql : Sqlite H) where
  -- A modification that keeps the ids keeps the table sound.
  modify-IsSound :
      (e e' : Engine H) (k : CString) (f : Rule → Rule)
      → ((r : Rule) → rule_key (f r) ≡ rule_key r)
      → e'.r1 ≡ modify rule_key k f e.r1
      → IsSound e
      → IsSound e'
  modify-IsSound e e' k f keeps same v = record {
    bounded = omega (arith, v.bounded, length-modify rule_key k f e.r1, ap length same);
    unique = rw same (Unique-modify rule_key k f keeps e.r1 v.unique);
  }

  apply_r1-IsSound :
      (now : ℤ) (e : Engine H) (dev : CString)
      → length dev < 128
      → IsSound e
      → IsSound (apply_r1 sql now e dev)
  unfolding apply_r1 fire new_rule
  apply_r1-IsSound now e dev short v = elim (Option-cases (find rule_key dev e.r1)) [
    | inl new ↦ elim (Bool-cases (leb max_rules (length e.r1))) [
      | inl full ↦ rw (new, apply_r1) (rw full v)
      | inr room ↦
          rw (new, apply_r1)
            (rw room (record {
              bounded = ground (arith, length-append e.r1 (fire now (new_rule dev) ∷ []));
              unique =
                  Unique-append_new rule_key (fire now (new_rule dev)) e.r1 v.unique
                    (rw (copied_of_lt 128 dev short) (not_has_of_find dev e.r1 new));
            }))
    ]
    | inr (r, known) ↦ elim (Bool-cases (is_cooling now r)) [
      | inl cooling ↦ rw (known, apply_r1) (rw cooling v)
      | inr due ↦
          rw (known, apply_r1) (rw due (modify-IsSound e _ dev (fire now) (λ r. refl) refl v))
    ]
  ]

  restore_r1-IsSound : (e : Engine H) (dev : CString) → IsSound e → IsSound (restore_r1 sql e dev)
  unfolding restore_r1 rest
  restore_r1-IsSound e dev v = elim (Option-cases (find rule_key dev e.r1)) [
    | inl unknown ↦ rw (unknown, restore_r1) v
    | inr (r, known) ↦ elim (Bool-cases r.active) [
      | inl on ↦ rw (known, restore_r1) (rw on (modify-IsSound e _ dev rest (λ r. refl) refl v))
      | inr off ↦ rw (known, restore_r1) (rw off v)
    ]
  ]

  sweep_at-IsSound : (now : ℤ) (e : Engine H) (i : ℕ) → IsSound e → IsSound (sweep_at sql now e i)
  unfolding sweep_at
  sweep_at-IsSound now e i v = elim (Option-cases (get_elem? e.r1 i)) [
    | inl out ↦ rw (out, sweep_at) v
    | inr (r, there) ↦ elim (Bool-cases (is_calm now r)) [
      | inl calm ↦ rw (there, sweep_at) (rw calm (restore_r1-IsSound e r.device_id v))
      | inr busy ↦ rw (there, sweep_at) (rw busy v)
    ]
  ]

  sweep_from-IsSound :
      (now : ℤ) (n i : ℕ) (e : Engine H) → IsSound e → IsSound (sweep_from sql now n i e)
  unfolding sweep_from
  sweep_from-IsSound now zero i e v = v
  sweep_from-IsSound now (suc n) i e v =
      sweep_from-IsSound now n (suc i) (sweep_at sql now e i) (sweep_at-IsSound now e i v)

  -- Rule R3 leaves the rules of R1 alone.
  r1-check_r3 :
      (now : ℤ) (e : Engine H) (dev : CString) (lat : ℤ) → (check_r3 sql now e dev lat).r1 ≡ e.r1
  unfolding check_r3
  r1-check_r3 now e dev lat =
      let Same : Engine H → Type 0 = λ e'. e'.r1 ≡ e.r1 in
      if_both Same (ltb_ℤ lat r3_latency_ms) refl (
        if_both Same (ltb_ℤ (now -ℤ e.r3_last) r3_cooldown_s) refl (
          if_both Same (is_ok (db_tsn.load sql e.db (reserved_id dev)).0) refl
            (if_both Same (is_ok (db_tsn.save sql e.db (reserved dev)).0) refl refl)))

  same-IsSound : (e e' : Engine H) → e'.r1 ≡ e.r1 → IsSound e → IsSound e'
  same-IsSound e e' same v = record { bounded = rw same v.bounded; unique = rw same v.unique }

  on_event-IsSound :
      (now : ℤ) (e : Engine H) (topic payload : CString)
      → IsSound e
      → IsSound (on_event sql now e topic payload)
  unfolding on_event
  on_event-IsSound now e topic payload v =
      if_both IsSound
        (occurs (codes "tsn/sensors/event") topic
          && (occurs person payload || occurs motion payload))
        (if_both IsSound (is_empty (event_device topic)) v
          (apply_r1-IsSound now e (event_device topic) (length-event_device topic) v))
        v

  on_metric-IsSound :
      (now : ℤ) (e : Engine H) (topic payload : CString)
      → IsSound e
      → IsSound (on_metric sql now e topic payload)
  unfolding on_metric
  on_metric-IsSound now e topic payload v =
      let dev = metric_device topic in
      let lat = last_number payload in
      if_both IsSound (occurs (codes "tsn/metrics/") topic && occurs (codes "latency") topic)
        (if_both IsSound (is_empty dev) v
          (if_both IsSound (ltb_ℤ (pos 0) lat) (same-IsSound e _ (r1-check_r3 now e dev lat) v) v))
        v

  -- One thing that can happen to the program: a message, or a turn of its loop, each at a time.
  pub data Step : Engine H → Engine H → Type 0 where
    message :
        {e : Engine H} (now : ℤ) (topic payload : CString)
        → Step e (on_message sql now e topic payload)
    turn : {e : Engine H} (now : ℤ) → Step e (sweep sql now e)

  pub data Reach (e : Engine H) : Engine H → Type 0 where
    here : Reach e e
    next : {f g : Engine H} → Reach e f → Step f g → Reach e g

  Step-IsSound : {e f : Engine H} → Step e f → IsSound e → IsSound f
  unfolding on_message sweep
  Step-IsSound (message {e} now topic payload) v = if_both IsSound (is_empty payload) v (
      on_metric-IsSound now (on_event sql now e topic payload) topic payload
        (on_event-IsSound now e topic payload v))
  Step-IsSound (turn {e} now) v = sweep_from-IsSound now (length e.r1) 0 e v

  -- Whatever messages arrive and however the loop turns, from a sound table of rules only sound ones
  -- are reached: at most 64 rules, each for another device.
  pub Reach-IsSound : {e f : Engine H} → IsSound e → Reach e f → IsSound f
  Reach-IsSound v here = v
  Reach-IsSound v (next r st) = Step-IsSound st (Reach-IsSound v r)
