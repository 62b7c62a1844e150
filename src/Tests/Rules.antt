-- ===== src/Tests/Rules.antt =====
-- The theorems about the policy engine at concrete inputs.
use wireless_tsn_configurato.Base.{
  ◌≡◌, ◌≤◌, ◌⊎◌, refl, true, none, some, [], ◌∷◌, map, length, arith,
}
use wireless_tsn_configurato.Base.Int.{pos, ◌-ℤ◌, ltb_ℤ}
use wireless_tsn_configurato.Base.Text.{CString, codes, str_eq}
use wireless_tsn_configurato.Base.Table.{text_eq, find}
use wireless_tsn_configurato.Policy.{
  Engine, Rule, rule_key, max_rules, r1_cooldown_s, apply_r1, sweep,
}
use wireless_tsn_configurato.Policy.Topics.{person, on_message}
use wireless_tsn_configurato.Policy.Rules.{IsSound, here, next, message, turn, Reach-IsSound}
use wireless_tsn_configurato.Policy.Calm.{judged, r1-sweep, find-apply_r1}
use wireless_tsn_configurato.Tests.World.{Store, empty_store, engine}

abbrev door : Rule
door = record { device_id = codes "door"; last_fired = pos 10; calm_since = pos 0; active = true }

abbrev hall : Rule
hall = record { device_id = codes "hall"; last_fired = pos 600; calm_since = pos 0; active = true }

abbrev watch : Engine Store
watch = record { db = empty_store; r1 = door ∷ hall ∷ []; r3_last = pos 0 }

watch-IsSound : IsSound watch
unfolding str_eq
watch-IsSound = record { bounded = omega arith; unique = ((refl, tt), (tt, tt)) }

abbrev seen : CString
seen = codes "tsn/sensors/event/yard"

Reach-IsSound_example :
    IsSound (sweep engine (pos 700) (on_message engine (pos 620) watch seen person))
Reach-IsSound_example =
    Reach-IsSound engine watch-IsSound
      (next (next here (message (pos 620) seen person)) (turn (pos 700)))

r1-sweep_example : (sweep engine (pos 700) watch).r1 ≡ map (judged (pos 700)) (door ∷ hall ∷ [])
r1-sweep_example = r1-sweep engine (pos 700) watch watch-IsSound

find-apply_r1_example :
    let e' = apply_r1 engine (pos 650) watch (codes "hall") in
    ((find rule_key (codes "hall") watch.r1 ≡ none) × (max_rules ≤ length watch.r1) × (e' ≡ watch))
    ⊎ ((r : Rule) × (find rule_key (codes "hall") e'.r1 ≡ some r)
        × (r.active ≡ true)
        × ((r.last_fired ≡ pos 650)
            ⊎ ((e' ≡ watch) × (ltb_ℤ (pos 650 -ℤ r.last_fired) r1_cooldown_s ≡ true))))
find-apply_r1_example = find-apply_r1 engine (pos 650) watch (codes "hall") (omega arith)
