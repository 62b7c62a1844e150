-- ===== src/Policy/Topics.antt =====
-- on_message of rpi-ai/policy_engine.c: which rule a message is for, and for which device.
use wireless_tsn_configurato.Base.{
  ℕ, Bool, ◌&&◌, ◌||◌, Option, none, some, [], ◌∷◌, ◌==◌, ltb, is_some, if◌then◌else◌, length, drop,
}
use wireless_tsn_configurato.Base.Int.{ℤ, pos, ltb_ℤ}
use wireless_tsn_configurato.Base.Text.{CString, codes, is_empty}
use wireless_tsn_configurato.Common.StrUtil.{copied, starts_with}
use wireless_tsn_configurato.Decimal.Scan.{atoi}
use wireless_tsn_configurato.Db.Engine.{Sqlite}
use wireless_tsn_configurato.Policy.{Engine, apply_r1, check_r3}

-- `strstr(s, pattern)`: where the first occurrence begins; the patterns are not empty.
unfoldable pub strstr : CString → CString → Option CString
strstr [] pattern = none
strstr (c ∷ s) pattern =
    let later = strstr s pattern in if starts_with (c ∷ s) pattern then some (c ∷ s) else later

-- `strrchr(s, c) + 1`
unfoldable pub behind_last : ℕ → CString → Option CString
behind_last c [] = none
behind_last c (d ∷ s) = elim (behind_last c s) [
  | some r ↦ some r
  | none ↦ if d == c then some s else none
]

-- The text up to a slash, or all of it.
unfoldable pub up_to_slash : CString → CString
up_to_slash [] = []
up_to_slash (c ∷ s) = let more = up_to_slash s in if c == b'/' then [] else c ∷ more

abbrev pub occurs : CString → CString → Bool
occurs pattern s = is_some (strstr s pattern)

-- The device of an event's topic; empty where there is none.
unfoldable pub event_device : CString → CString
unfolding behind_last
event_device topic = elim (behind_last b'/' topic) [ none ↦ [] | some s ↦ copied 128 s ]

-- The device of a metric's topic: an id of 128 bytes or more is not copied.
unfoldable pub metric_device : CString → CString
unfolding up_to_slash strstr
metric_device topic = elim (strstr topic (codes "metrics/")) [
  | none ↦ []
  | some s ↦ let id = up_to_slash (drop 8 s) in if ltb (length id) 128 then id else []
]

-- The number behind the last colon of a payload.
unfoldable pub last_number : CString → ℤ
last_number p = elim (behind_last b':' p) [ none ↦ pos 0 | some n ↦ atoi n ]

abbrev pub person : CString
person = b'"' ∷ b'a' ∷ b'i' ∷ b'_' ∷ b'p' ∷ b'e' ∷ b'r' ∷ b's' ∷ b'o' ∷ b'n' ∷ b'"' ∷ []

abbrev pub motion : CString
motion = b'"' ∷ b'p' ∷ b'i' ∷ b'r' ∷ b'"' ∷ []

module _ {H : Type 0} (sql : Sqlite H) where
  -- The part of `on_message` for R1, and that for R3.
  unfoldable pub on_event : ℤ → Engine H → CString → CString → Engine H
  unfolding event_device
  on_event now e topic payload =
      if occurs (codes "tsn/sensors/event") topic
        && (occurs person payload || occurs motion payload)
      then (let dev = event_device topic in if is_empty dev then e else apply_r1 sql now e dev)
      else e

  unfoldable pub on_metric : ℤ → Engine H → CString → CString → Engine H
  unfolding metric_device last_number
  on_metric now e topic payload =
      if occurs (codes "tsn/metrics/") topic && occurs (codes "latency") topic
      then (let dev = metric_device topic in
          let lat = last_number payload in
          if is_empty dev then e else if ltb_ℤ (pos 0) lat then check_r3 sql now e dev lat else e)
      else e

  -- `on_message`; a payload of no bytes is passed over.
  unfoldable pub on_message : ℤ → Engine H → CString → CString → Engine H
  unfolding on_event on_metric
  on_message now e topic payload =
      if is_empty payload then e else on_metric now (on_event now e topic payload) topic payload
