-- ===== src/Stream/Check.antt =====
-- When a stream is accepted, and how its state is written and read.
use wireless_tsn_configurato.Base.{◌<◌, ◌≡◌, ◌↔◌, ◌⊎◌, refl, true, false, some, arith, length}
use wireless_tsn_configurato.Base.Int.{pos, ◌≤ℤ◌}
use wireless_tsn_configurato.Base.Text.{is_empty, str_eq}
use wireless_tsn_configurato.Common.{ok}
use wireless_tsn_configurato.Stream.{
  Status, Stream, validate, status_parse, status_str, status_int, int_status,
}

-- What an accepted stream keeps.
pub record IsValid (s : Stream) : Type 0 where
  pub named : is_empty s.stream_id ≡ false
  pub sent : is_empty s.talker ≡ false
  pub vlan : (pos 0 ≤ℤ s.vlan_id) × (s.vlan_id ≤ℤ pos 4094)
  pub priority : (pos 0 ≤ℤ s.priority) × (s.priority ≤ℤ pos 7)
  pub frame_priority : (pos 0 ≤ℤ s.data_frame_prio) × (s.data_frame_prio ≤ℤ pos 7)
  pub latency : pos 1 ≤ℤ s.max_latency_ns
  pub interval : pos 1 ≤ℤ s.max_interval_ns
  pub heard : (s.listener_all ≡ true) ⊎ (0 < length s.listeners)

-- A stream is accepted exactly when it has an id and a talker, its VLAN id is 0 to 4094, both
-- priorities are 0 to 7, latency and interval are positive, and somebody listens.
pub validate-IsValid : (s : Stream) → (validate s ≡ ok) ↔ IsValid s
unfolding validate
validate-IsValid s = (λ (h : validate s ≡ ok). ground arith, λ (v : IsValid s). ground arith)

abbrev pub known : Status → Status
known (Status.other n) = Status.configured
known Status.configured = Status.configured
known Status.ready = Status.ready
known Status.failed = Status.failed
known Status.standby = Status.standby

-- A state is read back from its name as itself, and one without a name as `configured`; the cast to
-- `int` and back loses nothing for each of the four states.
pub status_parse-status_str :
    (st : Status)
    → (status_parse (some (status_str st)) ≡ known st)
      × (int_status (status_int (known st)) ≡ known st)
unfolding status_parse status_str int_status status_int str_eq
status_parse-status_str Status.configured = (refl, refl)
status_parse-status_str Status.ready = (refl, refl)
status_parse-status_str Status.failed = (refl, refl)
status_parse-status_str Status.standby = (refl, refl)
status_parse-status_str (Status.other n) = (refl, refl)
