-- ===== src/Tests/Clock.antt =====
-- The theorems about the PTP slave at concrete messages.
use wireless_tsn_configurato.Base.{
  length, arith, ℕ, ◌≡◌, false, none, some, List, [], ◌∷◌, All, replicate,
}
use wireless_tsn_configurato.Base.Int.{pos}
use wireless_tsn_configurato.Ptp.{
  Packet, Turn, boot, turns, delay_req, hdr_time_ns, ptp_type, ptp_version, ptp_domain,
}
use wireless_tsn_configurato.Ptp.Stamp.{hdr_time_ns-delay_req}
use wireless_tsn_configurato.Ptp.Lock.{OnItsPort, never_locks}

abbrev message : ℕ → Packet
message type = record { buf = 0 ∷ type ∷ 2 ∷ replicate 45 1; len = 48 }

-- SYNC from grandmaster 5 and its FOLLOW_UP, then, after the question, the answer.
abbrev answered : List (Turn ℕ)
answered =
    record {
      event = some (5, message 0x0);
      general = some (message 0x8);
      event_at = 10;
      sent_at = 11;
      general_at = 12;
    }
    ∷ record {
      event = none;
      general = some (message 0x9);
      event_at = 20;
      sent_at = 21;
      general_at = 22;
    }
    ∷ []

answered_ports : All OnItsPort answered
answered_ports = (
  record { event = λ src p e h. cc; general = λ p e h. cc },
  (record { event = λ src p e h. cc; general = λ p e h. cc }, tt),
)

never_locks_example :
    ((turns boot answered).locked ≡ false)
    × ((turns boot answered).c_ns ≡ 0)
    × ((turns boot answered).last_offset_ns ≡ pos 0)
never_locks_example = never_locks answered answered_ports

hdr_time_ns-delay_req_example :
    let p : Packet = record { buf = delay_req 3 1700000000123456789; len = 44 } in
    (length p.buf ≡ p.len)
    × (ptp_type p ≡ 0x1)
    × (ptp_version p ≡ 2)
    × (ptp_domain p ≡ 3)
    × (hdr_time_ns p ≡ 1700000000123456789)
hdr_time_ns-delay_req_example = hdr_time_ns-delay_req 3 1700000000123456789 (omega arith)
