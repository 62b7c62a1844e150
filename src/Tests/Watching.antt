-- ===== src/Tests/Watching.antt =====
-- The theorems about the trace and the telemetry at concrete inputs.
use wireless_tsn_configurato.Base.{
  ℕ, ◌≡◌, none, some, List, [], ◌∷◌, ◌++◌, arith, length, take, get_elem?,
}
use wireless_tsn_configurato.Base.Int.{pos, negsuc}
use wireless_tsn_configurato.Base.Text.{CString, codes}
use wireless_tsn_configurato.Base.Table.{text_eq}
use wireless_tsn_configurato.Managers.TimeSync as timesync
use wireless_tsn_configurato.Trace.{Now, frame, entry, frame_line, create_persistent, entry_at}
use wireless_tsn_configurato.Trace.History as history
use wireless_tsn_configurato.Trace.Hex.{read_bytes, read_bytes-entry}
use wireless_tsn_configurato.Telemetry.{Parsed, unread, Telemetry, on_message, parse_payload}
use wireless_tsn_configurato.Telemetry.Payload.{parse_payload_lem}
use wireless_tsn_configurato.Telemetry.Handled.{
  quote, id_payload, on_message-suffix, parse_payload-id_payload,
}
use wireless_tsn_configurato.Tests.World.{Store, empty_store, engine}
use wireless_tsn_configurato.Tests.Data.{bus, table}

abbrev noon : Now
noon = record { seconds = pos 1000; clock = some (codes "12:00:00") }

abbrev calls : List history.Op
calls =
    history.on_comm noon (some (codes "cnc")) (some (codes "hello"))
    ∷ history.on_frame noon none (some (0x08 ∷ 0xFF ∷ [])) 2
    ∷ history.on_config noon none none
    ∷ []

entry_at-run_example :
    let t = history.run engine (create_persistent (some bus) (some empty_store) 100) calls in
    ((i : ℕ) → entry_at t (pos i) ≡ get_elem? (history.recall [] calls) i)
    × ((n : ℕ) → entry_at t (negsuc n) ≡ none)
    × (t.count ≡ length (history.recall [] calls))
entry_at-run_example = history.entry_at-run engine (some bus) (some empty_store) 100 calls

read_bytes-entry_example :
    read_bytes (entry noon frame none (frame_line 0 (8 ∷ 255 ∷ []))).line ≡ take 84 (8 ∷ 255 ∷ [])
read_bytes-entry_example =
    read_bytes-entry noon none (8 ∷ 255 ∷ []) (omega arith, (omega arith, tt))

-- Telemetry

parse_payload_lem_example :
    (r : Parsed) × (parse_payload (codes "{jitter_ns:40}") ≡ some r) × (r.jitter_ns ≡ pos 0)
parse_payload_lem_example = parse_payload_lem (codes "{jitter_ns:40}")

abbrev clocks : timesync.Manager Store ℕ ℕ
clocks = record {
  db = empty_store;
  model = record { name = codes "timesync"; bus = some bus };
  status = timesync.cleared (codes "gptp");
}

abbrev managers : Telemetry Store ℕ ℕ
managers = record { devices = some table; timesync = some clocks }

on_message-suffix_example :
    on_message engine (pos 100) managers (some (codes "tsn/status/" ++ codes "stm")) (codes "{}")
    ≡ some (managers, record { status = []; device = [] })
on_message-suffix_example =
    on_message-suffix engine (pos 100) managers b's' (codes "tm") (codes "{}")

abbrev letters : CString
letters = codes "stm"

parse_payload-id_payload_example :
    parse_payload (id_payload letters) ≡ some (record unread { id = quote ++ (letters ++ quote) })
parse_payload-id_payload_example =
    parse_payload-id_payload letters
      (
        ((λ e. omega (arith, e)), (λ e. omega (arith, e))),
        (
          ((λ e. omega (arith, e)), (λ e. omega (arith, e))),
          (((λ e. omega (arith, e)), (λ e. omega (arith, e))), tt),
        ),
      )
      (omega arith)
