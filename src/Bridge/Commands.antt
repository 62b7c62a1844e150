-- ===== src/Bridge/Commands.antt =====
-- rpi-tsn/tsn_opcua_bridge.c: what is forwarded to the endpoint.
use wireless_tsn_configurato.Base.{
  ℕ, ◌+◌, ◌^◌, Bool, true, ◌&&◌, not, ◌==◌, leb, Option, none, some, List, [], ◌∷◌, ◌++◌,
  if◌then◌else◌, length, take, min,
}
use wireless_tsn_configurato.Base.Int.{ℤ, pos, ◌-ℤ◌, leb_ℤ}
use wireless_tsn_configurato.Base.Text.{CString, codes, str_eq, is_empty}
use wireless_tsn_configurato.Frame.{max_payload, pack, bytes16}
use wireless_tsn_configurato.Endpoint.{cfg_len, until_nul}
use wireless_tsn_configurato.Bridge.{Address, boolean, Effect, write, datagram, cast, le_bytes}
use wireless_tsn_configurato.Bridge.Json.{jint, jintarr}
use wireless_tsn_configurato.Bridge.Reports.{gcl_entry}

-- The static variables: `ep` once it is known, what was sent last, and whether the baseline is read.
-- A boolean and an `int16_t` are their bits.
pub record Bridge : Type 0 where
  pub ep : Option Address
  pub last_tsn : CString
  pub last_keepalive : ℤ
  pub last_servo : ℕ
  pub last_relay : ℕ
  pub last_beep : ℕ
  pub primed : Bool

-- What the command nodes read as, none where the server gives no value of the node's type.
pub record Nodes : Type 0 where
  pub tsn_config : Option CString
  pub servo_angle : Option ℕ
  pub relay_on : Option ℕ
  pub beep_ms : Option ℕ
  pub sonar_trig : Option ℕ
  pub reboot : Option ℕ

-- `send_frame` and `send_cmd_kind`: what is sent, none where they return -1. `sends` says whether
-- `sendto` takes a datagram.
unfoldable pub send_frame : (List ℕ → Bool) → Bridge → ℕ → ℕ → List ℕ → Option Effect
send_frame sends s type kind pl = elim s.ep [
  | none ↦ none
  | some ep ↦ elim (pack type kind pl) [
    | none ↦ none
    | some frame ↦ if sends frame then some (datagram ep frame) else none
  ]
]

abbrev pub attempted : Option Effect → List Effect
attempted none = []
attempted (some e) = e ∷ []

unfoldable pub send_cmd_kind : (List ℕ → Bool) → Bridge → ℕ → List ℕ → List Effect
unfolding send_frame
send_cmd_kind sends s kind pl = attempted (send_frame sends s 0 kind pl)

-- The bytes of one gate entry.
unfoldable pub gate_entry : ℤ → ℤ → List ℕ
unfolding le_bytes
gate_entry gs dur = cast (2 ^ 8) gs ∷ le_bytes 8 (cast (2 ^ 64) dur)

-- The loop over the gate entries, at an offset.
unfoldable pub gate_entries : ℕ → List ℤ → List ℤ → List ℕ
unfolding gate_entry
gate_entries off [] durs = []
gate_entries off (g ∷ gs) [] = []
gate_entries off (g ∷ gs) (d ∷ durs) =
    let more = gate_entries (off + gcl_entry) gs durs in
    if leb (off + gcl_entry) max_payload then gate_entry g d ++ more else []

-- `HTSN_TSN_MAX_GCL`
abbrev pub max_gcl : ℕ
max_gcl = 16

-- A number of the snapshot, cast to an unsigned type.
abbrev pub field : ℕ → CString → CString → ℕ
field m json key = cast m (jint json key (pos 0))

-- The payload of `push_tsn_config`: `htsn_tsn_cfg_t` and the gate entries.
unfoldable pub cfg_payload : CString → List ℕ
unfolding bytes16 le_bytes gate_entries
cfg_payload json =
    let gs = jintarr json (codes "gcl_gs") max_gcl in
    let durs = jintarr json (codes "gcl_dur") max_gcl in
    (field 256 json (codes "priority") ∷ field 256 json (codes "traffic_class") ∷ [])
    ++ (bytes16 (field (2 ^ 16) json (codes "vlan_id"))
        ++ ((field 256 json (codes "preemption")
              ∷ field 256 json (codes "timesync_mode")
              ∷ field 256 json (codes "st_role")
              ∷ [])
            ++ (bytes16 (field (2 ^ 16) json (codes "st_vlan"))
                ++ ((field 256 json (codes "st_prio") ∷ 0 ∷ [])
                    ++ (le_bytes 8 (field (2 ^ 64) json (codes "tas_cycle_ns"))
                        ++ (bytes16 (min (length gs) (length durs))
                            ++ gate_entries cfg_len gs durs))))))

-- `push_tsn_config`
unfoldable pub push_tsn_config : (List ℕ → Bool) → Bridge → CString → Bridge × List Effect
unfolding send_frame cfg_payload
push_tsn_config sends s json = elim (send_frame sends s 0 7 (cfg_payload json)) [
  | none ↦ (s, [])
  | some e ↦ (record s { last_tsn = take max_payload json }, e ∷ [])
]

-- The first part of `poll_commands`: the configuration, where it is new. A text with a NUL ends there.
unfoldable pub poll_config : (List ℕ → Bool) → Bridge → Option CString → Bridge × List Effect
unfolding push_tsn_config until_nul
poll_config sends s none = (s, [])
poll_config sends s (some text) =
    let json = until_nul (take max_payload text) in
    if not (is_empty json) && not (str_eq json s.last_tsn)
    then push_tsn_config sends s json
    else (s, [])

-- The keepalive, at the time `now`.
unfoldable pub keepalive : (List ℕ → Bool) → ℤ → Bridge → Bridge × List Effect
unfolding push_tsn_config
keepalive sends now s =
    if not (is_empty s.last_tsn) && leb_ℤ (pos 10) (now -ℤ s.last_keepalive)
    then (let (s', es) = push_tsn_config sends s s.last_tsn in
        (record s' { last_keepalive = now }, es))
    else (s, [])

-- What is sent for a value that is not the last one, once the baseline is read.
abbrev pub on_change : Bool → ℕ → ℕ → List Effect → List Effect
on_change primed a last es = if primed && not (a == last) then es else []

unfoldable pub poll_servo : (List ℕ → Bool) → Bridge → Option ℕ → Bridge × List Effect
unfolding send_cmd_kind bytes16
poll_servo sends s none = (s, [])
poll_servo sends s (some a) = (
  record s { last_servo = a },
  on_change s.primed a s.last_servo (send_cmd_kind sends s 1 (bytes16 a)),
)

unfoldable pub poll_relay : (List ℕ → Bool) → Bridge → Option ℕ → Bridge × List Effect
unfolding send_cmd_kind
poll_relay sends s none = (s, [])
poll_relay sends s (some b) = (
  record s { last_relay = b },
  on_change s.primed b s.last_relay (send_cmd_kind sends s 3 ((if b == 0 then 0 else 1) ∷ [])),
)

unfoldable pub poll_beep : (List ℕ → Bool) → Bridge → Option ℕ → Bridge × List Effect
unfolding send_cmd_kind bytes16
poll_beep sends s none = (s, [])
poll_beep sends s (some ms) = (
  record s { last_beep = ms },
  on_change s.primed ms s.last_beep (send_cmd_kind sends s 4 (bytes16 ms)),
)

-- A trigger that is set sends its command and is written back as false.
unfoldable pub poll_trigger : (List ℕ → Bool) → Bridge → ℕ → ℕ → Option ℕ → List Effect
unfolding send_cmd_kind
poll_trigger sends s kind node none = []
poll_trigger sends s kind node (some v) =
    if v == 0 then [] else send_cmd_kind sends s kind [] ++ (write node (boolean 0) ∷ [])

-- `poll_commands`
unfoldable pub poll_commands : (List ℕ → Bool) → ℤ → Nodes → Bridge → Bridge × List Effect
unfolding poll_config keepalive poll_servo poll_relay poll_beep poll_trigger
poll_commands sends now n s =
    let (s1, pushed) = poll_config sends s n.tsn_config in
    let (s2, again) = keepalive sends now s1 in
    let (s3, servo) = poll_servo sends s2 n.servo_angle in
    let (s4, relay) = poll_relay sends s3 n.relay_on in
    let (s5, beep) = poll_beep sends s4 n.beep_ms in
    (
      record s5 { primed = true },
      pushed
          ++ (again
              ++ (servo
                  ++ (relay
                      ++ (beep
                          ++ (poll_trigger sends s5 2 24 n.sonar_trig
                              ++ poll_trigger sends s5 6 25 n.reboot))))),
    )
