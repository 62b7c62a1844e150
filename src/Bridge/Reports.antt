-- ===== src/Bridge/Reports.antt =====
-- rpi-tsn/tsn_opcua_bridge.c: what a frame of telemetry writes to the server (`on_telemetry`).
use wireless_tsn_configurato.Base.{
  ℕ, zero, suc, ◌+◌, ◌-◌, ◌*◌, ◌/◌, ◌%◌, ◌^◌, Bool, false, ◌==◌, ltb, List, [], ◌∷◌, if◌then◌else◌,
  length, get_or, min,
}
use wireless_tsn_configurato.Base.Int.{pos}
use wireless_tsn_configurato.Base.Text.{CString, codes}
use wireless_tsn_configurato.Frame.{max_payload, read16}
use wireless_tsn_configurato.Endpoint.{cfg_len, until_nul}
use wireless_tsn_configurato.Bridge.{
  boolean, byte, int16, uint16, int32, int64, int16s, Effect, write, cast, read_le,
}
use wireless_tsn_configurato.Bridge.Json.{jint, jbool}

-- `n` angles from index `i` on.
unfoldable pub angles : ℕ → ℕ → List ℕ → List ℕ
angles zero i pl = []
angles (suc n) i pl = read16 pl (4 + i * 2) ∷ angles n (i + 1) pl

unfoldable pub on_sweep : List ℕ → List Effect
unfolding angles read_le
on_sweep pl =
    if ltb (length pl) 4
    then []
    else (write 1 (int16s (angles (min ((length pl - 4) / 2) 2048) 0 pl))
        ∷ write 2 (int32 (read_le 4 pl 0))
        ∷ [])

unfoldable pub on_buttons : List ℕ → List Effect
on_buttons [] = []
on_buttons (m ∷ pl) =
    write 7 (boolean (m % 2))
    ∷ write 8 (boolean (m / 2 % 2))
    ∷ write 9 (boolean (m / 4 % 2))
    ∷ write 10 (boolean (m / 8 % 2))
    ∷ []

abbrev bit : Bool → ℕ
bit b = if b then 1 else 0

unfoldable pub on_actuator : CString → List Effect
on_actuator jb =
    write 3 (int16 (cast (2 ^ 16) (jint jb (codes "angle") (pos 0))))
    ∷ write 5 (uint16 (cast (2 ^ 16) (jint jb (codes "hz") (pos 0))))
    ∷ write 6 (uint16 (cast (2 ^ 16) (jint jb (codes "ms") (pos 0))))
    ∷ write 4 (boolean (bit (jbool jb (codes "on") false)))
    ∷ []

unfoldable pub on_ptp : CString → List Effect
on_ptp jb =
    write 11 (int64 (cast (2 ^ 64) (jint jb (codes "offset_ns") (pos 0))))
    ∷ write 12 (byte (cast (2 ^ 8) (jint jb (codes "state") (pos 0))))
    ∷ write 13 (boolean (bit (jbool jb (codes "locked") false)))
    ∷ []

-- `HTSN_TSN_GCL_ENTRY`
abbrev pub gcl_entry : ℕ
gcl_entry = 9

-- The bitmap behind the configuration and its gate entries, 0 where the payload is too short.
unfoldable pub reported_features : List ℕ → ℕ
unfolding read_le
reported_features pl =
    let at = cfg_len + read16 pl 19 * gcl_entry in
    if ltb (length pl) (at + 4) then 0 else read_le 4 pl at

unfoldable pub on_applied : List ℕ → List Effect
unfolding reported_features read_le
on_applied pl =
    if ltb (length pl) cfg_len
    then []
    else (write 31 (int16 (read16 pl 2))
        ∷ write 32 (byte (get_or pl 0 0))
        ∷ write 33 (byte (get_or pl 4 0))
        ∷ write 34 (byte (get_or pl 5 0))
        ∷ write 35 (byte (get_or pl 6 0))
        ∷ write 36 (int16 (read16 pl 7))
        ∷ write 37 (int64 (read_le 8 pl 11))
        ∷ write 38 (int32 (reported_features pl))
        ∷ [])

-- `on_telemetry`; the text of a hello is only logged.
unfoldable pub on_telemetry : ℕ → List ℕ → List Effect
unfolding on_sweep on_buttons on_actuator on_ptp on_applied until_nul
on_telemetry kind pl =
    if kind == 2
    then on_sweep pl
    else if kind == 3
    then on_buttons pl
    else if kind == 4
    then (if ltb (length pl) (max_payload + 1) then on_actuator (until_nul pl) else [])
    else if kind == 5
    then (if ltb (length pl) (max_payload + 1) then on_ptp (until_nul pl) else [])
    else if kind == 6
    then on_applied pl
    else []
