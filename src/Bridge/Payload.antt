-- ===== src/Bridge/Payload.antt =====
-- The payload of a configuration that rpi-tsn/tsn_opcua_bridge.c builds, as its fields are read.
use wireless_tsn_configurato.Base.{
  ℕ, zero, suc, ◌+◌, ◌-◌, ◌*◌, ◌^◌, ◌≤◌, ◌<◌, ◌≡◌, ◌∙◌, refl, true, false, List, [], ◌∷◌, ◌++◌,
  arith, length, get_or, min, ltb, leb, length-append, Option-cases, inl, inr,
}
use wireless_tsn_configurato.Base.Int.{ℤ, pos}
use wireless_tsn_configurato.Base.Text.{CString, codes}
use wireless_tsn_configurato.Common.StrUtil.{trim_start}
use wireless_tsn_configurato.Decimal.Scan.{skip_spaces}
use wireless_tsn_configurato.Scanf.{behind_number}
use wireless_tsn_configurato.Frame.{max_payload, read16, bytes16}
use wireless_tsn_configurato.Endpoint.{Net, cfg_len, features, bytes32}
use wireless_tsn_configurato.Bridge.{Effect, write, byte, int16, int32, int64, le_bytes, read_le}
use wireless_tsn_configurato.Bridge.Json.{jint, jintarr, jfind, ints_from, skip_commas}
use wireless_tsn_configurato.Bridge.Reports.{on_applied, reported_features}
use wireless_tsn_configurato.Bridge.Commands.{cfg_payload, field, gate_entry, gate_entries, max_gcl}
use wireless_tsn_configurato.Bridge.Numbers.{cast-lt, read_le-append, read_le-bytes32, eight_bytes}

length-ints_from : (n : ℕ) (p : CString) → length (ints_from n p) ≤ n
unfolding ints_from
length-ints_from zero p = omega arith
length-ints_from (suc n) p = elim (Option-cases (behind_number (skip_spaces (trim_start p)))) [
  | inl e ↦ rw (e, ints_from, length) (ground arith)
  | inr (rest, e) ↦
      rw (e, ints_from, length) (ground (arith, length-ints_from n (skip_commas rest)))
]

length-jintarr : (buf key : CString) (n : ℕ) → length (jintarr buf key n) ≤ n
unfolding jintarr
length-jintarr buf key n = elim (Option-cases (jfind buf key)) [
  | inl e ↦ rw (e, jintarr, length) (omega arith)
  | inr ([], e) ↦ rw (e, jintarr, length) (omega arith)
  | inr ((c ∷ p), e) ↦ rw (e, jintarr, length) (ground (arith, length-ints_from n p))
]

length-gate_entries :
    (off : ℕ) (gs durs : List ℤ)
    → off + min (length gs) (length durs) * 9 ≤ max_payload
    → length (gate_entries off gs durs) ≡ min (length gs) (length durs) * 9
unfolding gate_entries gate_entry le_bytes
length-gate_entries off [] durs h = omega arith
length-gate_entries off (g ∷ gs) [] h = omega arith
length-gate_entries off (g ∷ gs) (d ∷ durs) h =
    let fits : leb (off + 9) max_payload ≡ true = ground arith in
    rw fits (omega (arith, length-gate_entries (off + 9) gs durs (omega arith)))

-- What a report writes of a configuration that is applied.
abbrev pub reported : (vlan prio preempt sync role st_vlan cycle feat : ℕ) → List Effect
reported vlan prio preempt sync role st_vlan cycle feat =
    write 31 (int16 vlan)
    ∷ write 32 (byte prio)
    ∷ write 33 (byte preempt)
    ∷ write 34 (byte sync)
    ∷ write 35 (byte role)
    ∷ write 36 (int16 st_vlan)
    ∷ write 37 (int64 cycle)
    ∷ write 38 (int32 feat)
    ∷ []

on_applied_reads :
    (pl : List ℕ) (vlan st_vlan cycle feat : ℕ)
    → cfg_len ≤ length pl
    → read16 pl 2 ≡ vlan
    → read16 pl 7 ≡ st_vlan
    → read_le 8 pl 11 ≡ cycle
    → reported_features pl ≡ feat
    → on_applied pl
      ≡ reported vlan
          (get_or pl 0 0)
          (get_or pl 4 0)
          (get_or pl 5 0)
          (get_or pl 6 0)
          st_vlan
          cycle
          feat
unfolding on_applied
on_applied_reads pl vlan st_vlan cycle feat size v s c f =
    let long : ltb (length pl) cfg_len ≡ false = ground (arith, size) in
    rw long (rw (v, s, c, f) refl)

pub length-bytes32 : (n : ℕ) → length (bytes32 n) ≡ 4
unfolding bytes32
length-bytes32 n = refl

pub features-lt : (s : Net) → features s < 2 ^ 32
unfolding features
features-lt s = ground arith

module _ (json : CString) where
  gates : List ℤ
  gates = jintarr json (codes "gcl_gs") max_gcl

  durations : List ℤ
  durations = jintarr json (codes "gcl_dur") max_gcl

  count : ℕ
  unfolding gates durations
  count = min (length gates) (length durations)

  count_small : count ≤ 16
  unfolding count gates
  count_small = omega (arith, length-jintarr json (codes "gcl_gs") 16)

  length-cfg_payload : length (cfg_payload json) ≡ cfg_len + count * 9
  unfolding cfg_payload bytes16 le_bytes count gates durations
  length-cfg_payload =
      omega (arith, length-gate_entries cfg_len gates durations (omega (arith, count_small)))

  module _ (rest : List ℕ) where
    read-count : read16 (cfg_payload json ++ rest) 19 ≡ count
    unfolding cfg_payload bytes16 le_bytes read16 count gates durations
    read-count = omega (arith, count_small)

    pub read-vlan : read16 (cfg_payload json ++ rest) 2 ≡ field (2 ^ 16) json (codes "vlan_id")
    unfolding cfg_payload bytes16 le_bytes read16
    read-vlan = omega (arith, cast-lt (2 ^ 16) (jint json (codes "vlan_id") (pos 0)) (omega arith))

    read-st_vlan : read16 (cfg_payload json ++ rest) 7 ≡ field (2 ^ 16) json (codes "st_vlan")
    unfolding cfg_payload bytes16 le_bytes read16
    read-st_vlan =
        omega (arith, cast-lt (2 ^ 16) (jint json (codes "st_vlan") (pos 0)) (omega arith))

    read-cycle :
        read_le 8 (cfg_payload json ++ rest) 11 ≡ field (2 ^ 64) json (codes "tas_cycle_ns")
    unfolding cfg_payload bytes16 le_bytes read_le
    read-cycle =
        eight_bytes (field (2 ^ 64) json (codes "tas_cycle_ns"))
          (cast-lt (2 ^ 64) (jint json (codes "tas_cycle_ns") (pos 0)) (omega arith)) []

  read-features : (f : ℕ) → f < 2 ^ 32 → reported_features (cfg_payload json ++ bytes32 f) ≡ f
  unfolding reported_features
  read-features f h =
      let pl = cfg_payload json in
      let at : cfg_len + read16 (pl ++ bytes32 f) 19 * 9 ≡ length pl + 0 =
        omega (arith, read-count (bytes32 f), length-cfg_payload) in
      let size : ltb (length (pl ++ bytes32 f)) (length pl + 0 + 4) ≡ false =
        ground (arith, length-append pl (bytes32 f), length-bytes32 f) in
      rw at (rw size (read_le-append 4 pl (bytes32 f) 0 ∙ read_le-bytes32 f h))

  -- What the server is told of an endpoint that applied the configuration.
  unfoldable pub told : ℕ → List Effect
  told feat =
      reported (field (2 ^ 16) json (codes "vlan_id")) (field 256 json (codes "priority"))
        (field 256 json (codes "preemption")) (field 256 json (codes "timesync_mode"))
        (field 256 json (codes "st_role")) (field (2 ^ 16) json (codes "st_vlan"))
        (field (2 ^ 64) json (codes "tas_cycle_ns")) feat

  pub on_applied-cfg : (f : ℕ) → f < 2 ^ 32 → on_applied (cfg_payload json ++ bytes32 f) ≡ told f
  unfolding told cfg_payload
  on_applied-cfg f h =
      let tail = bytes32 f in
      on_applied_reads (cfg_payload json ++ tail) _ _ _ _
        (omega (arith, length-append (cfg_payload json) tail, length-cfg_payload)) (read-vlan tail)
        (read-st_vlan tail) (read-cycle tail) (read-features f h)

  pub cfg_payload_fits :
      (cfg_len ≤ length (cfg_payload json)) × (length (cfg_payload json) ≤ max_payload - 4)
  cfg_payload_fits =
      (omega (arith, length-cfg_payload), omega (arith, length-cfg_payload, count_small))
