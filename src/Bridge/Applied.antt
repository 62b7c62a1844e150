-- ===== src/Bridge/Applied.antt =====
-- A configuration on its way: from the bridge of rpi-tsn/tsn_opcua_bridge.c to the endpoint of
-- stm32-tsn/tsn/eth_proto.c, and as the endpoint's report back to the server.
use wireless_tsn_configurato.Base.{
  ℕ, ◌+◌, ◌^◌, ◌≤◌, ◌≡◌, ◌∙◌, sym, ap, true, false, ◌&&◌, some, List, [], ◌∷◌, ◌++◌, arith, length,
  take, ltb, take_of_le, if◌then◌else◌, inl, inr,
}
use mathlib.Core.List.{append-nil}
use wireless_tsn_configurato.Base.Text.{CString, codes, str_eq}
use wireless_tsn_configurato.Frame.{max_payload, header_len, crc_len, pack, unpack, read16}
use wireless_tsn_configurato.Frame.Wire.{unpack-pack}
use wireless_tsn_configurato.Endpoint as endpoint
use wireless_tsn_configurato.Endpoint.{
  Net, Sent, tagged, plain, cfg_len, features, bytes32, build_tagged_pcp, handle_cfg,
  report_applied,
}
use wireless_tsn_configurato.Endpoint.Applied.{taken, handle_cfg_new}
use wireless_tsn_configurato.Bridge.Commands.{cfg_payload, field}
use wireless_tsn_configurato.Bridge.Payload.{read-vlan, cfg_payload_fits}

-- How a frame leaves the endpoint: tagged, plain or not at all.
unfoldable pub egress : Net → List ℕ → List Sent
egress s frame =
    if ltb 0 s.vlan_id && s.raw_sock
    then tagged (build_tagged_pcp s.vlan_id frame s.pcp) ∷ []
    else if s.sock
    then plain frame ∷ []
    else []

-- A datagram as the receiver's buffer holds it is a frame with this content.
abbrev pub Arrives : List ℕ → ℕ → ℕ → List ℕ → Type 0
Arrives frame type kind payload =
    unpack (take (header_len + max_payload + crc_len) frame) ≡ some (type, kind, payload)

-- A frame of this program is received whole.
pub received :
    (type kind : ℕ) (payload : List ℕ)
    → length payload ≤ max_payload
    → (frame : List ℕ) × (pack type kind payload ≡ some frame) × Arrives frame type kind payload
received type kind payload small = elim (unpack-pack type kind payload) [
  | inr long ↦ absurd (omega (arith, long.0))
  | inl fits ↦
      let (_, (frame, packed, size, unpacked)) = fits in
      (
        frame,
        packed,
        ap unpack (
              take_of_le (header_len + max_payload + crc_len) frame (omega (arith, size))
              ∙ sym (append-nil frame))
            ∙ unpacked [],
      )
]

module _ (json : CString) where
  -- The endpoint with the configuration.
  unfoldable pub configured : Net → Net
  configured s = record s {
    payload = cfg_payload json;
    valid = true;
    vlan_id = field (2 ^ 16) json (codes "vlan_id");
    pcp = field 256 json (codes "priority");
    preempt = field 256 json (codes "preemption");
  }

  taken-cfg : (s : Net) → taken s (cfg_payload json) ≡ configured s
  unfolding taken configured cfg_payload
  taken-cfg s =
      ap
        (λ n. record s {
          payload = cfg_payload json;
          valid = true;
          vlan_id = n;
          pcp = field 256 json (codes "priority");
          preempt = field 256 json (codes "preemption");
        })
        (ap (λ p. read16 p 2) (sym (append-nil (cfg_payload json))) ∙ read-vlan json [])

  applied :
      (s : Net)
      → (s.valid && str_eq s.payload (cfg_payload json)) ≡ false
      → handle_cfg s (cfg_payload json) ≡ (
        configured s,
        endpoint.send_frame
            (configured s)
            6
            (cfg_payload json ++ bytes32 (features (configured s))),
      )
  applied s new =
      handle_cfg_new s (cfg_payload json) (cfg_payload_fits json).0 (cfg_payload_fits json).1 new
      ∙ ap (λ n. (n, endpoint.send_frame n 6 (cfg_payload json ++ bytes32 (features n))))
          (taken-cfg s)
