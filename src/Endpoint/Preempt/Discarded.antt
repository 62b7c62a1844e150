-- ===== src/Endpoint/Preempt/Discarded.antt =====
-- What a receiver makes of a frame that is cut off, and of the whole one: the frames of stm32-tsn/tsn/eth_proto.c's demonstration of preemption.
use mathlib.Core.List.{append-nil}
use mathlib.Core.Option.{some-injective}
use wireless_tsn_configurato.Base.{
  ℕ, suc, ◌+◌, ◌-◌, ◌≤◌, ◌<◌, ◌≡◌, ◌∙◌, refl, ap, none, some, false, ◌/◌, ◌%◌, List, [], ◌∷◌, ◌++◌,
  arith, ltb, length, take, drop, length-append, length-take, sym, inl, inr,
}
use wireless_tsn_configurato.Frame.{max_payload, pack, unpack, read16, bytes16, crc16}
use wireless_tsn_configurato.Frame.Wire.{unpack-pack}
use wireless_tsn_configurato.Endpoint.{build_tagged_pcp, ipv4_header, bytes_be}
use wireless_tsn_configurato.Endpoint.Preempt.{aborted, cut}

-- A datagram that is shorter than its header promises is refused.
unpack_short : (bytes : List ℕ) → length bytes < 7 + read16 bytes 3 → unpack bytes ≡ none
unfolding unpack
unpack_short bytes h = ground arith

cut_at : (k : ℕ) → k < 42 → cut (32 + (13 + k)) ≡ 37 + k
unfolding cut
cut_at k h = ground arith

pub behind :
    (vlan_id pcp : ℕ) (frame : List ℕ) → drop 32 (build_tagged_pcp vlan_id frame pcp) ≡ frame
unfolding build_tagged_pcp ipv4_header bytes_be
behind vlan_id pcp frame = refl

abbrev up_eight : ℕ → ℕ
up_eight n = suc (suc (suc (suc (suc (suc (suc (suc n)))))))

behind_cut :
    (vlan_id pcp k : ℕ) (a b c d e : ℕ) (frame : List ℕ)
    → length frame ≡ 8 + k
    → k < 42
    → drop 32 (aborted (build_tagged_pcp vlan_id (a ∷ b ∷ c ∷ d ∷ e ∷ frame) pcp))
      ≡ a ∷ b ∷ c ∷ d ∷ e ∷ (take k frame ++ (0xFF ∷ 0xFF ∷ []))
unfolding aborted build_tagged_pcp ipv4_header bytes_be
behind_cut vlan_id pcp k a b c d e frame size h =
    let full = build_tagged_pcp vlan_id (a ∷ b ∷ c ∷ d ∷ e ∷ frame) pcp in
    let total : length full ≡ 32 + (13 + k) = omega (arith, size) in
    let kept : cut (length full)
        ≡ up_eight (up_eight (up_eight (up_eight (suc (suc (suc (suc (suc k)))))))) =
      omega (arith, ap cut total, cut_at k h) in
    ap (λ n. drop 32 (take n full ++ (0xFF ∷ 0xFF ∷ []))) kept

-- The parts of a frame of such a text.
shaped :
    (payload frame : List ℕ)
    → length payload ≤ max_payload
    → pack 1 7 payload ≡ some frame
    → (rest : List ℕ) × (frame
        ≡ 0xA5 ∷ 1 ∷ 7 ∷ length payload % 256 ∷ length payload / 256 % 256 ∷ rest)
      × (length rest ≡ length payload + 2)
unfolding pack bytes16
shaped payload frame small packed =
    let start = 0xA5 ∷ 1 ∷ 7 ∷ (bytes16 (length payload) ++ payload) in
    let fits : ltb max_payload (length payload) ≡ false = ground (arith, small) in
    let same : some (start ++ bytes16 (crc16 start)) ≡ some frame = rw fits at packed in
    let sum = bytes16 (crc16 start) in
    (payload ++ sum, sym (some-injective _ _ same), omega (arith, length-append payload sum))

refused :
    (vlan_id pcp : ℕ) (payload frame : List ℕ)
    → 6 ≤ length payload
    → length payload ≤ 41
    → pack 1 7 payload ≡ some frame
    → unpack (drop 32 (aborted (build_tagged_pcp vlan_id frame pcp))) ≡ none
unfolding read16
refused vlan_id pcp payload frame low high packed =
    let k = length payload - 6 in
    let (rest, shape, size) = shaped payload frame (omega (arith, high)) packed in
    let cut_off =
      behind_cut vlan_id pcp k 0xA5 1 7 (length payload % 256) (length payload / 256 % 256) rest
        (omega (arith, size, low)) (omega (arith, low, high)) in
    rw shape (
      rw cut_off (
        unpack_short _ (
          omega (
            arith,
            low,
            high,
            length-append (take k rest) (0xFF ∷ 0xFF ∷ []),
            length-take k rest,
          ))))

-- A text of 6 to 41 bytes, cut off and whole.
pub cut_and_whole :
    (vlan_id pcp : ℕ) (payload : List ℕ)
    → 6 ≤ length payload
    → length payload ≤ 41
    → (frame : List ℕ) × (pack 1 7 payload ≡ some frame)
      × (length frame ≡ length payload + 7)
      × (unpack (drop 32 (aborted (build_tagged_pcp vlan_id frame pcp))) ≡ none)
      × (unpack (drop 32 (build_tagged_pcp vlan_id frame pcp)) ≡ some (1, 7, payload))
cut_and_whole vlan_id pcp payload low high = elim (unpack-pack 1 7 payload) [
  | inr long ↦ absurd (omega (arith, long.0))
  | inl fits ↦
      let (small, (frame, packed, size, unpacked)) = fits in
      (
        frame,
        packed,
        omega (arith, size),
        refused vlan_id pcp payload frame low high packed,
        ap unpack (behind vlan_id pcp frame ∙ sym (append-nil frame)) ∙ unpacked [],
      )
]
