-- ===== src/Endpoint/Egress.antt =====
-- The headers that stm32-tsn/tsn/eth_proto.c puts in front of a tagged frame, as a receiver reads
-- them.
use wireless_tsn_configurato.Base.{
  ℕ, ◌+◌, ◌-◌, ◌*◌, ◌/◌, ◌%◌, ◌^◌, ◌<◌, ◌≡◌, ◌∙◌, refl, ap, List, [], ◌∷◌, arith, length, get_or,
  take, drop,
}
use wireless_tsn_configurato.Endpoint.{
  build_tagged_pcp, ipv4_hdr_sum, ipv4_header, bytes_be, sum_words, fold,
}

-- The number of two bytes, the high one first, and the sum of all such numbers of a header.
abbrev pub be16 : List ℕ → ℕ → ℕ
be16 bytes i = get_or bytes i 0 * 256 + get_or bytes (i + 1) 0

abbrev pub word_sum : List ℕ → ℕ
word_sum [] = 0
word_sum (a ∷ []) = a * 256
word_sum (a ∷ b ∷ bytes) = (a * 256 + b) + word_sum bytes

-- The IPv4 header behind the tag and the type, without options.
abbrev pub ip_of : List ℕ → List ℕ
ip_of full = take 20 (drop 4 full)

-- The checksum that is computed over a cleared checksum field.
ipv4_hdr_sum-cleared :
    (ip_len : ℕ) → ip_len < 1500 → ipv4_hdr_sum (ipv4_header ip_len (0 ∷ 0 ∷ [])) ≡ 63357 - ip_len
unfolding ipv4_hdr_sum ipv4_header bytes_be sum_words fold
ipv4_hdr_sum-cleared ip_len h = ground arith

closed :
    (ip_len : ℕ)
    → ip_len < 1500
    → word_sum (ipv4_header ip_len (bytes_be (63357 - ip_len))) % (2 ^ 16 - 1) ≡ 0
unfolding ipv4_header bytes_be
closed ip_len h = omega arith

header_of :
    (vlan_id pcp : ℕ) (frame : List ℕ)
    → let ip_len = 20 + (8 + length frame) in
      ip_of (build_tagged_pcp vlan_id frame pcp)
      ≡ ipv4_header ip_len (bytes_be (ipv4_hdr_sum (ipv4_header ip_len (0 ∷ 0 ∷ []))))
unfolding build_tagged_pcp ipv4_header bytes_be
header_of vlan_id pcp frame = refl

module _ (vlan_id pcp : ℕ) (frame : List ℕ) where
  summed :
      length frame < 1472 → word_sum (ip_of (build_tagged_pcp vlan_id frame pcp)) % (2 ^ 16 - 1) ≡ 0
  summed small =
      let ip_len = 20 + (8 + length frame) in
      ap (λ ip. word_sum ip % (2 ^ 16 - 1))
        (header_of vlan_id pcp frame
          ∙ ap (λ s. ipv4_header ip_len (bytes_be s)) (ipv4_hdr_sum-cleared ip_len (omega arith)))
      ∙ closed ip_len (omega arith)

  -- A receiver of a tagged frame reads the VLAN and the priority that it was built with, and the type
  -- of IPv4; the words of its IPv4 header, the checksum among them, add up to 0 modulo 65535, as the
  -- rule for the checksum asks; the lengths of both headers are right, the ports are 4000 and 4001,
  -- and behind the headers is the frame, for a VLAN below 4096, a priority below 8 and a frame of
  -- less than 1472 bytes.
  pub build_tagged_pcp-headers :
      vlan_id < 4096
      → pcp < 8
      → length frame < 1472
      → let full = build_tagged_pcp vlan_id frame pcp in
        (be16 full 0 % 4096 ≡ vlan_id)
        × (be16 full 0 / 8192 ≡ pcp)
        × (be16 full 2 ≡ 0x0800)
        × (word_sum (ip_of full) % (2 ^ 16 - 1) ≡ 0)
        × (be16 full 6 ≡ 28 + length frame)
        × (be16 full 24 ≡ 4000)
        × (be16 full 26 ≡ 4001)
        × (be16 full 28 ≡ 8 + length frame)
        × (drop 32 full ≡ frame)
  unfolding build_tagged_pcp ipv4_header bytes_be
  build_tagged_pcp-headers v p small =
      (omega arith, omega arith, refl, summed small, omega arith, refl, refl, omega arith, refl)
