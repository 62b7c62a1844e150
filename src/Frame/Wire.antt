-- ===== src/Frame/Wire.antt =====
-- Packing and unpacking are inverse to each other.
use mathlib.Core.List.{append_assoc}
use wireless_tsn_configurato.Base.{
  ℕ, suc, ◌+◌, ◌*◌, ◌/◌, ◌%◌, ◌^◌, ◌≤◌, ◌<◌, ◌≡◌, ◌∙◌, ◌⊎◌, refl, ap, false, none, some, List, [],
  ◌∷◌, ◌++◌, arith, ltb, length, get_or, take, length-append, length-take, take-length_append, sym,
  All, Bool-cases, inl, inr,
}
use wireless_tsn_configurato.Frame.{
  magic, header_len, crc_len, max_payload, crc16, bytes16, read16, pack, unpack,
}
use wireless_tsn_configurato.Frame.Accepted.{
  Accepted, crc16_bound, read16-bytes16, unpack-Accepted, accepted, take_two, byte_at,
  bytes16_parts,
}

module _ (type kind l h : ℕ) (payload rest : List ℕ) where
  start : List ℕ
  start = magic ∷ type ∷ kind ∷ l ∷ h ∷ payload

  frame-Accepted :
      l + h * 2 ^ 8 ≡ length payload
      → length payload ≤ max_payload
      → Accepted (start ++ (bytes16 (crc16 start) ++ rest)) (length payload)
  unfolding read16 bytes16 start
  frame-Accepted field small =
      let tail = bytes16 (crc16 start) ++ rest in
      let size : header_len + length payload ≡ length start = omega arith in
      record {
        field = field;
        first = refl;
        small = small;
        whole = omega (arith, length-append payload tail);
        checksum =
            ap (λ n. crc16 (take n (start ++ tail))) size
            ∙ ap crc16 (take-length_append start tail)
            ∙ sym (read16-bytes16 start rest (crc16 start) (crc16_bound start))
            ∙ ap (read16 (start ++ tail)) (sym size);
      }

  unpack_frame :
      l + h * 2 ^ 8 ≡ length payload
      → length payload ≤ max_payload
      → unpack (start ++ (bytes16 (crc16 start) ++ rest)) ≡ some (type, kind, payload)
  unfolding start
  unpack_frame field small =
      unpack-Accepted (start ++ (bytes16 (crc16 start) ++ rest)) (length payload)
        (frame-Accepted field small)
      ∙ ap (λ p. some (type, kind, p)) (take-length_append payload (bytes16 (crc16 start) ++ rest))

-- The datagram of a payload that is not too long.
abbrev frame : ℕ → ℕ → List ℕ → List ℕ
frame type kind payload =
    let head = magic ∷ type ∷ kind ∷ (bytes16 (length payload) ++ payload) in
    head ++ bytes16 (crc16 head)

-- A payload of at most 384 bytes is unpacked from its frame with its type and kind, whatever follows
-- the frame in the datagram; a longer one is refused.
pub unpack-pack :
    (type kind : ℕ) (payload : List ℕ)
    → ((length payload ≤ max_payload)
        × ((frame : List ℕ) × (pack type kind payload ≡ some frame)
            × (length frame ≡ header_len + length payload + crc_len)
            × ((rest : List ℕ) → unpack (frame ++ rest) ≡ some (type, kind, payload))))
      ⊎ ((max_payload < length payload) × (pack type kind payload ≡ none))
unfolding pack bytes16 start
unpack-pack type kind payload = elim (Bool-cases (ltb max_payload (length payload))) [
  | inl long ↦ inr (ground arith, rw long)
  | inr fits ↦
      let small : length payload ≤ max_payload = ground arith in
      let head = magic ∷ type ∷ kind ∷ (bytes16 (length payload) ++ payload) in
      inl (
        small,
        (
          frame type kind payload,
          rw fits,
          omega (arith, length-append payload (bytes16 (crc16 head))),
          λ rest.
              ap unpack (append_assoc head (bytes16 (crc16 head)) rest)
              ∙ unpack_frame type kind (length payload % 256) (length payload / 256 % 256) payload
                  rest (omega arith) small,
        ),
      )
]

module _ (type kind l h : ℕ) (rest : List ℕ) where
  abbrev datagram : List ℕ
  datagram = magic ∷ type ∷ kind ∷ l ∷ h ∷ rest

  pack_again :
      l < 256
      → h < 256
      → All (λ b. b < 256) rest
      → Accepted datagram (l + h * 2 ^ 8)
      → pack type kind (take (l + h * 2 ^ 8) rest)
        ≡ some (take (header_len + (l + h * 2 ^ 8) + crc_len) datagram)
  unfolding pack read16
  pack_again ls hs bytes a =
      let len = l + h * 2 ^ 8 in
      let payload = take len rest in
      let size : length payload ≡ len = omega (arith, length-take len rest, a.whole) in
      let fits : ltb max_payload (length payload) ≡ false = ground (arith, a.small) in
      let head : bytes16 (length payload) ≡ l ∷ h ∷ [] =
        ap bytes16 size ∙ bytes16_parts l h ls hs in
      let shifted : header_len + len ≡ suc (suc (suc (suc (suc len)))) = omega arith in
      let whole : header_len + len + crc_len ≡ suc (suc (suc (suc (suc (suc (suc len)))))) =
        omega arith in
      let next : header_len + len + 1 ≡ suc (suc (suc (suc (suc (suc len))))) = omega arith in
      let sum : crc16 (magic ∷ type ∷ kind ∷ l ∷ h ∷ payload)
          ≡ get_or rest len 0 + get_or rest (suc len) 0 * 2 ^ 8 =
        ap (λ n. crc16 (take n datagram)) (sym shifted)
        ∙ a.checksum
        ∙ ap (λ n. get_or datagram n 0 + get_or datagram (header_len + len + 1) 0 * 2 ^ 8) shifted
        ∙ ap (λ n. get_or rest len 0 + get_or datagram n 0 * 2 ^ 8) next in
      let crc = bytes16_parts _ _ (byte_at rest len bytes) (byte_at rest (suc len) bytes) in
      rw fits (
        rw head (
          rw (sum, whole, crc)
            (ap (λ t. some (magic ∷ type ∷ kind ∷ l ∷ h ∷ t))
              (sym (take_two len rest (omega (arith, a.whole)))))))

-- A datagram of bytes that is unpacked begins with the very frame that packing its type, kind and
-- payload makes; the payload is not too long.
pub pack-unpack :
    (bytes : List ℕ) (type kind : ℕ) (payload : List ℕ)
    → All (λ b. b < 256) bytes
    → unpack bytes ≡ some (type, kind, payload)
    → (length payload ≤ max_payload)
      × (pack type kind payload ≡ some (take (header_len + length payload + crc_len) bytes))
unfolding unpack read16
pack-unpack [] type kind payload b h = cc
pack-unpack (v ∷ []) type kind payload b h = cc
pack-unpack (v ∷ w ∷ []) type kind payload b h = cc
pack-unpack (v ∷ w ∷ x ∷ []) type kind payload b h = cc
pack-unpack (v ∷ w ∷ x ∷ y ∷ []) type kind payload b h = cc
pack-unpack (v ∷ w ∷ x ∷ y ∷ z ∷ rest) type kind payload b h =
    let (a, types, kinds, payloads) = accepted (v ∷ w ∷ x ∷ y ∷ z ∷ rest) type kind payload h in
    let len = y + z * 2 ^ 8 in
    let magical : Accepted (magic ∷ w ∷ x ∷ y ∷ z ∷ rest) len = rw (← a.first) a in
    let size : length (take len rest) ≡ len = omega (arith, length-take len rest, a.whole) in
    let (by, (bz, more)) = b.1.1.1 in
    (
      omega (arith, a.small, size, ap length payloads),
      rw (types, kinds, payloads, a.first) (rw size (pack_again w x y z rest by bz more magical)),
    )
