-- ===== src/Frame/Accepted.antt =====
-- The tests that a datagram passes, and the bytes that they look at.
use Prim.Native.Nat.{bit_xor}
use wireless_tsn_configurato.Base.{
  ℕ, zero, suc, ◌+◌, ◌*◌, ◌/◌, ◌%◌, ◌^◌, ◌≤◌, ◌<◌, ◌≡◌, ◌∙◌, refl, ap, true, false, some, List, [],
  ◌∷◌, ◌++◌, arith, ltb, ◌==◌, length, get_or, take, drop, All,
}
use wireless_tsn_configurato.Frame.{
  magic, header_len, crc_len, max_payload, crc_bit, crc_bits, crc_from, crc16, bytes16, read16,
  unpack,
}

crc_bit_bound : (crc : ℕ) → crc_bit crc < 2 ^ 16
unfolding crc_bit
crc_bit_bound crc = ground arith

crc_bits_bound : (n crc : ℕ) → crc_bits (suc n) crc < 2 ^ 16
unfolding crc_bits
crc_bits_bound zero crc = crc_bit_bound crc
crc_bits_bound (suc n) crc = crc_bits_bound n (crc_bit crc)

crc_from_bound : (bytes : List ℕ) (crc : ℕ) → crc < 2 ^ 16 → crc_from crc bytes < 2 ^ 16
unfolding crc_from
crc_from_bound [] crc h = h
crc_from_bound (b ∷ bytes) crc h =
    crc_from_bound bytes (crc_bits 8 (bit_xor crc (b * 2 ^ 8))) (crc_bits_bound 7 _)

pub crc16_bound : (bytes : List ℕ) → crc16 bytes < 2 ^ 16
unfolding crc16
crc16_bound bytes = crc_from_bound bytes 0xFFFF (omega arith)

suc_shift : (a i : ℕ) → suc a + i ≡ suc (a + i)
suc_shift a i = omega arith

get_or-append : (xs ys : List ℕ) (i : ℕ) → get_or (xs ++ ys) (length xs + i) 0 ≡ get_or ys i 0
get_or-append [] ys i = ap (λ k. get_or ys k 0) (omega arith)
get_or-append (x ∷ xs) ys i =
    ap (λ k. get_or (x ∷ (xs ++ ys)) k 0) (suc_shift (length xs) i) ∙ get_or-append xs ys i

-- A number of 16 bits is read back from its two bytes, wherever they stand.
pub read16-bytes16 :
    (before after : List ℕ) (n : ℕ)
    → n < 2 ^ 16
    → read16 (before ++ (bytes16 n ++ after)) (length before) ≡ n
unfolding read16 bytes16
read16-bytes16 before after n h =
    let low = get_or-append before (n % 256 ∷ n / 256 % 256 ∷ after) 0 in
    let high = get_or-append before (n % 256 ∷ n / 256 % 256 ∷ after) 1 in
    let start : get_or (before ++ (n % 256 ∷ n / 256 % 256 ∷ after)) (length before) 0 ≡ n % 256 =
      ap (λ k. get_or (before ++ (n % 256 ∷ n / 256 % 256 ∷ after)) k 0) (omega arith) ∙ low in
    rw (start, high) (omega (arith, h))

-- A datagram that passes each of the tests.
pub record Accepted (bytes : List ℕ) (len : ℕ) : Type 0 where
  pub field : read16 bytes 3 ≡ len
  pub first : get_or bytes 0 0 ≡ magic
  pub small : len ≤ max_payload
  pub whole : header_len + len + crc_len ≤ length bytes
  pub checksum : crc16 (take (header_len + len) bytes) ≡ read16 bytes (header_len + len)

pub unpack-Accepted :
    (bytes : List ℕ) (len : ℕ)
    → Accepted bytes len
    → unpack bytes ≡ some (get_or bytes 1 0, get_or bytes 2 0, take len (drop header_len bytes))
unfolding unpack
unpack-Accepted bytes len a =
    let long : ltb (length bytes) (header_len + crc_len) ≡ false = ground (arith, a.whole) in
    let small : ltb max_payload len ≡ false = ground (arith, a.small) in
    let whole : ltb (length bytes) (header_len + len + crc_len) ≡ false = ground (arith, a.whole) in
    let sum : (crc16 (take (header_len + len) bytes) == read16 bytes (header_len + len)) ≡ true =
      ground (arith, a.checksum) in
    rw (a.field, long, a.first) (rw (small, whole) (rw sum))

-- What the tests say of a datagram that is unpacked.
pub accepted :
    (bytes : List ℕ) (type kind : ℕ) (payload : List ℕ)
    → unpack bytes ≡ some (type, kind, payload)
    → Accepted bytes (read16 bytes 3)
      × (type ≡ get_or bytes 1 0)
      × (kind ≡ get_or bytes 2 0)
      × (payload ≡ take (read16 bytes 3) (drop header_len bytes))
unfolding unpack
accepted bytes type kind payload h = (
  record {
    field = refl;
    first = ground arith;
    small = ground arith;
    whole = ground arith;
    checksum = ground arith;
  },
  ground arith,
  ground arith,
  ground arith,
)

pub take_two :
    (n : ℕ) (bytes : List ℕ)
    → suc n < length bytes
    → take (suc (suc n)) bytes ≡ take n bytes ++ (get_or bytes n 0 ∷ get_or bytes (suc n) 0 ∷ [])
take_two zero [] h = absurd (omega arith)
take_two zero (x ∷ []) h = absurd (omega arith)
take_two zero (x ∷ y ∷ bytes) h = refl
take_two (suc n) [] h = absurd (omega arith)
take_two (suc n) (x ∷ bytes) h = ap (◌∷◌ x) (take_two n bytes (omega arith))

pub byte_at : (bytes : List ℕ) (i : ℕ) → All (λ b. b < 256) bytes → get_or bytes i 0 < 256
byte_at [] i h = omega arith
byte_at (x ∷ bytes) zero h = h.0
byte_at (x ∷ bytes) (suc i) h = byte_at bytes i h.1

pub bytes16_parts : (l h : ℕ) → l < 256 → h < 256 → bytes16 (l + h * 2 ^ 8) ≡ l ∷ h ∷ []
unfolding bytes16
bytes16_parts l h ls hs =
    let low : (l + h * 2 ^ 8) % 256 ≡ l = omega arith in
    let high : (l + h * 2 ^ 8) / 256 % 256 ≡ h = omega arith in rw (low, high)
