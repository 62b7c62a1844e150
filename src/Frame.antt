-- ===== src/Frame.antt =====
-- rpi-tsn/htsn_frame.h: the frames between the CNC and an endpoint. The header of the endpoint,
-- stm32-tsn/tsn/htsn_frame.h, is its twin. A byte is a number below 256, a datagram the list of its
-- bytes; the payload that a caller hands over is never NULL.
pub mod Accepted
pub mod Wire
use Prim.Native.Nat.{bit_and, bit_xor}
use wireless_tsn_configurato.Base.{
  ℕ, zero, suc, ◌+◌, ◌*◌, ◌/◌, ◌%◌, ◌^◌, Bool, Option, none, some, List, [], ◌∷◌, ◌++◌, ltb, not,
  ◌==◌, if◌then◌else◌, length, get_or, take, drop,
}

-- `HTSN_FRAME_MAGIC`
abbrev pub magic : ℕ
magic = 0xA5

-- `HTSN_FRAME_HDR`
abbrev pub header_len : ℕ
header_len = 5

-- `HTSN_FRAME_CRC`
abbrev pub crc_len : ℕ
crc_len = 2

-- `HTSN_FRAME_MAXPLEN`
abbrev pub max_payload : ℕ
max_payload = 384

-- One turn of the inner loop of `htsn_crc16`, with the casts to `uint16_t`.
unfoldable pub crc_bit : ℕ → ℕ
crc_bit crc =
    if bit_and crc 0x8000 == 0 then crc * 2 % 2 ^ 16 else bit_xor (crc * 2) 0x1021 % 2 ^ 16

-- The inner loop.
unfoldable pub crc_bits : ℕ → ℕ → ℕ
crc_bits zero crc = crc
crc_bits (suc n) crc = crc_bits n (crc_bit crc)

-- The outer loop, from a first value.
unfoldable pub crc_from : ℕ → List ℕ → ℕ
crc_from crc [] = crc
crc_from crc (b ∷ bytes) = crc_from (crc_bits 8 (bit_xor crc (b * 2 ^ 8))) bytes

-- `htsn_crc16`
unfoldable pub crc16 : List ℕ → ℕ
crc16 bytes = crc_from 0xFFFF bytes

-- A number of 16 bits, its low byte first.
unfoldable pub bytes16 : ℕ → List ℕ
bytes16 n = n % 256 ∷ n / 256 % 256 ∷ []

-- `(uint16_t)in[i] | ((uint16_t)in[i + 1] << 8)`: the two bytes have no bit in common.
unfoldable pub read16 : List ℕ → ℕ → ℕ
read16 bytes i = get_or bytes i 0 + get_or bytes (i + 1) 0 * 2 ^ 8

-- `htsn_frame_pack`: the datagram, or none where it returns -1.
unfoldable pub pack : ℕ → ℕ → List ℕ → Option (List ℕ)
pack type kind payload =
    let start = magic ∷ type ∷ kind ∷ (bytes16 (length payload) ++ payload) in
    if ltb max_payload (length payload) then none else some (start ++ bytes16 (crc16 start))

-- `htsn_frame_unpack`: type, kind and payload, or none where it returns -1.
unfoldable pub unpack : List ℕ → Option (ℕ × ℕ × List ℕ)
unpack bytes =
    let len = read16 bytes 3 in
    if ltb (length bytes) (header_len + crc_len)
    then none
    else if not (get_or bytes 0 0 == magic)
    then none
    else if ltb max_payload len
    then none
    else if ltb (length bytes) (header_len + len + crc_len)
    then none
    else if not (crc16 (take (header_len + len) bytes) == read16 bytes (header_len + len))
    then none
    else some (get_or bytes 1 0, get_or bytes 2 0, take len (drop header_len bytes))
