-- ===== src/Common/StrUtil.antt =====
-- src/common/str_util.c. A pointer that may be NULL is an option; a string is its bytes.
pub mod Copy
pub mod Trim
pub mod Utf8
use Prim.Native.Nat.{bit_and}
use wireless_tsn_configurato.Base.{
  ℕ, zero, suc, ◌+◌, ◌-◌, Bool, true, false, ◌&&◌, ◌||◌, not, Option, none, some, List, [], ◌∷◌,
  ltb, leb, ◌==◌, if◌then◌else◌, take, length,
}
use wireless_tsn_configurato.Base.Text.{CString}

-- `htsn_strlcpy(dst, src, size)` at `size > 0`: what `dst` holds afterwards, and the result.
unfoldable pub strlcpy : ℕ → Option CString → CString × ℕ
strlcpy size none = ([], 0)
strlcpy size (some src) =
    if leb size (length src) then (take (size - 1) src, length src) else (src, length src)

-- What a buffer of `size` bytes holds after the copy.
abbrev pub copied : ℕ → CString → CString
copied size src = (strlcpy size (some src)).0

-- The bytes that are dropped at the end, and those dropped at the start.
unfoldable pub is_space : ℕ → Bool
is_space c = c == b' ' || c == 9 || c == 10 || c == 13

unfoldable pub is_blank : ℕ → Bool
is_blank c = c == b' ' || c == 9

-- The loop from the end: a byte stays if it is no space or if one that stays follows it.
unfoldable pub trim_end : CString → CString
unfolding is_space
trim_end [] = []
trim_end (c ∷ s) =
    let rest = trim_end s in
    elim rest [ [] ↦ if is_space c then [] else c ∷ [] | d ∷ t ↦ c ∷ d ∷ t ]

unfoldable pub trim_start : CString → CString
unfolding is_blank
trim_start [] = []
trim_start (c ∷ s) = let rest = trim_start s in if is_blank c then rest else c ∷ s

-- `htsn_str_trim`.
unfoldable pub str_trim : CString → CString
unfolding trim_end trim_start
str_trim s = trim_start (trim_end s)

-- `strncmp(s, prefix, strlen(prefix)) == 0`.
unfoldable pub starts_with : CString → CString → Bool
starts_with s [] = true
starts_with [] (d ∷ p) = false
starts_with (c ∷ s) (d ∷ p) = c == d && starts_with s p

-- `htsn_str_starts_with`.
unfoldable pub str_starts_with : Option CString → Option CString → Bool
unfolding starts_with
str_starts_with none p = false
str_starts_with (some s) none = false
str_starts_with (some s) (some p) = starts_with s p

-- `htsn_str_dup`: `heap` says whether `malloc` gives that many bytes.
unfoldable pub str_dup : (ℕ → Bool) → Option CString → Option CString
str_dup heap none = none
str_dup heap (some s) = if heap (length s + 1) then some s else none

-- The tests on a byte of `htsn_str_valid_utf8`.
unfoldable pub is_continuation : ℕ → Bool
is_continuation c = bit_and c 0xC0 == 0x80

unfoldable pub is_lead : ℕ → ℕ → ℕ → Bool
is_lead mask value c = bit_and c mask == value

-- The loop of `htsn_str_valid_utf8`, `n` continuation bytes still to be checked in the branch that
-- was taken. At the end of the text `*p` is NUL, which is no continuation byte.
unfoldable pub scan_utf8 : ℕ → CString → Bool
scan_utf8 zero [] = true
scan_utf8 (suc n) [] = false
scan_utf8 zero (c ∷ s) =
    let ascii = scan_utf8 0 s in
    let two = scan_utf8 1 s in
    let three = scan_utf8 2 s in
    let four = scan_utf8 3 s in
    if ltb c 0x80
    then ascii
    else if is_lead 0xE0 0xC0 c
    then two
    else if is_lead 0xF0 0xE0 c
    then three
    else if is_lead 0xF8 0xF0 c
    then four
    else false
scan_utf8 (suc n) (c ∷ s) = let rest = scan_utf8 n s in if is_continuation c then rest else false

-- `htsn_str_valid_utf8`.
unfoldable pub str_valid_utf8 : Option CString → Bool
unfolding scan_utf8
str_valid_utf8 none = false
str_valid_utf8 (some s) = scan_utf8 0 s
