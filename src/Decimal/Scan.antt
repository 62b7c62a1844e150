-- ===== src/Decimal/Scan.antt =====
-- `strtoll(s, NULL, 10)` and `atoi(s)` of the C library.
use wireless_tsn_configurato.Base.{
  ℕ, ◌+◌, ◌-◌, ◌*◌, ◌%◌, ◌^◌, Bool, ◌&&◌, ◌||◌, [], ◌∷◌, ltb, leb, ◌==◌, if◌then◌else◌, min,
}
use wireless_tsn_configurato.Base.Int.{ℤ, pos, negsuc, pos_part, neg_part}
use wireless_tsn_configurato.Base.Text.{CString}

abbrev pub is_digit : ℕ → Bool
is_digit c = leb b'0' c && leb c b'9'

-- The leading digits, behind what was read before.
unfoldable pub leading_from : ℕ → CString → ℕ
leading_from n [] = n
leading_from n (c ∷ s) =
    let rest = leading_from (n * 10 + (c - b'0')) s in if is_digit c then rest else n

-- What `isspace` skips, then a sign.
unfoldable pub skip_spaces : CString → CString
skip_spaces [] = []
skip_spaces (c ∷ s) =
    let rest = skip_spaces s in if c == b' ' || (leb 9 c && leb c 13) then rest else c ∷ s

abbrev pub negated : ℕ → ℤ
negated n = if n == 0 then pos 0 else negsuc (n - 1)

-- Out of range the result is the nearest number of 64 bits.
unfoldable pub signed_number : CString → ℤ
unfolding leading_from
signed_number [] = pos 0
signed_number (c ∷ s) =
    if c == b'-'
    then negated (min (leading_from 0 s) (2 ^ 63))
    else if c == b'+'
    then pos (min (leading_from 0 s) (2 ^ 63 - 1))
    else pos (min (leading_from 0 (c ∷ s)) (2 ^ 63 - 1))

unfoldable pub strtoll : CString → ℤ
unfolding skip_spaces signed_number
strtoll s = signed_number (skip_spaces s)

-- The number of 32 bits that is congruent to the integer.
abbrev pub low_word : ℕ → ℤ
low_word n = if ltb n (2 ^ 31) then pos n else negsuc (2 ^ 32 - 1 - n)

-- `atoi` is `(int)strtol(s, NULL, 10)`, and `long` has 64 bits.
unfoldable pub atoi : CString → ℤ
unfolding strtoll
atoi s = let n = strtoll s in low_word ((pos_part n + (2 ^ 32 - neg_part n % 2 ^ 32)) % 2 ^ 32)
