-- ===== src/Scanf.antt =====
-- What `sscanf` of the C library makes of a text, for the conversions that the formats use.
pub mod Printed
use wireless_tsn_configurato.Base.{
  ℕ, zero, suc, ◌-◌, ◌==◌, Bool, true, false, ◌||◌, Option, none, some, List, [], ◌∷◌,
  if◌then◌else◌, length, drop, min, ◌^◌, ◌+◌, ◌%◌,
}
use wireless_tsn_configurato.Base.Int.{ℤ, pos, negsuc, pos_part, neg_part}
use wireless_tsn_configurato.Base.Text.{CString}
use wireless_tsn_configurato.Common.StrUtil.{starts_with}
use wireless_tsn_configurato.Decimal.Scan.{is_digit, leading_from, skip_spaces, strtoll, low_word}

-- A literal text, `%255[^:]`, `%255s`, `%d` and `%lld`.
pub data Item : Type 0 where
  lit : CString → Item
  field word int long : Item

pub data Got : Type 0 where
  got_text : CString → Got
  got_int : ℤ → Got

-- The text behind the digits at its start.
unfoldable pub after_digits : CString → CString
after_digits [] = []
after_digits (c ∷ s) = let rest = after_digits s in if is_digit c then rest else c ∷ s

abbrev pub starts_with_digit : CString → Bool
starts_with_digit [] = false
starts_with_digit (c ∷ s) = is_digit c

-- The text behind a number, or none where there is none; `s` begins with no space.
unfoldable pub behind_number : CString → Option CString
unfolding after_digits
behind_number [] = none
behind_number (c ∷ s) =
    if c == b'-' || c == b'+'
    then (if starts_with_digit s then some (after_digits s) else none)
    else if is_digit c
    then some (after_digits s)
    else none

-- At most `n` bytes up to one that `stops`: what is read, and what is left.
unfoldable pub span : (ℕ → Bool) → ℕ → CString → CString × CString
span stops zero s = ([], s)
span stops (suc n) [] = ([], [])
span stops (suc n) (c ∷ s) =
    let (w, rest) = span stops n s in if stops c then ([], c ∷ s) else (c ∷ w, rest)

abbrev pub is_colon : ℕ → Bool
is_colon c = c == b':'

abbrev pub is_blank : ℕ → Bool
is_blank c = c == b' ' || (c == 9 || c == 10 || c == 11 || c == 12 || c == 13)

-- A word and what is left, or none where the word is empty.
abbrev pub nonempty : CString × CString → Option (CString × CString)
nonempty ([], rest) = none
nonempty (c ∷ w, rest) = some (c ∷ w, rest)

-- `(int)` of a number of 64 bits.
abbrev pub to_int : ℤ → ℤ
to_int n = low_word ((pos_part n + (2 ^ 32 - neg_part n % 2 ^ 32)) % 2 ^ 32)

-- The conversions that succeed before the first that fails, in order.
unfoldable pub sscanf : List Item → CString → List Got
sscanf [] s = []
sscanf (lit l ∷ items) s =
    let rest = sscanf items (drop (length l) s) in if starts_with s l then rest else []
sscanf (field ∷ items) s = elim (nonempty (span is_colon 255 s)) [
  | none ↦ []
  | some (w, rest) ↦ got_text w ∷ sscanf items rest
]
sscanf (word ∷ items) s = elim (nonempty (span is_blank 255 (skip_spaces s))) [
  | none ↦ []
  | some (w, rest) ↦ got_text w ∷ sscanf items rest
]
sscanf (int ∷ items) s = elim (behind_number (skip_spaces s)) [
  | none ↦ []
  | some rest ↦ got_int (to_int (strtoll s)) ∷ sscanf items rest
]
sscanf (long ∷ items) s = elim (behind_number (skip_spaces s)) [
  | none ↦ []
  | some rest ↦ got_int (strtoll s) ∷ sscanf items rest
]
