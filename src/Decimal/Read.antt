-- ===== src/Decimal/Read.antt =====
-- Decimal text read back.
use wireless_tsn_configurato.Base.{
  ℕ, zero, suc, ◌+◌, ◌-◌, ◌*◌, ◌/◌, ◌%◌, ◌^◌, ◌≤◌, ◌<◌, ◌≡◌, sym, ◌∙◌, ap, [], ◌∷◌, arith, true,
  ltb, length, All, Bool-cases, inl, inr,
}
use native.Mathlib.Nat.{pow-suc}
use wireless_tsn_configurato.Base.Text.{CString}
use wireless_tsn_configurato.Decimal.{digits_onto, show_ℕ}

-- The number that a row of digits stands for, behind what was read before.
unfoldable pub read_from : ℕ → CString → ℕ
read_from n [] = n
read_from n (c ∷ s) = read_from (n * 10 + (c - b'0')) s

read-digits_onto :
    (fuel n : ℕ) (acc : CString) → n < fuel → read_from 0 (digits_onto fuel n acc) ≡ read_from n acc
unfolding digits_onto read_from
read-digits_onto zero n acc h = absurd (omega arith)
read-digits_onto (suc fuel) n acc h = elim (Bool-cases (ltb n 10)) [
  | inl p ↦ rw p (ap (λ k. read_from k acc) (omega arith))
  | inr p ↦ rw p (
      read-digits_onto fuel (n / 10) ((n % 10 + b'0') ∷ acc) (ground arith)
      ∙ ap (λ k. read_from k acc) (omega arith))
]

-- Printing loses nothing.
pub read-show_ℕ : (n : ℕ) → read_from 0 (show_ℕ n) ≡ n
unfolding show_ℕ read_from
read-show_ℕ n = read-digits_onto (suc n) n [] (omega arith)

pub show_ℕ-injective : (m n : ℕ) → show_ℕ m ≡ show_ℕ n → m ≡ n
show_ℕ-injective m n h = sym (read-show_ℕ m) ∙ ap (read_from 0) h ∙ read-show_ℕ n

abbrev pub IsDigit : ℕ → Type 0
IsDigit c = (b'0' ≤ c) × (c ≤ b'9')

digits_onto-IsDigit :
    (fuel n : ℕ) (acc : CString) → All IsDigit acc → All IsDigit (digits_onto fuel n acc)
unfolding digits_onto
digits_onto-IsDigit zero n acc h = h
digits_onto-IsDigit (suc fuel) n acc h = elim (Bool-cases (ltb n 10)) [
  | inl p ↦ rw p ((omega arith, ground arith), h)
  | inr p ↦
      rw p
        (digits_onto-IsDigit fuel (n / 10) ((n % 10 + b'0') ∷ acc) ((omega arith, omega arith), h))
]

pub show_ℕ-IsDigit : (n : ℕ) → All IsDigit (show_ℕ n)
unfolding show_ℕ
show_ℕ-IsDigit n = digits_onto-IsDigit (suc n) n [] tt

length-digits_onto :
    (k fuel n : ℕ) (acc : CString)
    → n < 10 ^ k
    → 0 < k
    → length (digits_onto fuel n acc) ≤ k + length acc
unfolding digits_onto
length-digits_onto k zero n acc h p = omega arith
length-digits_onto zero (suc fuel) n acc h p = absurd (omega arith)
length-digits_onto (suc zero) (suc fuel) n acc h p =
    let one : ltb n 10 ≡ true = ground arith in rw one (omega arith)
length-digits_onto (suc (suc k)) (suc fuel) n acc h p = elim (Bool-cases (ltb n 10)) [
  | inl q ↦ rw q (omega arith)
  | inr q ↦ rw q (
      omega (
        arith,
        length-digits_onto (suc k) fuel (n / 10) ((n % 10 + b'0') ∷ acc)
            (omega (arith, pow-suc 10 (suc k))) (omega arith),
      ))
]

-- A number below 10 to the power k prints as at most k characters.
pub length-show_ℕ : (k n : ℕ) → n < 10 ^ k → 0 < k → length (show_ℕ n) ≤ k
unfolding show_ℕ
length-show_ℕ k n h p = omega (arith, length-digits_onto k (suc n) n [] h p)
