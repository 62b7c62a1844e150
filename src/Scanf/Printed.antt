-- ===== src/Scanf/Printed.antt =====
-- What `sscanf` reads is what `printf` wrote.
use mathlib.Core.Path.{subst}
use wireless_tsn_configurato.Base.{
  ℕ, zero, suc, ◌+◌, ◌-◌, ◌*◌, ◌/◌, ◌^◌, ◌%◌, ◌≤◌, ◌<◌, ◌≡◌, ◌≢◌, ◌∙◌, refl, sym, ap, true, false,
  ◌&&◌, ◌||◌, ◌==◌, some, List, [], ◌∷◌, ◌++◌, arith, ltb, leb, length, min, All, Bool-cases, inl,
  inr, drop-length_append,
}
use wireless_tsn_configurato.Base.Int.{ℤ, pos, negsuc, pos_part, neg_part}
use wireless_tsn_configurato.Base.Text.{CString}
use wireless_tsn_configurato.Mvc.Model.Topic.{starts_with-append}
use wireless_tsn_configurato.Decimal.{show_ℕ, show_ℤ, digits_onto}
use wireless_tsn_configurato.Decimal.Read.{read_from, read-show_ℕ, show_ℕ-IsDigit, IsDigit}
use wireless_tsn_configurato.Decimal.Scan.{
  negated, is_digit, leading_from, skip_spaces, signed_number, strtoll,
}
use wireless_tsn_configurato.Scanf.{
  Item, lit, field, int, got_text, got_int, after_digits, starts_with_digit, behind_number, span,
  is_colon, to_int, sscanf,
}

-- The numbers of 32 bits.
abbrev pub IsInt32 : ℤ → Type 0
IsInt32 n = (pos_part n < 2 ^ 31) × (neg_part n ≤ 2 ^ 31)

leading_end : (k : ℕ) (s : CString) → starts_with_digit s ≡ false → leading_from k s ≡ k
unfolding leading_from
leading_end k [] e = refl
leading_end k (c ∷ s) e = rw e refl

no_digits : (s : CString) → starts_with_digit s ≡ false → after_digits s ≡ s
unfolding after_digits
no_digits [] e = refl
no_digits (c ∷ s) e = rw e refl

module _ (rest : CString) (ends : starts_with_digit rest ≡ false) where
  leading-digits :
      (k : ℕ) (ds : CString) → All IsDigit ds → leading_from k (ds ++ rest) ≡ read_from k ds
  unfolding leading_from read_from
  leading-digits k [] h = leading_end k rest ends
  leading-digits k (d ∷ ds) h =
      let digit : is_digit d ≡ true = ground arith in
      rw digit (leading-digits (k * 10 + (d - b'0')) ds h.1)

  after-digits : (ds : CString) → All IsDigit ds → after_digits (ds ++ rest) ≡ rest
  unfolding after_digits
  after-digits [] h = no_digits rest ends
  after-digits (d ∷ ds) h =
      let digit : is_digit d ≡ true = ground arith in rw digit (after-digits ds h.1)

module _ (d : ℕ) (s : CString) (h : IsDigit d) where
  skip-digit : skip_spaces (d ∷ s) ≡ d ∷ s
  unfolding skip_spaces
  skip-digit =
      let space : (d == b' ' || (leb 9 d && leb d 13)) ≡ false = ground arith in rw space refl

  signed-digit : signed_number (d ∷ s) ≡ pos (min (leading_from 0 (d ∷ s)) (2 ^ 63 - 1))
  unfolding signed_number
  signed-digit =
      let minus : (d == b'-') ≡ false = ground arith in
      let plus : (d == b'+') ≡ false = ground arith in rw (minus, plus) refl

  behind-digit : behind_number (d ∷ s) ≡ some (after_digits s)
  unfolding behind_number
  behind-digit =
      let sign : (d == b'-' || d == b'+') ≡ false = ground arith in
      let digit : is_digit d ≡ true = ground arith in rw (sign, digit) refl

-- Printed digits: there is at least one.
digits_onto-cons :
    (fuel n c : ℕ) (acc : CString)
    → (d : ℕ) × (ds : CString) × (digits_onto fuel n (c ∷ acc) ≡ d ∷ ds)
unfolding digits_onto
digits_onto-cons zero n c acc = (c, acc, refl)
digits_onto-cons (suc fuel) n c acc = elim (Bool-cases (ltb n 10)) [
  | inl p ↦ rw p (n + b'0', c ∷ acc, refl)
  | inr p ↦ rw p (digits_onto-cons fuel (n / 10) (n % 10 + b'0') (c ∷ acc))
]

show_ℕ-cons : (n : ℕ) → (d : ℕ) × (ds : CString) × (show_ℕ n ≡ d ∷ ds)
unfolding show_ℕ digits_onto
show_ℕ-cons n = elim (Bool-cases (ltb n 10)) [
  | inl p ↦ rw p (n + b'0', [], refl)
  | inr p ↦ rw p (digits_onto-cons n (n / 10) (n % 10 + b'0') [])
]

negated-suc : (n : ℕ) → negated (suc n) ≡ negsuc n
negated-suc n = ground arith

-- A printed number as it is read back, with what is left behind it.
abbrev ReadsAs : ℤ → CString → CString → Type 0
ReadsAs n rest s = (strtoll s ≡ n) × (behind_number (skip_spaces s) ≡ some rest)

module _ (rest : CString) (ends : starts_with_digit rest ≡ false) where
  digits-ReadsAs :
      (n d : ℕ) (ds : CString)
      → All IsDigit (d ∷ ds)
      → read_from 0 (d ∷ ds) ≡ n
      → n < 2 ^ 63
      → ReadsAs (pos n) rest ((d ∷ ds) ++ rest)
  unfolding strtoll
  digits-ReadsAs n d ds h e small = (
    ap signed_number (skip-digit d (ds ++ rest) h.0)
        ∙ (signed-digit d (ds ++ rest) h.0
            ∙ ap pos (omega (arith, leading-digits rest ends 0 (d ∷ ds) h))),
    ap behind_number (skip-digit d (ds ++ rest) h.0)
        ∙ (behind-digit d (ds ++ rest) h.0 ∙ ap some (after-digits rest ends ds h.1)),
  )

  minus-ReadsAs :
      (n d : ℕ) (ds : CString)
      → All IsDigit (d ∷ ds)
      → read_from 0 (d ∷ ds) ≡ suc n
      → suc n ≤ 2 ^ 63
      → ReadsAs (negsuc n) rest (b'-' ∷ ((d ∷ ds) ++ rest))
  unfolding strtoll skip_spaces signed_number behind_number
  minus-ReadsAs n d ds h e small =
      let digit : is_digit d ≡ true = ground arith in
      let value : min (leading_from 0 ((d ∷ ds) ++ rest)) (2 ^ 63) ≡ suc n =
        omega (arith, leading-digits rest ends 0 (d ∷ ds) h) in
      (ap negated value ∙ negated-suc n, rw digit (ap some (after-digits rest ends ds h.1)))

  pub show_ℤ-ReadsAs : (n : ℤ) → IsInt32 n → ReadsAs n rest (show_ℤ n ++ rest)
  unfolding show_ℤ
  show_ℤ-ReadsAs (pos n) h =
      let (d, ds, e) = show_ℕ-cons n in
      rw e (
        digits-ReadsAs n d ds (subst (All IsDigit) e (show_ℕ-IsDigit n))
          (sym (ap (read_from 0) e) ∙ read-show_ℕ n) (omega arith))
  show_ℤ-ReadsAs (negsuc n) h =
      let (d, ds, e) = show_ℕ-cons (suc n) in
      rw e (
        minus-ReadsAs n d ds (subst (All IsDigit) e (show_ℕ-IsDigit (suc n)))
          (sym (ap (read_from 0) e) ∙ read-show_ℕ (suc n)) (omega arith))

to_int_lem : (n : ℤ) → IsInt32 n → to_int n ≡ n
to_int_lem (pos n) h = ground arith
to_int_lem (negsuc n) h = ground arith

-- The items of a format at what was printed for them.
module _ (items : List Item) (rest : CString) where
  pub sscanf-lit : (l : CString) → sscanf (lit l ∷ items) (l ++ rest) ≡ sscanf items rest
  unfolding sscanf
  sscanf-lit l = rw (starts_with-append l rest) (ap (sscanf items) (drop-length_append l rest))

  int_step :
      (s : CString) (v : ℤ)
      → ReadsAs v rest s
      → sscanf (int ∷ items) s ≡ got_int (to_int v) ∷ sscanf items rest
  unfolding sscanf
  int_step s v r = rw (r.1, sscanf) (rw r.0 refl)

  pub sscanf-int :
      (n : ℤ)
      → IsInt32 n
      → starts_with_digit rest ≡ false
      → sscanf (int ∷ items) (show_ℤ n ++ rest) ≡ got_int n ∷ sscanf items rest
  sscanf-int n h ends =
      int_step (show_ℤ n ++ rest) n (show_ℤ-ReadsAs rest ends n h)
      ∙ ap (λ k. got_int k ∷ sscanf items rest) (to_int_lem n h)

  span-colon :
      (k : ℕ) (w : CString)
      → All (λ c. c ≢ b':') w
      → length w ≤ k
      → span is_colon k (w ++ (b':' ∷ rest)) ≡ (w, b':' ∷ rest)
  unfolding span
  span-colon zero [] h p = refl
  span-colon (suc k) [] h p = refl
  span-colon zero (c ∷ w) h p = absurd (omega arith)
  span-colon (suc k) (c ∷ w) h p =
      let stays : (c == b':') ≡ false = ground arith in
      rw (span-colon k w h.1 (omega arith)) (rw stays refl)

  -- A text of at most 255 bytes, none a colon, in front of a colon.
  pub sscanf-field :
      (c : ℕ) (w : CString)
      → All (λ d. d ≢ b':') (c ∷ w)
      → length (c ∷ w) ≤ 255
      → sscanf (field ∷ items) ((c ∷ w) ++ (b':' ∷ rest))
        ≡ got_text (c ∷ w) ∷ sscanf items (b':' ∷ rest)
  unfolding sscanf
  sscanf-field c w h p = rw (span-colon 255 (c ∷ w) h p, sscanf) refl
