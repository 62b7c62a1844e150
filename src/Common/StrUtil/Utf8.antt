-- ===== src/Common/StrUtil/Utf8.antt =====
-- What `htsn_str_valid_utf8` accepts.
use wireless_tsn_configurato.Base.{
  ℕ, zero, suc, ◌≤◌, ◌<◌, ◌≡◌, ◌↔◌, refl, Bool, true, ◌&&◌, [], ◌∷◌, some, arith, ltb, leb, All,
  Bool-cases, inl, inr,
}
use wireless_tsn_configurato.Base.Text.{CString}
use wireless_tsn_configurato.Base.Bytes.{passes_under, passes_under_at, agree, agree_sound}
use wireless_tsn_configurato.Common.StrUtil.{is_continuation, is_lead, scan_utf8, str_valid_utf8}

-- A text that begins with `n` continuation bytes and goes on as whole sequences: a lead byte of
-- one to four bytes, each followed by its continuation bytes.
pub data Sequences : ℕ → CString → Type 0 where
  finished : Sequences zero []
  ascii : {c : ℕ} {s : CString} → c < 128 → Sequences zero s → Sequences zero (c ∷ s)
  two : {c : ℕ} {s : CString} → 192 ≤ c → c < 224 → Sequences (suc zero) s → Sequences zero (c ∷ s)
  three :
      {c : ℕ} {s : CString}
      → 224 ≤ c
      → c < 240
      → Sequences (suc (suc zero)) s
      → Sequences zero (c ∷ s)
  four :
      {c : ℕ} {s : CString}
      → 240 ≤ c
      → c < 248
      → Sequences (suc (suc (suc zero))) s
      → Sequences zero (c ∷ s)
  continuation :
      {n c : ℕ} {s : CString} → 128 ≤ c → c < 192 → Sequences n s → Sequences (suc n) (c ∷ s)

abbrev within : ℕ → ℕ → ℕ → Bool
within lo hi c = leb lo c && ltb c hi

continuation_table : passes_under (λ c. agree (is_continuation c) (within 128 192 c)) 256 ≡ true
unfolding passes_under is_continuation
continuation_table = refl

two_table : passes_under (λ c. agree (is_lead 0xE0 0xC0 c) (within 192 224 c)) 256 ≡ true
unfolding passes_under is_lead
two_table = refl

three_table : passes_under (λ c. agree (is_lead 0xF0 0xE0 c) (within 224 240 c)) 256 ≡ true
unfolding passes_under is_lead
three_table = refl

four_table : passes_under (λ c. agree (is_lead 0xF8 0xF0 c) (within 240 248 c)) 256 ≡ true
unfolding passes_under is_lead
four_table = refl

is_continuation-within : (c : ℕ) → c < 256 → is_continuation c ≡ within 128 192 c
is_continuation-within c h = agree_sound _ _ (passes_under_at _ 256 continuation_table c h)

is_lead_two : (c : ℕ) → c < 256 → is_lead 0xE0 0xC0 c ≡ within 192 224 c
is_lead_two c h = agree_sound _ _ (passes_under_at _ 256 two_table c h)

is_lead_three : (c : ℕ) → c < 256 → is_lead 0xF0 0xE0 c ≡ within 224 240 c
is_lead_three c h = agree_sound _ _ (passes_under_at _ 256 three_table c h)

is_lead_four : (c : ℕ) → c < 256 → is_lead 0xF8 0xF0 c ≡ within 240 248 c
is_lead_four c h = agree_sound _ _ (passes_under_at _ 256 four_table c h)

abbrev pub AreBytes : CString → Type 0
AreBytes = All (λ c. c < 256)

scan_sound : (n : ℕ) (s : CString) → AreBytes s → scan_utf8 n s ≡ true → Sequences n s
unfolding scan_utf8
scan_sound zero [] b h = finished
scan_sound (suc n) [] b h = cc
scan_sound zero (c ∷ s) b h = elim (Bool-cases (ltb c 128)) [
  | inl p ↦ ascii (ground arith) (scan_sound zero s b.1 (ground arith))
  | inr p ↦ elim (Bool-cases (within 192 224 c)) [
    | inl q ↦
        two (ground arith) (ground arith) (scan_sound 1 s b.1 (ground (arith, is_lead_two c b.0)))
    | inr q ↦ elim (Bool-cases (within 224 240 c)) [
      | inl r ↦
          three (ground arith) (ground arith)
            (scan_sound 2 s b.1 (ground (arith, is_lead_two c b.0, is_lead_three c b.0)))
      | inr r ↦ elim (Bool-cases (within 240 248 c)) [
        | inl t ↦ four (ground arith) (ground arith) (
            scan_sound 3 s b.1
              (ground (arith, is_lead_two c b.0, is_lead_three c b.0, is_lead_four c b.0)))
        | inr t ↦
            absurd (ground (arith, is_lead_two c b.0, is_lead_three c b.0, is_lead_four c b.0))
      ]
    ]
  ]
]
scan_sound (suc n) (c ∷ s) b h = elim (Bool-cases (within 128 192 c)) [
  | inl p ↦
      continuation (ground arith) (ground arith)
        (scan_sound n s b.1 (ground (arith, is_continuation-within c b.0)))
  | inr p ↦ absurd (ground (arith, is_continuation-within c b.0))
]

scan_complete : (n : ℕ) (s : CString) → AreBytes s → Sequences n s → scan_utf8 n s ≡ true
unfolding scan_utf8
scan_complete n s b finished = refl
scan_complete n s b (ascii {c} {s = t} h q) = ground (arith, scan_complete zero t b.1 q)
scan_complete n s b (two {c} {s = t} lo hi q) =
    ground (arith, is_lead_two c b.0, scan_complete 1 t b.1 q)
scan_complete n s b (three {c} {s = t} lo hi q) =
    ground (arith, is_lead_two c b.0, is_lead_three c b.0, scan_complete 2 t b.1 q)
scan_complete n s b (four {c} {s = t} lo hi q) =
    ground
      (arith, is_lead_two c b.0, is_lead_three c b.0, is_lead_four c b.0, scan_complete 3 t b.1 q)
scan_complete n s b (continuation {n = m} {c} {s = t} lo hi q) =
    ground (arith, is_continuation-within c b.0, scan_complete m t b.1 q)

-- A text of bytes is accepted exactly when it is a row of whole sequences of one to four bytes,
-- by the ranges of their lead and continuation bytes.
pub str_valid_utf8-Sequences :
    (s : CString) → AreBytes s → (str_valid_utf8 (some s) ≡ true) ↔ Sequences zero s
unfolding str_valid_utf8
str_valid_utf8-Sequences s b = (scan_sound zero s b, scan_complete zero s b)
