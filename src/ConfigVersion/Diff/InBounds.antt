-- ===== src/ConfigVersion/Diff/InBounds.antt =====
-- When the text of htsn_cfg_ver_diff stays inside its buffer.
use wireless_tsn_configurato.Base.{
  ℕ, suc, ◌*◌, ◌/◌, ◌≤◌, ◌≡◌, refl, false, some, Option, List, [], ◌∷◌, ◌++◌, arith, ltb, ltb→lt,
  length, length-append, All, Bool-cases, inl, inr,
}
use wireless_tsn_configurato.Base.Text.{CString, codes}
use wireless_tsn_configurato.ConfigVersion.Diff.{listed, emit, show_missing, compared}

-- A row that takes up no more than the 22 bytes that are reckoned with for each.
abbrev pub IsNarrow : CString → Type 0
IsNarrow r = length r ≤ 19

-- Text was built, of at most 22 bytes for each row shown.
abbrev Built : Option (CString × ℕ) → Type 0
Built o = (t : CString) × (n : ℕ) × (o ≡ some (t, n)) × (length t ≤ 22 * n)

module _ (out_size most : ℕ) (room : 22 * most ≤ out_size) (sign : CString)
    (two : length sign ≡ 2) where
  show_missing-Built :
      (rs others : List CString) (text : CString) (shown : ℕ)
      → All IsNarrow rs
      → length text ≤ 22 * shown
      → Built (show_missing out_size sign most rs others text shown)
  unfolding show_missing emit
  show_missing-Built [] others text shown narrow h = (text, shown, refl, h)
  show_missing-Built (r ∷ rs) others text shown narrow h =
      let line = sign ++ (r ++ (10 ∷ [])) in
      let short : length line ≤ 22 =
        omega (arith, length-append sign (r ++ (10 ∷ [])), length-append r (10 ∷ []), narrow.0) in
      elim (Bool-cases (ltb shown most)) [
        | inl more ↦ elim (Bool-cases (listed r others)) [
          | inl there ↦ rw more (rw there (show_missing-Built rs others text shown narrow.1 h))
          | inr gone ↦
              let fits : ltb out_size (length text) ≡ false =
                ground (arith, ltb→lt shown most more) in
              rw more (
                rw gone (
                  rw fits (
                    show_missing-Built rs others (text ++ line) (suc shown) narrow.1
                      (omega (arith, length-append text line)))))
        ]
        | inr full ↦ rw full (text, shown, refl, h)
      ]

-- Where no row of the two versions has more than 19 bytes, the comparison never writes outside of
-- its buffer, whatever the size of that: the text is built, at most 22 bytes for each row shown.
pub compared-in_bounds :
    (out_size : ℕ) (old new : List CString)
    → All IsNarrow old
    → All IsNarrow new
    → (t : CString) × (n : ℕ) × (compared out_size old new ≡ some (t, n)) × (length t ≤ 22 * n)
unfolding compared
compared-in_bounds out_size old new ho hn =
    let maxl = out_size / 22 in
    let (t, n, e, h) =
      show_missing-Built out_size (maxl / 2) (omega arith) (codes "- ") refl old new [] 0 ho
        (omega arith) in
    let (t', n', e', h') =
      show_missing-Built out_size maxl (omega arith) (codes "+ ") refl new old t n hn h in
    rw (e, compared) (t', n', e', h')
