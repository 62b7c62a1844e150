-- ===== src/Common/StrUtil/Trim.antt =====
-- What `htsn_str_trim` keeps.
use mathlib.Core.List.{append_assoc}
use wireless_tsn_configurato.Base.{
  ◌∙◌, ℕ, ◌≡◌, refl, ap, Bool, true, false, [], ◌∷◌, ◌++◌, if◌then◌else◌, All, Bool-cases, inl, inr,
}
use wireless_tsn_configurato.Base.Text.{CString}
use wireless_tsn_configurato.Common.StrUtil.{is_space, is_blank, trim_end, trim_start, str_trim}

abbrev pub ends_in_space : CString → Bool
ends_in_space [] = false
ends_in_space (c ∷ []) = is_space c
ends_in_space (c ∷ d ∷ s) = ends_in_space (d ∷ s)

abbrev pub begins_with_blank : CString → Bool
begins_with_blank [] = false
begins_with_blank (c ∷ s) = is_blank c

-- What a trim has to do with the text that it was given.
pub record Trimmed (s r : CString) : Type 0 where
  pub before : CString
  pub after : CString
  pub parts : s ≡ before ++ (r ++ after)
  pub blanks : All (λ c. is_blank c ≡ true) before
  pub spaces : All (λ c. is_space c ≡ true) after
  pub start_kept : begins_with_blank r ≡ false
  pub end_kept : ends_in_space r ≡ false

record Ended (s r : CString) : Type 0 where
  after : CString
  parts : s ≡ r ++ after
  spaces : All (λ c. is_space c ≡ true) after
  end_kept : ends_in_space r ≡ false

extend :
    (c : ℕ) (s : CString) (r : CString)
    → Ended s r
    → Ended (c ∷ s) (elim r [ [] ↦ if is_space c then [] else c ∷ [] | d ∷ t ↦ c ∷ d ∷ t ])
extend c s [] e = elim (Bool-cases (is_space c)) [
  | inl p ↦ rw p (record {
    after = c ∷ e.after;
    parts = ap (◌∷◌ c) e.parts;
    spaces = (p, e.spaces);
    end_kept = refl;
  })
  | inr p ↦
      rw p (record { after = e.after; parts = ap (◌∷◌ c) e.parts; spaces = e.spaces; end_kept = p })
]
extend c s (d ∷ t) e = record {
  after = e.after;
  parts = ap (◌∷◌ c) e.parts;
  spaces = e.spaces;
  end_kept = e.end_kept;
}

trim_end-Ended : (s : CString) → Ended s (trim_end s)
unfolding trim_end
trim_end-Ended [] = record { after = []; parts = refl; spaces = tt; end_kept = refl }
trim_end-Ended (c ∷ s) = extend c s (trim_end s) (trim_end-Ended s)

record Started (s r : CString) : Type 0 where
  before : CString
  parts : s ≡ before ++ r
  blanks : All (λ c. is_blank c ≡ true) before
  start_kept : begins_with_blank r ≡ false

trim_start-Started : (s : CString) → Started s (trim_start s)
unfolding trim_start
trim_start-Started [] = record { before = []; parts = refl; blanks = tt; start_kept = refl }
trim_start-Started (c ∷ s) =
    let ih = trim_start-Started s in
    elim (Bool-cases (is_blank c)) [
      | inl p ↦ rw p (record {
        before = c ∷ ih.before;
        parts = ap (◌∷◌ c) ih.parts;
        blanks = (p, ih.blanks);
        start_kept = ih.start_kept;
      })
      | inr p ↦ rw p (record { before = []; parts = refl; blanks = tt; start_kept = p })
    ]

ends_in_space-tail : (c : ℕ) (s : CString) → ends_in_space (c ∷ s) ≡ false → ends_in_space s ≡ false
ends_in_space-tail c [] h = refl
ends_in_space-tail c (d ∷ s) h = h

trim_start-ends_in_space :
    (s : CString) → ends_in_space s ≡ false → ends_in_space (trim_start s) ≡ false
unfolding trim_start
trim_start-ends_in_space [] h = refl
trim_start-ends_in_space (c ∷ s) h = elim (Bool-cases (is_blank c)) [
  | inl p ↦ rw p (trim_start-ends_in_space s (ends_in_space-tail c s h))
  | inr p ↦ rw p h
]

-- The trimmed text is the text without some spaces and tabs at its start and some spaces, tabs and
-- line ends at its end; it begins with no space or tab, and ends in none of the four.
pub str_trim-Trimmed : (s : CString) → Trimmed s (str_trim s)
unfolding str_trim
str_trim-Trimmed s =
    let front = trim_start-Started (trim_end s) in
    let back = trim_end-Ended s in
    record {
      before = front.before;
      after = back.after;
      parts =
          back.parts
          ∙ ap (λ t. t ++ back.after) front.parts
          ∙ append_assoc front.before (str_trim s) back.after;
      blanks = front.blanks;
      spaces = back.spaces;
      start_kept = front.start_kept;
      end_kept = trim_start-ends_in_space (trim_end s) back.end_kept;
    }
