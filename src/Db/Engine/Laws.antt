-- ===== src/Db/Engine/Laws.antt =====
-- What the three ways of making a call, and the reading of columns, come to.
use wireless_tsn_configurato.Base.{
  ℕ, ◌≡◌, true, List, String, get_or, Bool-cases, inl, inr, if◌then◌else◌, ap, ◌∙◌,
}
use wireless_tsn_configurato.Base.Int.{ℤ}
use wireless_tsn_configurato.Base.Text.{CString}
use wireless_tsn_configurato.Common.{ok, db_error}
use wireless_tsn_configurato.Common.StrUtil.{copied, strlcpy}
use wireless_tsn_configurato.Db.Engine.{
  Value, null, int, text, Sqlite, ReadsBack, checked, command, attempt, copy_column, int_column,
  text_column, or_empty,
}

module _ {H : Type 0} (sql : Sqlite H) where
  -- A checked statement that reports success was stepped to its end.
  pub checked_ok :
      (h : H) (s : String) (vs : List Value)
      → (checked sql h s vs).0 ≡ ok
      → ((sql.step h s vs).0 ≡ true) × ((checked sql h s vs).1 ≡ (sql.step h s vs).1)
  unfolding checked
  checked_ok h s vs done = elim (Bool-cases (sql.prepares h s)) [
    | inl p ↦ elim (Bool-cases (sql.step h s vs).0) [
      | inl q ↦ (q, rw p)
      | inr q ↦ absurd (never (rw (p, q) at done))
    ]
    | inr p ↦ absurd (never (rw p at done))
  ]
    where
      never : db_error ≡ ok → ⊥
      never e = cc

  pub checked_step :
      (h : H) (s : String) (vs : List Value)
      → sql.prepares h s ≡ true
      → checked sql h s vs ≡ (if (sql.step h s vs).0 then ok else db_error, (sql.step h s vs).1)
  unfolding checked
  checked_step h s vs p = rw p

  pub command_step :
      (h : H) (s : String) (vs : List Value)
      → sql.prepares h s ≡ true
      → command sql h s vs ≡ (ok, (sql.step h s vs).1)
  unfolding command
  command_step h s vs p = rw p

  pub attempt_step :
      (h : H) (s : String) (vs : List Value)
      → sql.prepares h s ≡ true
      → attempt sql h s vs ≡ (sql.step h s vs).1
  unfolding attempt
  attempt_step h s vs p = rw p

module _ {H : Type 0} (sql : Sqlite H) (reads : ReadsBack sql) where
  pub copy_column_text :
      (size : ℕ) (row : List Value) (i : ℕ) (s : CString)
      → get_or row i null ≡ text s
      → copy_column sql size row i ≡ copied size s
  unfolding copy_column
  copy_column_text size row i s e =
      ap (λ v. (strlcpy size (sql.column_text v)).0) e
      ∙ ap (λ o. (strlcpy size o).0) (reads.text_column s)

  pub int_column_int :
      (row : List Value) (i : ℕ) (n : ℤ) → get_or row i null ≡ int n → int_column sql row i ≡ n
  unfolding int_column
  int_column_int row i n e = ap sql.column_int e ∙ reads.number_column n

  pub text_column_text :
      (row : List Value) (i : ℕ) (s : CString)
      → get_or row i null ≡ text s
      → text_column sql row i ≡ s
  unfolding text_column
  text_column_text row i s e =
      ap (λ v. or_empty (sql.column_text v)) e ∙ ap or_empty (reads.text_column s)
