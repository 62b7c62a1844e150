-- ===== src/Db/Tas/Entries.antt =====
-- What becomes of a schedule's entries in the database.
use wireless_tsn_configurato.Base.{
  ◌≡◌, ◌≢◌, ◌⊎◌, Option-cases, inl, inr, refl, true, false, none, List, [], ◌∷◌, String,
}
use wireless_tsn_configurato.Base.Text.{CString}
use wireless_tsn_configurato.Common.{ok, db_error, not_found}
use wireless_tsn_configurato.Db.Engine.{Value, text, int, Sqlite, attempt, attempt_each, first_row}
use wireless_tsn_configurato.Db.Tas.{
  Schedule, save_sql, clear_sql, entry_sql, load_sql, entries_sql, bound_entries, save, load,
}

-- What SQLite documents of the five statements: INDEX is a keyword that cannot stand unquoted for a
-- column, so the two statements that write it so do not prepare; the other three are well formed.
pub record IndexIsKeyword {H : Type 0} (sql : Sqlite H) : Type 0 where
  pub well_formed :
      (h : H)
      → (sql.prepares h save_sql ≡ true)
        × (sql.prepares h clear_sql ≡ true)
        × (sql.prepares h load_sql ≡ true)
  pub malformed :
      (h : H) → (sql.prepares h entry_sql ≡ false) × (sql.prepares h entries_sql ≡ false)

module _ {H : Type 0} (sql : Sqlite H) where
  attempt_each_refused :
      (h : H) (s : String) (vs : List (List Value))
      → sql.prepares h s ≡ false
      → attempt_each sql h s vs ≡ h
  unfolding attempt_each attempt
  attempt_each_refused h s [] p = refl
  attempt_each_refused h s (v ∷ vs) p = rw p (attempt_each_refused h s vs p)

  load_refused :
      (keyword : IndexIsKeyword sql) (h : H) (id : CString)
      → (load sql h id ≡ (db_error, none)) ⊎ (load sql h id ≡ (not_found, none))
  unfolding load
  load_refused keyword h id = elim (Option-cases (first_row (sql.rows h load_sql (text id ∷ [])))) [
    | inl missing ↦ rw ((keyword.well_formed h).2, missing) (inr refl)
    | inr (row, found) ↦
        rw ((keyword.well_formed h).2, found) (rw (keyword.malformed h).1 (inl refl))
  ]

  -- On an engine that refuses `index` as a column name, saving any schedule reports success and
  -- stores no gate entry (the connection is as after the two statements before the entries), and no
  -- load gives a schedule: it fails with `HTSN_ERR_DB`, or with `HTSN_ERR_NOT_FOUND` where there is
  -- no row.
  pub save_drops_entries :
      (keyword : IndexIsKeyword sql) (h : H) (s : Schedule) (id : CString)
      → let stored =
          (sql.step h save_sql
            (text s.id ∷ text s.name ∷ int s.cycle_time_ns ∷ text s.deploy_target ∷ [])).1 in
        (save sql h s ≡ (ok, (sql.step stored clear_sql (text s.id ∷ [])).1))
        × ((load sql h id).1 ≡ none)
        × ((load sql h id).0 ≢ ok)
  unfolding save
  save_drops_entries keyword h s id =
      let stored =
        (sql.step h save_sql
          (text s.id ∷ text s.name ∷ int s.cycle_time_ns ∷ text s.deploy_target ∷ [])).1 in
      let cleared = (sql.step stored clear_sql (text s.id ∷ [])).1 in
      let entries = bound_entries s.id 0 s.entries in
      let dropped = attempt_each_refused cleared entry_sql entries (keyword.malformed cleared).0 in
      (
        rw ((keyword.well_formed h).0, (keyword.well_formed stored).1) (rw dropped),
        elim (load_refused keyword h id) [ inl e ↦ rw e | inr e ↦ rw e ],
        elim (load_refused keyword h id) [ inl e ↦ rw e (λ p. cc) | inr e ↦ rw e (λ p. cc) ],
      )
