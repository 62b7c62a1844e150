-- ===== src/Db/Engine.antt =====
-- The calls of SQLite that the layer makes, and the three ways in which it makes them.
pub mod Laws
use wireless_tsn_configurato.Base.{
  ℕ, Bool, Option, none, some, List, [], ◌∷◌, String, if◌then◌else◌, get_or, ◌≡◌,
}
use wireless_tsn_configurato.Base.Int.{ℤ}
use wireless_tsn_configurato.Base.Text.{CString}
use wireless_tsn_configurato.Common.{Error, ok, db_error}
use wireless_tsn_configurato.Common.StrUtil.{strlcpy}

-- A bound parameter or a column.
pub data Value : Type 0 where
  null : Value
  int : ℤ → Value
  text : CString → Value
  -- a double, by its 64 bits
  real : ℕ → Value

pub record Sqlite (H : Type 0) : Type 0 where
  -- `sqlite3_prepare_v2(…) == SQLITE_OK`
  pub prepares : H → String → Bool
  -- `sqlite3_step` and `sqlite3_finalize` of a prepared statement that returns no rows, its
  -- parameters bound: whether the step gave `SQLITE_DONE`, and the connection afterwards
  pub step : H → String → List Value → Bool × H
  -- the rows that `sqlite3_step` gives in turn, up to the first result that is not `SQLITE_ROW`
  pub rows : H → String → List Value → List (List Value)
  -- `sqlite3_column_text`, NULL for a null column, `sqlite3_column_int64`, and the bits that
  -- `sqlite3_column_double` gives
  pub column_text : Value → Option CString
  pub column_int : Value → ℤ
  pub column_double : Value → ℕ

abbrev pub or_empty : Option CString → CString
or_empty none = []
or_empty (some s) = s

module _ {H : Type 0} (sql : Sqlite H) where
  -- A statement that is skipped where it does not prepare.
  unfoldable pub attempt : H → String → List Value → H
  attempt h statement values =
      if sql.prepares h statement then (sql.step h statement values).1 else h

  -- A statement whose step is not looked at.
  unfoldable pub command : H → String → List Value → Error × H
  command h statement values =
      if sql.prepares h statement then (ok, (sql.step h statement values).1) else (db_error, h)

  -- A statement whose step must give `SQLITE_DONE`.
  unfoldable pub checked : H → String → List Value → Error × H
  checked h statement values =
      if sql.prepares h statement
      then (
        if (sql.step h statement values).0 then ok else db_error,
        (sql.step h statement values).1,
      )
      else (db_error, h)

  -- One prepared statement that is bound, stepped and reset for each row of parameters.
  unfoldable pub step_each : H → String → List (List Value) → H
  step_each h statement [] = h
  step_each h statement (values ∷ more) = step_each (sql.step h statement values).1 statement more

  -- A statement that is prepared anew, or skipped, for each row of parameters.
  unfoldable pub attempt_each : H → String → List (List Value) → H
  attempt_each h statement [] = h
  attempt_each h statement (values ∷ more) =
      attempt_each (attempt h statement values) statement more

  -- `sqlite3_column_text(st, i)` where it is compared or handed on as text; the columns that are
  -- read so are bound as text, never NULL.
  unfoldable pub text_column : List Value → ℕ → CString
  text_column row i = or_empty (sql.column_text (get_or row i null))

  -- `htsn_strlcpy(dst, sqlite3_column_text(st, i), size)`
  unfoldable pub copy_column : ℕ → List Value → ℕ → CString
  copy_column size row i = (strlcpy size (sql.column_text (get_or row i null))).0

  -- `sqlite3_column_int(st, i)`
  unfoldable pub int_column : List Value → ℕ → ℤ
  int_column row i = sql.column_int (get_or row i null)

-- What the layer relies on to read a column back: text as it was bound, a number as it was bound.
pub record ReadsBack {H : Type 0} (sql : Sqlite H) : Type 0 where
  pub text_column : (s : CString) → sql.column_text (text s) ≡ some s
  pub number_column : (n : ℤ) → sql.column_int (int n) ≡ n

-- A one-row `SELECT`: the row, or none where the first step gives no `SQLITE_ROW`.
abbrev pub first_row : List (List Value) → Option (List Value)
first_row [] = none
first_row (r ∷ rs) = some r
