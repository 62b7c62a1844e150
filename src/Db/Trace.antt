-- ===== src/Db/Trace.antt =====
-- src/db/db_trace_log.c
use wireless_tsn_configurato.Base.{
  Option, none, some, List, [], ◌∷◌, map, String, if◌then◌else◌, get_or, take,
}
use wireless_tsn_configurato.Base.Int.{ℤ, pos}
use wireless_tsn_configurato.Base.Text.{CString, codes}
use wireless_tsn_configurato.Common.{Error, max_str}
use wireless_tsn_configurato.Db.Engine.{
  Value, null, int, text, Sqlite, command, int_column, first_row,
}

-- A row of `trace_log` as it is bound: `time(NULL)`, and the type as an int.
pub record LogRow : Type 0 where
  pub ts : ℤ
  pub type_code : ℤ
  pub source : CString
  pub line : CString

-- The entry that `htsn_db_trace_paged` hands to its callback.
pub record PagedEntry : Type 0 where
  pub timestamp : CString
  pub type_code : ℤ
  pub source : CString
  pub line : CString

unfoldable pub insert_sql : String
insert_sql = "INSERT INTO trace_log (ts,type,source,line) VALUES (?,?,?,?);"

unfoldable pub paged_sql : String
paged_sql = "SELECT ts,type,source,line FROM trace_log ORDER BY id DESC LIMIT ? OFFSET ?;"

unfoldable pub count_sql : String
count_sql = "SELECT COUNT(*) FROM trace_log;"

unfoldable pub prune_sql : String
prune_sql =
    "DELETE FROM trace_log WHERE id NOT IN (SELECT id FROM trace_log ORDER BY id DESC LIMIT ?);"

abbrev pub text_or : CString → Option CString → CString
text_or other none = other
text_or other (some s) = s

module _ {H : Type 0} (sql : Sqlite H) where
  -- `htsn_db_trace_log_insert`
  unfoldable pub insert : H → LogRow → Error × H
  insert h e =
      command sql h insert_sql (int e.ts ∷ int e.type_code ∷ text e.source ∷ text e.line ∷ [])

  -- The entry that the loop of `htsn_db_trace_paged` fills in; `clock` is `localtime` and
  -- `strftime("%H:%M:%S")`. `strncpy` fills at most the whole buffer.
  unfoldable pub paged_entry : (ℤ → Option CString) → List Value → PagedEntry
  paged_entry clock row = record {
    timestamp = text_or [] (clock (int_column sql row 0));
    type_code = int_column sql row 1;
    source = take max_str (text_or (codes "-") (sql.column_text (get_or row 2 null)));
    line = take 256 (text_or [] (sql.column_text (get_or row 3 null)));
  }

  -- `htsn_db_trace_paged`: the entries given to the callback, in order.
  unfoldable pub paged : (ℤ → Option CString) → H → ℤ → ℤ → List PagedEntry
  paged clock h offset limit =
      if sql.prepares h paged_sql
      then map (paged_entry clock) (sql.rows h paged_sql (int limit ∷ int offset ∷ []))
      else []

  -- `htsn_db_trace_count`
  unfoldable pub count : H → ℤ
  count h =
      if sql.prepares h count_sql
      then elim (first_row (sql.rows h count_sql [])) [
        | none ↦ pos 0
        | some row ↦ int_column sql row 0
      ]
      else pos 0

  -- `htsn_db_trace_prune`
  unfoldable pub prune : H → ℤ → Error × H
  prune h keep = command sql h prune_sql (int keep ∷ [])
