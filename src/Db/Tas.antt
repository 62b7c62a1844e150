-- ===== src/Db/Tas.antt =====
-- src/db/db_tas.c. The two statements on `gcl_entries` name the column `index` without quotes, as in
-- the source (the schema in db.c quotes it).
pub mod Entries
use wireless_tsn_configurato.Base.{
  ℕ, suc, ◌+◌, ◌*◌, ◌%◌, Option, none, some, List, [], ◌∷◌, map, String, if◌then◌else◌, take,
}
use wireless_tsn_configurato.Base.Int.{ℤ, pos, ltb_ℤ, pos_part, neg_part}
use wireless_tsn_configurato.Base.Text.{CString}
use wireless_tsn_configurato.Common.{Error, ok, db_error, not_found, max_str}
use wireless_tsn_configurato.Gcl.{GclEntry}
use wireless_tsn_configurato.Db.Engine.{
  Value, int, text, Sqlite, command, attempt_each, copy_column, int_column, text_column, first_row,
}

-- `htsn_tas_schedule`; its `gate_state` is never used.
pub record Schedule : Type 0 where
  pub id : CString
  pub name : CString
  pub cycle_time_ns : ℤ
  pub deploy_target : CString
  pub entries : List GclEntry

unfoldable pub save_sql : String
save_sql =
    "INSERT INTO tas_schedules (id,name,cycle_time_ns,deploy_target) VALUES (?,?,?,?) ON CONFLICT(id) DO UPDATE SET name=excluded.name, cycle_time_ns=excluded.cycle_time_ns, deploy_target=excluded.deploy_target;"

unfoldable pub clear_sql : String
clear_sql = "DELETE FROM gcl_entries WHERE schedule_id=?;"

unfoldable pub entry_sql : String
entry_sql = "INSERT INTO gcl_entries (schedule_id,index,gate_state,duration_ns) VALUES (?,?,?,?);"

unfoldable pub load_sql : String
load_sql = "SELECT id,name,cycle_time_ns,deploy_target FROM tas_schedules WHERE id=?;"

unfoldable pub entries_sql : String
entries_sql = "SELECT gate_state,duration_ns FROM gcl_entries WHERE schedule_id=? ORDER BY index;"

unfoldable pub ids_sql : String
ids_sql = "SELECT id FROM tas_schedules;"

unfoldable pub delete_sql : String
delete_sql = "DELETE FROM tas_schedules WHERE id=?;"

-- `HTSN_TAS_MAX_ENTRIES`
abbrev pub max_entries : ℕ
max_entries = 128

-- The parameters of the entries from index `i` on.
unfoldable pub bound_entries : CString → ℕ → List GclEntry → List (List Value)
bound_entries id i [] = []
bound_entries id i (e ∷ es) =
    (text id ∷ int (pos i) ∷ int (pos e.gate_state) ∷ int e.duration_ns ∷ [])
    ∷ bound_entries id (i + 1) es

-- `(unsigned char)n`
unfoldable pub byte : ℤ → ℕ
byte n = (pos_part n + 255 * neg_part n) % 256

module _ {H : Type 0} (sql : Sqlite H) where
  -- `htsn_db_tas_save`
  unfoldable pub save : H → Schedule → Error × H
  save h s =
      if sql.prepares h save_sql
      then (let h' =
            (sql.step h save_sql
              (text s.id ∷ text s.name ∷ int s.cycle_time_ns ∷ text s.deploy_target ∷ [])).1 in
          if sql.prepares h' clear_sql
          then (
            ok,
            attempt_each sql (sql.step h' clear_sql (text s.id ∷ [])).1 entry_sql
                (bound_entries s.id 0 s.entries),
          )
          else (db_error, h'))
      else (db_error, h)

  entry_of_row : List Value → GclEntry
  unfolding byte
  entry_of_row row = record {
    gate_state = byte (int_column sql row 0);
    duration_ns = int_column sql row 1;
  }

  schedule_of_row : List Value → List GclEntry → Schedule
  schedule_of_row row entries = record {
    id = copy_column sql max_str row 0;
    name = copy_column sql max_str row 1;
    cycle_time_ns = int_column sql row 2;
    deploy_target = copy_column sql max_str row 3;
    entries = entries;
  }

  -- `htsn_db_tas_load`: the result and, with `ok`, what `*out` is set to.
  unfoldable pub load : H → CString → Error × Option Schedule
  unfolding entry_of_row schedule_of_row
  load h id =
      if sql.prepares h load_sql
      then elim (first_row (sql.rows h load_sql (text id ∷ []))) [
        | none ↦ (not_found, none)
        | some row ↦
            if sql.prepares h entries_sql
            then (
              ok,
              some (
                  schedule_of_row row
                    (map entry_of_row (take max_entries (sql.rows h entries_sql (text id ∷ []))))),
            )
            else (db_error, none)
      ]
      else (db_error, none)

  load_each : H → List CString → List Schedule
  unfolding load
  load_each h [] = []
  load_each h (id ∷ ids) = elim (load h id).1 [
    | none ↦ load_each h ids
    | some s ↦ s ∷ load_each h ids
  ]

  -- `htsn_db_tas_for_each`: the schedules that the callback is offered, in order.
  unfoldable pub all : H → List Schedule
  unfolding load_each
  all h =
      if sql.prepares h ids_sql
      then load_each h (map (λ row. text_column sql row 0) (sql.rows h ids_sql []))
      else []

  -- `htsn_db_tas_delete`
  unfoldable pub delete : H → CString → Error × H
  delete h id = command sql h delete_sql (text id ∷ [])
