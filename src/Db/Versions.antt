-- ===== src/Db/Versions.antt =====
-- src/db/db_config_versions.c
use wireless_tsn_configurato.Base.{ℕ, Option, none, some, List, [], ◌∷◌, map, String, if◌then◌else◌}
use wireless_tsn_configurato.Base.Int.{ℤ, pos}
use wireless_tsn_configurato.Base.Text.{CString}
use wireless_tsn_configurato.Common.{Error, ok, db_error, not_found, max_str}
use wireless_tsn_configurato.Db.Engine.{
  Value, int, text, Sqlite, command, copy_column, int_column, first_row,
}

-- The size of the payload in `htsn_config_version`.
abbrev pub payload_size : ℕ
payload_size = 4096

-- `htsn_config_version`
pub record Version : Type 0 where
  pub id : ℤ
  pub name : CString
  pub device_id : CString
  pub created_at : ℤ
  pub payload : CString

unfoldable pub add_sql : String
add_sql = "INSERT INTO config_versions (name,device_id,created_at,payload) VALUES (?,?,?,?);"

unfoldable pub get_sql : String
get_sql = "SELECT id,name,device_id,created_at,payload FROM config_versions WHERE id=?;"

unfoldable pub all_sql : String
all_sql = "SELECT id,name,device_id,created_at,payload FROM config_versions ORDER BY id DESC;"

unfoldable pub count_sql : String
count_sql = "SELECT COUNT(*) FROM config_versions;"

module _ {H : Type 0} (sql : Sqlite H) where
  -- `htsn_db_config_version_add`; `now` is `time(NULL)`.
  unfoldable pub add : ℤ → H → CString → CString → CString → Error × H
  add now h name device_id payload =
      command sql h add_sql (text name ∷ text device_id ∷ int now ∷ text payload ∷ [])

  -- The struct that a row fills, cleared before.
  unfoldable pub from_row : List Value → Version
  from_row row = record {
    id = int_column sql row 0;
    name = copy_column sql max_str row 1;
    device_id = copy_column sql max_str row 2;
    created_at = int_column sql row 3;
    payload = copy_column sql payload_size row 4;
  }

  -- `htsn_db_config_version_get`
  unfoldable pub get : H → ℤ → Error × Option Version
  get h id =
      if sql.prepares h get_sql
      then elim (first_row (sql.rows h get_sql (int id ∷ []))) [
        | none ↦ (not_found, none)
        | some row ↦ (ok, some (from_row row))
      ]
      else (db_error, none)

  -- `htsn_db_config_version_for_each`: the versions given to the callback, in order.
  unfoldable pub all : H → List Version
  all h = if sql.prepares h all_sql then map from_row (sql.rows h all_sql []) else []

  -- `htsn_db_config_version_count`
  unfoldable pub count : H → ℤ
  count h =
      if sql.prepares h count_sql
      then elim (first_row (sql.rows h count_sql [])) [
        | none ↦ pos 0
        | some row ↦ int_column sql row 0
      ]
      else pos 0
