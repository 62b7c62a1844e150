-- ===== src/Db/Devices.antt =====
-- src/db/db_devices.c
use wireless_tsn_configurato.Base.{
  Option, none, some, List, [], ◌∷◌, map, String, if◌then◌else◌, get_or,
}
use wireless_tsn_configurato.Base.Int.{ℤ}
use wireless_tsn_configurato.Base.Text.{CString, codes, is_empty}
use wireless_tsn_configurato.Common.{Error, ok, db_error, not_found, max_str}
use wireless_tsn_configurato.Device.{
  Status, Device, kind_str, kind_parse, add_tsn_feature, status_int, int_status,
}
use wireless_tsn_configurato.Db.Engine.{
  Value, null, int, text, Sqlite, attempt, attempt_each, command, copy_column, int_column,
  first_row,
}

unfoldable pub upsert_sql : String
upsert_sql =
    "INSERT INTO devices (id,name,ip,mac,kind,firmware,status,last_seen,domain,heartbeat_at) VALUES (?,?,?,?,?,?,?,?,?,?) ON CONFLICT(id) DO UPDATE SET name=excluded.name, ip=excluded.ip, mac=excluded.mac, kind=excluded.kind, firmware=excluded.firmware, status=excluded.status, last_seen=excluded.last_seen, domain=excluded.domain, heartbeat_at=excluded.heartbeat_at;"

unfoldable pub clear_features_sql : String
clear_features_sql = "DELETE FROM device_tsn_features WHERE device_id=?;"

unfoldable pub feature_sql : String
feature_sql = "INSERT INTO device_tsn_features (device_id,feature) VALUES (?,?);"

unfoldable pub features_sql : String
features_sql = "SELECT feature FROM device_tsn_features WHERE device_id=?;"

unfoldable pub all_sql : String
all_sql = "SELECT id,name,ip,mac,kind,firmware,status,last_seen,domain,heartbeat_at FROM devices;"

unfoldable pub in_domain_sql : String
in_domain_sql =
    "SELECT id,name,ip,mac,kind,firmware,status,last_seen,domain,heartbeat_at FROM devices WHERE domain=?;"

unfoldable pub get_sql : String
get_sql =
    "SELECT id,name,ip,mac,kind,firmware,status,last_seen,domain,heartbeat_at FROM devices WHERE id=?;"

unfoldable pub delete_sql : String
delete_sql = "DELETE FROM devices WHERE id=?;"

unfoldable pub status_sql : String
status_sql = "UPDATE devices SET status=? WHERE id=?;"

unfoldable pub touch_sql : String
touch_sql = "UPDATE devices SET last_seen=? WHERE id=?;"

-- `bind_device`
unfoldable pub bind_device : Device → List Value
bind_device dev =
    text dev.id
    ∷ text dev.name
    ∷ text dev.ip
    ∷ text dev.mac
    ∷ text (kind_str dev.kind)
    ∷ text dev.firmware
    ∷ int (status_int dev.status)
    ∷ int dev.last_seen
    ∷ text (if is_empty dev.domain then codes "default" else dev.domain)
    ∷ int dev.heartbeat_at
    ∷ []

module _ {H : Type 0} (sql : Sqlite H) where
  -- The rewriting of the features, in `htsn_db_device_upsert`.
  unfoldable pub write_features : H → Device → H
  write_features h dev =
      attempt_each sql (attempt sql h clear_features_sql (text dev.id ∷ [])) feature_sql
        (map (λ f. text dev.id ∷ text f ∷ []) dev.tsn_features)

  -- `htsn_db_device_upsert`
  unfoldable pub upsert : H → Device → Error × H
  upsert h dev =
      if sql.prepares h upsert_sql
      then (let (stepped, h') = sql.step h upsert_sql (bind_device dev) in
          if stepped then (ok, write_features h' dev) else (db_error, h'))
      else (db_error, h)

  unfoldable pub add_features : Device → List (List Value) → Device
  add_features d [] = d
  add_features d (row ∷ rows) =
      add_features (add_tsn_feature d (sql.column_text (get_or row 0 null))) rows

  -- `row_to_device`; `kind_parse` and `add_tsn_feature` take a NULL column as it is.
  unfoldable pub row_to_device : H → List Value → Device
  row_to_device h row =
      let d : Device = record {
        id = copy_column sql max_str row 0;
        name = copy_column sql max_str row 1;
        ip = copy_column sql 64 row 2;
        mac = copy_column sql 32 row 3;
        kind = kind_parse (sql.column_text (get_or row 4 null));
        firmware = copy_column sql 32 row 5;
        status = int_status (int_column sql row 6);
        last_seen = int_column sql row 7;
        domain = copy_column sql max_str row 8;
        heartbeat_at = int_column sql row 9;
        tsn_features = [];
      } in
      if sql.prepares h features_sql
      then add_features d (sql.rows h features_sql (text d.id ∷ []))
      else d

  -- `htsn_db_device_for_each`: the devices that the callback is called with, in order.
  unfoldable pub all : H → List Device
  all h = if sql.prepares h all_sql then map (row_to_device h) (sql.rows h all_sql []) else []

  -- `htsn_db_device_for_each_in_domain`: the devices that the callback is called with, in order.
  unfoldable pub in_domain : H → CString → List Device
  in_domain h domain =
      if sql.prepares h in_domain_sql
      then map (row_to_device h) (sql.rows h in_domain_sql (text domain ∷ []))
      else []

  -- `htsn_db_device_get`: the result and, with `ok`, what `*out` is set to.
  unfoldable pub get : H → CString → Error × Option Device
  get h id =
      if sql.prepares h get_sql
      then elim (first_row (sql.rows h get_sql (text id ∷ []))) [
        | none ↦ (not_found, none)
        | some row ↦ (ok, some (row_to_device h row))
      ]
      else (db_error, none)

  -- `htsn_db_device_delete`
  unfoldable pub delete : H → CString → Error × H
  delete h id = command sql h delete_sql (text id ∷ [])

  -- `htsn_db_device_set_status`
  unfoldable pub set_status : H → CString → Status → Error × H
  set_status h id status = command sql h status_sql (int (status_int status) ∷ text id ∷ [])

  -- `htsn_db_device_touch`
  unfoldable pub touch : H → CString → ℤ → Error × H
  touch h id seen = command sql h touch_sql (int seen ∷ text id ∷ [])
