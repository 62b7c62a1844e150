-- ===== src/Db/Sensors.antt =====
-- src/db/db_sensors.c
pub mod RoundTrip
use wireless_tsn_configurato.Base.{not, List, [], ◌∷◌, map, String, if◌then◌else◌, get_or}
use wireless_tsn_configurato.Base.Int.{ℤ, pos, eqb_ℤ}
use wireless_tsn_configurato.Base.Text.{CString}
use wireless_tsn_configurato.Common.{Error, max_str}
use wireless_tsn_configurato.Db.Engine.{
  Value, null, int, text, real, Sqlite, command, checked, copy_column, int_column,
}
use wireless_tsn_configurato.Sensor.{Sensor, type_str, type_parse}

unfoldable pub upsert_sql : String
upsert_sql =
    "INSERT INTO sensors (device_id,sensor_id,type,name,value,unit,healthy,last_update) VALUES (?,?,?,?,?,?,?,?) ON CONFLICT(device_id,sensor_id) DO UPDATE SET type=excluded.type, name=excluded.name, value=excluded.value, unit=excluded.unit, healthy=excluded.healthy, last_update=excluded.last_update;"

unfoldable pub delete_sql : String
delete_sql = "DELETE FROM sensors WHERE device_id=? AND sensor_id=?;"

unfoldable pub all_sql : String
all_sql = "SELECT device_id,sensor_id,type,name,value,unit,healthy,last_update FROM sensors;"

-- The parameters that `htsn_db_sensor_upsert` binds, in order.
unfoldable pub bound : Sensor → List Value
bound s =
    text s.device_id
    ∷ text s.sensor_id
    ∷ text (type_str s.type)
    ∷ text s.name
    ∷ real s.value
    ∷ text s.unit
    ∷ int (if s.healthy then pos 1 else pos 0)
    ∷ int s.last_update
    ∷ []

module _ {H : Type 0} (sql : Sqlite H) where
  -- `htsn_db_sensor_upsert`
  unfoldable pub upsert : H → Sensor → Error × H
  upsert h s = checked sql h upsert_sql (bound s)

  -- `htsn_db_sensor_delete`
  unfoldable pub delete : H → CString → CString → Error × H
  delete h device_id sensor_id = command sql h delete_sql (text device_id ∷ text sensor_id ∷ [])

  -- The sensor that the loop of `htsn_db_sensor_for_each` fills in.
  unfoldable pub from_row : List Value → Sensor
  from_row row = record {
    device_id = copy_column sql max_str row 0;
    sensor_id = copy_column sql max_str row 1;
    type = type_parse (sql.column_text (get_or row 2 null));
    name = copy_column sql max_str row 3;
    value = sql.column_double (get_or row 4 null);
    unit = copy_column sql 32 row 5;
    healthy = not (eqb_ℤ (int_column sql row 6) (pos 0));
    last_update = int_column sql row 7;
  }

  -- `htsn_db_sensor_for_each`: the sensors given to the callback, in order.
  unfoldable pub all : H → List Sensor
  all h = if sql.prepares h all_sql then map from_row (sql.rows h all_sql []) else []
