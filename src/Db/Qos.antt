-- ===== src/Db/Qos.antt =====
-- src/db/db_qos.c
pub mod RoundTrip
use wireless_tsn_configurato.Base.{Option, none, some, List, [], ◌∷◌, String, if◌then◌else◌}
use wireless_tsn_configurato.Base.Int.{ℤ}
use wireless_tsn_configurato.Base.Text.{CString}
use wireless_tsn_configurato.Common.{Error, ok, db_error, not_found, max_str}
use wireless_tsn_configurato.Db.Engine.{
  Value, int, text, Sqlite, attempt, command, checked, copy_column, int_column, first_row,
}

-- `htsn_qos_config`
pub record QosConfig : Type 0 where
  pub device_id : CString
  pub priority : ℤ
  pub traffic_class : ℤ
  pub bandwidth_kbps : ℤ
  pub latency_ms : ℤ
  pub preemption : ℤ

unfoldable pub stub_sql : String
stub_sql = "INSERT OR IGNORE INTO devices(id,name) VALUES(?,?);"

unfoldable pub save_sql : String
save_sql =
    "INSERT INTO qos_configs (device_id,priority,traffic_class,bandwidth_kbps,latency_ms,preemption) VALUES (?,?,?,?,?,?) ON CONFLICT(device_id) DO UPDATE SET priority=excluded.priority, traffic_class=excluded.traffic_class, bandwidth_kbps=excluded.bandwidth_kbps, latency_ms=excluded.latency_ms, preemption=excluded.preemption;"

unfoldable pub load_sql : String
load_sql =
    "SELECT device_id,priority,traffic_class,bandwidth_kbps,latency_ms,preemption FROM qos_configs WHERE device_id=?;"

unfoldable pub delete_sql : String
delete_sql = "DELETE FROM qos_configs WHERE device_id=?;"

-- The parameters that `htsn_db_qos_save` binds, in order.
unfoldable pub bound : QosConfig → List Value
bound cfg =
    text cfg.device_id
    ∷ int cfg.priority
    ∷ int cfg.traffic_class
    ∷ int cfg.bandwidth_kbps
    ∷ int cfg.latency_ms
    ∷ int cfg.preemption
    ∷ []

module _ {H : Type 0} (sql : Sqlite H) where
  -- `htsn_db_qos_save`
  unfoldable pub save : H → QosConfig → Error × H
  save h cfg =
      checked sql (attempt sql h stub_sql (text cfg.device_id ∷ text cfg.device_id ∷ [])) save_sql
        (bound cfg)

  -- The struct that `htsn_db_qos_load` fills from a row.
  unfoldable pub from_row : List Value → QosConfig
  from_row row = record {
    device_id = copy_column sql max_str row 0;
    priority = int_column sql row 1;
    traffic_class = int_column sql row 2;
    bandwidth_kbps = int_column sql row 3;
    latency_ms = int_column sql row 4;
    preemption = int_column sql row 5;
  }

  -- `htsn_db_qos_load`: the result and what `*out` is set to.
  unfoldable pub load : H → CString → Error × Option QosConfig
  load h device_id =
      if sql.prepares h load_sql
      then elim (first_row (sql.rows h load_sql (text device_id ∷ []))) [
        | none ↦ (not_found, none)
        | some row ↦ (ok, some (from_row row))
      ]
      else (db_error, none)

  -- `htsn_db_qos_delete`
  unfoldable pub delete : H → CString → Error × H
  delete h device_id = command sql h delete_sql (text device_id ∷ [])
