-- ===== src/Db/Qos/RoundTrip.antt =====
-- QoS parameters written to the database and read back.
use wireless_tsn_configurato.Base.{◌<◌, ◌≡◌, refl, true, some, [], ◌∷◌, length}
use wireless_tsn_configurato.Common.{ok, max_str}
use wireless_tsn_configurato.Common.StrUtil.Copy.{copied_of_lt}
use wireless_tsn_configurato.Db.Engine.{text, Sqlite, ReadsBack, attempt}
use wireless_tsn_configurato.Db.Engine.Laws.{checked_ok, copy_column_text, int_column_int}
use wireless_tsn_configurato.Db.Qos.{
  QosConfig, stub_sql, save_sql, load_sql, bound, save, from_row, load,
}

-- What SQLite documents of the two statements on `qos_configs`, whose primary key is the device id:
-- after the insert is done a select by its key prepares and gives the inserted row.
pub record KeepsRows {H : Type 0} (sql : Sqlite H) : Type 0 where
  pub inserted :
      (h : H) (cfg : QosConfig)
      → (sql.step h save_sql (bound cfg)).0 ≡ true
      → let h' = (sql.step h save_sql (bound cfg)).1 in
        (sql.prepares h' load_sql ≡ true)
        × (sql.rows h' load_sql (text cfg.device_id ∷ []) ≡ bound cfg ∷ [])

module _ {H : Type 0} (sql : Sqlite H) (reads : ReadsBack sql) where
  -- A row read back is the configuration that was bound, its id cut to the buffer.
  from_row-bound :
      (cfg : QosConfig) → length cfg.device_id < max_str → from_row sql (bound cfg) ≡ cfg
  unfolding from_row bound
  from_row-bound cfg fits = rw (
    copy_column_text sql reads max_str (bound cfg) 0 cfg.device_id refl,
    int_column_int sql reads (bound cfg) 1 cfg.priority refl,
    int_column_int sql reads (bound cfg) 2 cfg.traffic_class refl,
    int_column_int sql reads (bound cfg) 3 cfg.bandwidth_kbps refl,
    int_column_int sql reads (bound cfg) 4 cfg.latency_ms refl,
    int_column_int sql reads (bound cfg) 5 cfg.preemption refl,
    copied_of_lt max_str cfg.device_id fits,
  )

  -- For a configuration whose device id fits its buffer: on an engine that keeps the rows, when
  -- saving reports success, loading by the device's id returns the very configuration.
  pub load-save_qos :
      (keeps : KeepsRows sql) (h : H) (cfg : QosConfig)
      → length cfg.device_id < max_str
      → (save sql h cfg).0 ≡ ok
      → load sql (save sql h cfg).1 cfg.device_id ≡ (ok, some cfg)
  unfolding save load
  load-save_qos keeps h cfg fits done =
      let h' = attempt sql h stub_sql (text cfg.device_id ∷ text cfg.device_id ∷ []) in
      let (stepped, after) = checked_ok sql h' save_sql (bound cfg) done in
      let (prepares, rows) = keeps.inserted h' cfg stepped in
      rw (after, prepares, rows) (rw (from_row-bound cfg fits))
