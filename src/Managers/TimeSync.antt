-- ===== src/Managers/TimeSync.antt =====
-- src/timesync/timesync_manager.c. The database is never NULL; the bus is held by the model.
use wireless_tsn_configurato.Base.{false, Option, none, some, List, [], if◌then◌else◌}
use wireless_tsn_configurato.Base.Int.{ℤ, pos, ltb_ℤ}
use wireless_tsn_configurato.Base.Text.{CString, codes}
use wireless_tsn_configurato.Common.{Error, ok, invalid_arg, max_str}
use wireless_tsn_configurato.Common.StrUtil.{copied}
use wireless_tsn_configurato.Mvc.EventBus.{EventBus, Call}
use wireless_tsn_configurato.Mvc.Model
use wireless_tsn_configurato.Mvc.Model.{Model}
use wireless_tsn_configurato.TimeSync.{Mode, disabled, Status}
use wireless_tsn_configurato.Db.Engine.{Sqlite}
use wireless_tsn_configurato.Db.TimeSync as db_timesync
use wireless_tsn_configurato.Db.TimeSync.{Report}

-- `struct htsn_timesync_manager`
pub record Manager (H C U : Type 0) : Type 0 where
  pub db : H
  pub model : Model C U
  pub status : Status

-- The status of a cleared struct, with a protocol.
unfoldable pub cleared : CString → Status
cleared protocol = record {
  mode = disabled;
  grandmaster = [];
  offset_ns = pos 0;
  jitter_ns = pos 0;
  quality = pos 0;
  gptp_active = false;
  protocol = protocol;
  report_offset_ns = pos 0;
  report_jitter_ns = pos 0;
  report_packet_count = pos 0;
  report_packet_loss = pos 0;
  report_device = [];
}

-- The report that `htsn_timesync_manager_record_report` fills in; its time is left 0.
unfoldable pub new_report : CString → ℤ → ℤ → ℤ → ℤ → Report
new_report device_id offset jitter packets loss = record {
  device_id = copied max_str device_id;
  ts = pos 0;
  offset_ns = offset;
  jitter_ns = jitter;
  packet_count = packets;
  packet_loss = loss;
  status = if ltb_ℤ (pos 0) loss then codes "degraded" else codes "in_sync";
}

module _ {H C U : Type 0} (sql : Sqlite H) where
  -- `htsn_timesync_manager_load`
  unfoldable pub load : Manager H C U → Error × Manager H C U
  unfolding cleared
  load m = elim (db_timesync.load sql m.db).1 [
    | none ↦ (ok, record m { status = cleared (codes "gptp") })
    | some status ↦ (ok, record m { status = status })
  ]

  -- `htsn_timesync_manager_create`; without a bus it returns NULL.
  unfoldable pub create : H → Option (EventBus C U) → Option (Manager H C U)
  create db none = none
  create db (some bus) =
      some
        (load (record {
          db = db;
          model = Model.init (codes "timesync") (some bus);
          status = cleared [];
        })).1

  -- What a setter does once the status is changed.
  unfoldable pub store :
      Manager H C U → Status → Error × Manager H C U × List (Call C U (Option Status))
  store m status = (
    ok,
    record m { status = status; db = (db_timesync.save sql m.db status).1 },
    Model.notify m.model (some (codes "changed")),
  )

  -- `htsn_timesync_manager_set_mode`; what the check of the mode returns is not looked at.
  unfoldable pub set_mode :
      Manager H C U → Mode → Error × Manager H C U × List (Call C U (Option Status))
  unfolding store
  set_mode m mode = store m (record m.status { mode = mode })

  -- `htsn_timesync_manager_set_grandmaster`
  unfoldable pub set_grandmaster :
      Manager H C U → Option CString → Error × Manager H C U × List (Call C U (Option Status))
  unfolding store
  set_grandmaster m none = (invalid_arg, m, [])
  set_grandmaster m (some gm_id) = store m (record m.status { grandmaster = copied max_str gm_id })

  -- `htsn_timesync_manager_record_report`
  unfoldable pub record_report :
      ℤ
      → Manager H C U
      → Option CString
      → ℤ
      → ℤ
      → ℤ
      → ℤ
      → Error × Manager H C U × List (Call C U (Option Status))
  unfolding new_report
  record_report now m none offset jitter packets loss = (invalid_arg, m, [])
  record_report now m (some device_id) offset jitter packets loss =
      let inserted =
        (db_timesync.report_insert sql now m.db
          (new_report device_id offset jitter packets loss)).1 in
      let status : Status = record m.status {
        report_device = copied max_str device_id;
        report_offset_ns = offset;
        report_jitter_ns = jitter;
        report_packet_count = packets;
        report_packet_loss = loss;
      } in
      (
        ok,
        record m { status = status; db = (db_timesync.report_prune sql inserted (pos 1000)).1 },
        Model.notify_data m.model (some (codes "report")) (some status),
      )
