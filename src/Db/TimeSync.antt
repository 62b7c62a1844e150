-- ===== src/Db/TimeSync.antt =====
-- src/db/db_timesync.c, src/db/db_timesync_report.c
use wireless_tsn_configurato.Base.{
  false, Option, none, some, List, [], ◌∷◌, map, String, if◌then◌else◌, get_or,
}
use wireless_tsn_configurato.Base.Int.{ℤ, pos, leb_ℤ, eqb_ℤ}
use wireless_tsn_configurato.Base.Text.{CString, is_empty}
use wireless_tsn_configurato.Common.{Error, ok, db_error, not_found, max_str}
use wireless_tsn_configurato.Db.Engine.{
  Value, null, int, text, Sqlite, command, checked, copy_column, int_column, first_row,
}
use wireless_tsn_configurato.TimeSync.{Status, mode_str, mode_parse}

unfoldable pub save_sql : String
save_sql =
    "INSERT INTO timesync_status (id,mode,grandmaster,offset_ns,quality,jitter_ns) VALUES ('global',?,?,?,?,?) ON CONFLICT(id) DO UPDATE SET mode=excluded.mode, grandmaster=excluded.grandmaster, offset_ns=excluded.offset_ns, quality=excluded.quality, jitter_ns=excluded.jitter_ns;"

unfoldable pub load_sql : String
load_sql =
    "SELECT mode,grandmaster,offset_ns,quality,jitter_ns FROM timesync_status WHERE id='global';"

unfoldable pub report_sql : String
report_sql =
    "INSERT INTO timesync_reports (device_id,ts,offset_ns,jitter_ns,packet_count,packet_loss,status) VALUES (?,?,?,?,?,?,?);"

unfoldable pub device_reports_sql : String
device_reports_sql =
    "SELECT device_id,ts,offset_ns,jitter_ns,packet_count,packet_loss,status FROM timesync_reports WHERE device_id=? ORDER BY id DESC LIMIT ?;"

unfoldable pub reports_sql : String
reports_sql =
    "SELECT device_id,ts,offset_ns,jitter_ns,packet_count,packet_loss,status FROM timesync_reports ORDER BY id DESC LIMIT ?;"

unfoldable pub prune_sql : String
prune_sql =
    "DELETE FROM timesync_reports WHERE id NOT IN (SELECT id FROM timesync_reports ORDER BY id DESC LIMIT ?);"

-- `htsn_timesync_report`
pub record Report : Type 0 where
  pub device_id : CString
  pub ts : ℤ
  pub offset_ns : ℤ
  pub jitter_ns : ℤ
  pub packet_count : ℤ
  pub packet_loss : ℤ
  pub status : CString

-- The parameters that `htsn_db_timesync_save` binds, in order.
unfoldable pub bound : Status → List Value
bound s =
    text (mode_str s.mode)
    ∷ text s.grandmaster
    ∷ int s.offset_ns
    ∷ int s.quality
    ∷ int s.jitter_ns
    ∷ []

module _ {H : Type 0} (sql : Sqlite H) where
  -- `htsn_db_timesync_save`
  unfoldable pub save : H → Status → Error × H
  save h s = checked sql h save_sql (bound s)

  -- The struct that `htsn_db_timesync_load` fills, cleared before.
  unfoldable pub from_row : List Value → Status
  from_row row = record {
    mode = mode_parse (sql.column_text (get_or row 0 null));
    grandmaster = copy_column sql max_str row 1;
    offset_ns = int_column sql row 2;
    jitter_ns = int_column sql row 4;
    quality = int_column sql row 3;
    gptp_active = false;
    protocol = [];
    report_offset_ns = pos 0;
    report_jitter_ns = pos 0;
    report_packet_count = pos 0;
    report_packet_loss = pos 0;
    report_device = [];
  }

  -- `htsn_db_timesync_load`
  unfoldable pub load : H → Error × Option Status
  load h =
      if sql.prepares h load_sql
      then elim (first_row (sql.rows h load_sql [])) [
        | none ↦ (not_found, none)
        | some row ↦ (ok, some (from_row row))
      ]
      else (db_error, none)

  -- `htsn_db_timesync_report_insert`; `now` is `time(NULL)`.
  unfoldable pub report_insert : ℤ → H → Report → Error × H
  report_insert now h r = command sql h report_sql (
      text r.device_id
      ∷ int (if eqb_ℤ r.ts (pos 0) then now else r.ts)
      ∷ int r.offset_ns
      ∷ int r.jitter_ns
      ∷ int r.packet_count
      ∷ int r.packet_loss
      ∷ text r.status
      ∷ [])

  unfoldable pub report_from_row : List Value → Report
  report_from_row row = record {
    device_id = copy_column sql max_str row 0;
    ts = int_column sql row 1;
    offset_ns = int_column sql row 2;
    jitter_ns = int_column sql row 3;
    packet_count = int_column sql row 4;
    packet_loss = int_column sql row 5;
    status = copy_column sql 32 row 6;
  }

  -- The rows of one query of `htsn_db_timesync_report_for_each`.
  unfoldable pub reports_of : H → String → List Value → List Report
  reports_of h statement values =
      if sql.prepares h statement then map report_from_row (sql.rows h statement values) else []

  -- `htsn_db_timesync_report_for_each`: the reports given to the callback, in order.
  unfoldable pub report_for_each : H → Option CString → ℤ → List Report
  unfolding reports_of
  report_for_each h device_id limit =
      let most = if leb_ℤ limit (pos 0) then pos 50 else limit in
      elim device_id [
        | none ↦ reports_of h reports_sql (int most ∷ [])
        | some id ↦
            if is_empty id
            then reports_of h reports_sql (int most ∷ [])
            else reports_of h device_reports_sql (text id ∷ int most ∷ [])
      ]

  -- `htsn_db_timesync_report_prune`
  unfoldable pub report_prune : H → ℤ → Error × H
  report_prune h keep = command sql h prune_sql (int keep ∷ [])
