-- ===== src/TimeSync.antt =====
-- src/timesync/timesync.[ch]: the modes of time synchronisation and its status.
use wireless_tsn_configurato.Base.{Bool, Option, none, some, if◌then◌else◌}
use wireless_tsn_configurato.Base.Int.{ℤ}
use wireless_tsn_configurato.Base.Text.{CString, codes, str_eq}
use wireless_tsn_configurato.Common.{Error, ok}

-- `htsn_timesync_mode`
pub data Mode : Type 0 where
  disabled local_grandmaster external_grandmaster auto : Mode

-- `htsn_timesync_status`
pub record Status : Type 0 where
  pub mode : Mode
  pub grandmaster : CString
  pub offset_ns : ℤ
  pub jitter_ns : ℤ
  pub quality : ℤ
  pub gptp_active : Bool
  pub protocol : CString
  pub report_offset_ns : ℤ
  pub report_jitter_ns : ℤ
  pub report_packet_count : ℤ
  pub report_packet_loss : ℤ
  pub report_device : CString

-- `htsn_timesync_mode_str`
unfoldable pub mode_str : Mode → CString
mode_str disabled = codes "disabled"
mode_str local_grandmaster = codes "local_grandmaster"
mode_str external_grandmaster = codes "external_grandmaster"
mode_str auto = codes "auto"

-- `htsn_timesync_mode_parse`
unfoldable pub mode_parse : Option CString → Mode
mode_parse none = disabled
mode_parse (some s) =
    if str_eq s (codes "local_grandmaster")
    then local_grandmaster
    else if str_eq s (codes "external_grandmaster")
    then external_grandmaster
    else if str_eq s (codes "auto")
    then auto
    else disabled

-- `htsn_timesync_validate_mode`
unfoldable pub validate_mode : Mode → Error
validate_mode m = ok
