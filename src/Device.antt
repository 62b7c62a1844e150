-- ===== src/Device.antt =====
-- src/device/device.c: a device, and the names of its states and kinds.
pub mod Names
use wireless_tsn_configurato.Base.{
  ℕ, ◌+◌, Bool, ◌&&◌, Option, none, some, List, ◌∷◌, [], ◌++◌, ltb, leb, if◌then◌else◌, length, map,
  ◌==◌,
}
use wireless_tsn_configurato.Base.Int.{ℤ, pos, eqb_ℤ}
use wireless_tsn_configurato.Base.Text.{CString, codes, str_eq}
use wireless_tsn_configurato.Common.StrUtil.{copied}

-- `htsn_device_status`; `other` stands for a stored value that has no name.
pub data Status : Type 0 where
  online offline error : Status
  other : ℤ → Status

-- `htsn_device_kind`
pub data Kind : Type 0 where
  unknown esp32 raspberrypi stm32 : Kind

abbrev pub tsn_features_max : ℕ
tsn_features_max = 8

-- `htsn_device`; `tsn_features[0 .. tsn_features_count)` is a list. Times are `time_t`.
pub record Device : Type 0 where
  pub id : CString
  pub ip : CString
  pub mac : CString
  pub firmware : CString
  pub last_seen : ℤ
  pub status : Status
  pub kind : Kind
  pub tsn_features : List CString
  pub name : CString
  pub domain : CString
  pub heartbeat_at : ℤ

-- `htsn_device_status_str`
unfoldable pub status_str : Status → CString
status_str Status.online = codes "online"
status_str Status.offline = codes "offline"
status_str Status.error = codes "error"
status_str (Status.other n) = codes "unknown"

-- `htsn_device_kind_str`
unfoldable pub kind_str : Kind → CString
kind_str Kind.esp32 = codes "ESP32"
kind_str Kind.raspberrypi = codes "RaspberryPi"
kind_str Kind.stm32 = codes "STM32"
kind_str Kind.unknown = codes "Unknown"

-- `tolower` of an ASCII byte, and `strcasecmp(s, t) == 0`.
unfoldable pub to_lower : ℕ → ℕ
to_lower c = if leb b'A' c && leb c b'Z' then c + 32 else c

unfoldable pub case_eq : CString → CString → Bool
unfolding to_lower
case_eq s t = str_eq (map to_lower s) (map to_lower t)

-- `htsn_device_kind_parse`
unfoldable pub kind_parse : Option CString → Kind
unfolding case_eq
kind_parse none = Kind.unknown
kind_parse (some s) =
    if case_eq s (codes "ESP32")
    then Kind.esp32
    else if case_eq s (codes "RaspberryPi")
    then Kind.raspberrypi
    else if case_eq s (codes "STM32")
    then Kind.stm32
    else Kind.unknown

-- `htsn_device_add_tsn_feature`
unfoldable pub add_tsn_feature : Device → Option CString → Device
add_tsn_feature d none = d
add_tsn_feature d (some feature) =
    if leb tsn_features_max (length d.tsn_features)
    then d
    else record d { tsn_features = d.tsn_features ++ (copied 64 feature ∷ []) }

-- The casts between the enum and `int`.
unfoldable pub status_int : Status → ℤ
status_int Status.online = pos 0
status_int Status.offline = pos 1
status_int Status.error = pos 2
status_int (Status.other n) = n

unfoldable pub int_status : ℤ → Status
int_status n =
    if eqb_ℤ n (pos 0)
    then Status.online
    else if eqb_ℤ n (pos 1)
    then Status.offline
    else if eqb_ℤ n (pos 2)
    then Status.error
    else Status.other n
