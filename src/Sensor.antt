-- ===== src/Sensor.antt =====
-- src/sensors/sensor.[ch]: sensors and the names of their types.
use wireless_tsn_configurato.Base.{ℕ, Bool, Option, none, some, if◌then◌else◌}
use wireless_tsn_configurato.Base.Int.{ℤ}
use wireless_tsn_configurato.Base.Text.{CString, codes, str_eq}

-- `htsn_sensor_type`
pub data SensorType : Type 0 where
  temperature pressure imu distance gpio : SensorType

-- `htsn_sensor`; `value` is the 64 bits of the double.
pub record Sensor : Type 0 where
  pub device_id : CString
  pub sensor_id : CString
  pub type : SensorType
  pub name : CString
  pub value : ℕ
  pub unit : CString
  pub healthy : Bool
  pub last_update : ℤ

-- `htsn_sensor_type_str`
unfoldable pub type_str : SensorType → CString
type_str temperature = codes "temperature"
type_str pressure = codes "pressure"
type_str imu = codes "imu"
type_str distance = codes "distance"
type_str gpio = codes "gpio"

-- `htsn_sensor_type_parse`
unfoldable pub type_parse : Option CString → SensorType
type_parse none = temperature
type_parse (some s) =
    if str_eq s (codes "temperature")
    then temperature
    else if str_eq s (codes "pressure")
    then pressure
    else if str_eq s (codes "imu")
    then imu
    else if str_eq s (codes "distance")
    then distance
    else if str_eq s (codes "gpio")
    then gpio
    else temperature
