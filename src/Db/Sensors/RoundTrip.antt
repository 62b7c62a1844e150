-- ===== src/Db/Sensors/RoundTrip.antt =====
-- Sensors written to the database and read back.
use wireless_tsn_configurato.Base.{
  ℕ, Bool, not, if◌then◌else◌, ◌<◌, ◌≡◌, refl, true, false, some, length,
}
use wireless_tsn_configurato.Base.Int.{pos, eqb_ℤ}
use wireless_tsn_configurato.Base.Text.{str_eq}
use wireless_tsn_configurato.Common.{max_str}
use wireless_tsn_configurato.Common.StrUtil.Copy.{copied_of_lt}
use wireless_tsn_configurato.Db.Engine.{real, Sqlite, ReadsBack}
use wireless_tsn_configurato.Db.Engine.Laws.{copy_column_text, int_column_int}
use wireless_tsn_configurato.Sensor.{
  Sensor, SensorType, temperature, pressure, imu, distance, gpio, type_str, type_parse,
}
use wireless_tsn_configurato.Db.Sensors.{bound, from_row}

type_parse-type_str : (t : SensorType) → type_parse (some (type_str t)) ≡ t
unfolding type_parse type_str str_eq
type_parse-type_str temperature = refl
type_parse-type_str pressure = refl
type_parse-type_str imu = refl
type_parse-type_str distance = refl
type_parse-type_str gpio = refl

-- The texts of a sensor are within their buffers.
pub record Fits (s : Sensor) : Type 0 where
  pub device_id : length s.device_id < max_str
  pub sensor_id : length s.sensor_id < max_str
  pub name : length s.name < max_str
  pub unit : length s.unit < 32

flag_back : (b : Bool) → not (eqb_ℤ (if b then pos 1 else pos 0) (pos 0)) ≡ b
flag_back true = refl
flag_back false = refl

-- A double is read back as it was bound.
unfoldable pub ReadsDoubles : {H : Type 0} → Sqlite H → Type 0
ReadsDoubles sql = (b : ℕ) → sql.column_double (real b) ≡ b

module _ {H : Type 0} (sql : Sqlite H) (reads : ReadsBack sql) (doubles : ReadsDoubles sql) where
  -- A sensor within its buffers is read from its row as it was bound, whatever its type and whether
  -- it is healthy or not.
  pub from_row-bound : (s : Sensor) → Fits s → from_row sql (bound s) ≡ s
  unfolding from_row bound ReadsDoubles
  from_row-bound s f = rw (
    copy_column_text sql reads max_str (bound s) 0 s.device_id refl,
    copy_column_text sql reads max_str (bound s) 1 s.sensor_id refl,
    reads.text_column (type_str s.type),
    type_parse-type_str s.type,
    copy_column_text sql reads max_str (bound s) 3 s.name refl,
    doubles s.value,
    copy_column_text sql reads 32 (bound s) 5 s.unit refl,
    int_column_int sql reads (bound s) 6 (if s.healthy then pos 1 else pos 0) refl,
    int_column_int sql reads (bound s) 7 s.last_update refl,
    flag_back s.healthy,
    copied_of_lt max_str s.device_id f.device_id,
    copied_of_lt max_str s.sensor_id f.sensor_id,
    copied_of_lt max_str s.name f.name,
    copied_of_lt 32 s.unit f.unit,
  )
