-- ===== src/Managers/Sensors.antt =====
-- src/sensors/sensor_manager.c. The database is never NULL; the bus is held by the model.
pub mod Table
use wireless_tsn_configurato.Base.{
  ℕ, suc, true, Option, none, some, List, [], ◌∷◌, ◌++◌, leb, if◌then◌else◌, length, take,
}
use wireless_tsn_configurato.Base.Int.{ℤ}
use wireless_tsn_configurato.Base.Text.{CString, codes}
use wireless_tsn_configurato.Base.Table.{pair_eq, has, overwrite, erase}
use wireless_tsn_configurato.Common.{Error, ok, invalid_arg, not_found, busy, max_str}
use wireless_tsn_configurato.Common.StrUtil.{copied}
use wireless_tsn_configurato.Mvc.EventBus.{EventBus, Call}
use wireless_tsn_configurato.Mvc.Model
use wireless_tsn_configurato.Mvc.Model.{Model}
use wireless_tsn_configurato.Sensor.{Sensor, SensorType, temperature, pressure, imu, distance, gpio}
use wireless_tsn_configurato.Db.Engine.{Sqlite}
use wireless_tsn_configurato.Db.Sensors as db_sensors

-- `MAX_SENSORS`
abbrev pub max_sensors : ℕ
max_sensors = 1024

-- `struct htsn_sensor_manager`: `sensors[0 .. count)` is a list.
pub record Manager (H C U : Type 0) : Type 0 where
  pub db : H
  pub model : Model C U
  pub sensors : List Sensor

-- The two texts that a search compares.
abbrev pub sensor_key : Sensor → CString × CString
sensor_key s = (s.device_id, s.sensor_id)

module _ {H C U : Type 0} where
  -- `htsn_sensor_manager_count`; `htsn_sensor_manager_for_each` calls back for `m.sensors` in order.
  unfoldable pub count : Manager H C U → ℕ
  count m = length m.sensors

-- `make_sensor`; the value 0.0 has no bit set.
unfoldable pub make_sensor : ℤ → CString → CString → SensorType → CString → CString → Sensor
make_sensor now device_id sid type name unit = record {
  device_id = copied max_str device_id;
  sensor_id = copied max_str sid;
  type = type;
  name = copied max_str name;
  value = 0;
  unit = copied 32 unit;
  healthy = true;
  last_update = now;
}

-- The sensors that `htsn_sensor_manager_auto_detect` makes in turn; `clock i` is the time at the
-- `i`-th of them.
unfoldable pub detected : (ℕ → ℤ) → CString → List Sensor
unfolding make_sensor
detected clock dev =
    make_sensor (clock 0) dev (codes "temp1") temperature (codes "Ambient Temperature")
      (codes "degC")
    ∷ make_sensor (clock 1) dev (codes "press1") pressure (codes "Ambient Pressure") (codes "hPa")
    ∷ make_sensor (clock 2) dev (codes "imu1") imu (codes "6-axis IMU") (codes "g")
    ∷ make_sensor (clock 3) dev (codes "dist1") distance (codes "Ultrasonic Distance") (codes "cm")
    ∷ make_sensor (clock 4) dev (codes "gpio1") gpio (codes "GPIO Input") (codes "")
    ∷ []

module _ {H C U : Type 0} (sql : Sqlite H) where
  -- `htsn_sensor_manager_create` with `collect`; without a bus it returns NULL.
  unfoldable pub create : H → Option (EventBus C U) → Option (Manager H C U)
  create db none = none
  create db (some bus) = some (record {
    db = db;
    model = Model.init (codes "sensor") (some bus);
    sensors = take max_sensors (db_sensors.all sql db);
  })

  -- `htsn_sensor_manager_upsert`
  unfoldable pub upsert :
      Manager H C U → Option Sensor → Error × Manager H C U × List (Call C U (Option Sensor))
  upsert m none = (invalid_arg, m, [])
  upsert m (some s) =
      let stored = (db_sensors.upsert sql m.db s).1 in
      if has sensor_key (sensor_key s) m.sensors
      then (
        ok,
        record m { sensors = overwrite sensor_key s m.sensors; db = stored },
        Model.notify m.model (some (codes "changed")),
      )
      else if leb max_sensors (length m.sensors)
      then (busy, m, [])
      else (
        ok,
        record m { sensors = m.sensors ++ (s ∷ []); db = stored },
        Model.notify m.model (some (codes "changed")),
      )

  -- `htsn_sensor_manager_remove`
  unfoldable pub remove :
      Manager H C U
      → Option CString
      → Option CString
      → Error × Manager H C U × List (Call C U (Option Sensor))
  remove m none sid = (invalid_arg, m, [])
  remove m (some dev) none = (invalid_arg, m, [])
  remove m (some dev) (some sid) =
      if has sensor_key (dev, sid) m.sensors
      then (
        ok,
        record m {
          sensors = erase sensor_key (dev, sid) m.sensors;
          db = (db_sensors.delete sql m.db dev sid).1;
        },
        Model.notify m.model (some (codes "changed")),
      )
      else (not_found, m, [])

  -- One call of `htsn_sensor_manager_upsert` after the other; what they return is not looked at.
  unfoldable pub upsert_each :
      Manager H C U → List Sensor → Manager H C U × List (Call C U (Option Sensor))
  upsert_each m [] = (m, [])
  upsert_each m (s ∷ ss) =
      let (result, m', calls) = upsert m (some s) in
      let (m'', more) = upsert_each m' ss in (m'', calls ++ more)

  -- `htsn_sensor_manager_auto_detect`
  unfoldable pub auto_detect :
      (ℕ → ℤ)
      → Manager H C U
      → Option CString
      → Error × Manager H C U × List (Call C U (Option Sensor))
  unfolding upsert_each detected
  auto_detect clock m none = (invalid_arg, m, [])
  auto_detect clock m (some dev) =
      let (m', calls) = upsert_each m (detected clock dev) in (ok, m', calls)
