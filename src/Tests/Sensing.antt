-- ===== src/Tests/Sensing.antt =====
-- The theorems about time synchronisation and sensors at concrete inputs.
use wireless_tsn_configurato.Base.{ℕ, ◌≡◌, none, List, [], ◌∷◌, arith, inl, inr, ◌⊎◌}
use wireless_tsn_configurato.Base.Int.{pos}
use wireless_tsn_configurato.Base.Text.{CString, codes}
use wireless_tsn_configurato.Sensor.{Sensor, gpio}
use wireless_tsn_configurato.Managers.Sensors as sensors
use wireless_tsn_configurato.Managers.Sensors.Table as sensors_table
use wireless_tsn_configurato.Tests.World.{Store, empty_store, engine}

-- Sensors

abbrev no_sensors : sensors.Manager Store ℕ ℕ
no_sensors = record {
  db = empty_store;
  model = record { name = codes "sensor"; bus = none };
  sensors = [];
}

no_sensors-IsSound : sensors_table.IsSound no_sensors
no_sensors-IsSound = record { bounded = omega arith; unique = tt }

abbrev probe_sensor : Sensor
probe_sensor =
    sensors.make_sensor (pos 7) (codes "esp-1") (codes "probe") gpio (codes "Probe") (codes "V")

abbrev calls : List (Sensor ⊎ (CString × CString))
calls = inl probe_sensor ∷ inr (codes "esp-1", codes "probe") ∷ []

run_refines_example :
    sensors_table.IsSound (sensors_table.run engine no_sensors calls)
    × (sensors_table.contents (sensors_table.run engine no_sensors calls)
        ≡ sensors_table.described calls (sensors_table.contents no_sensors))
run_refines_example =
    sensors_table.run_refines engine no_sensors calls no_sensors-IsSound (omega arith)
