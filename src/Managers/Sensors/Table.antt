-- ===== src/Managers/Sensors/Table.antt =====
-- The table of src/sensors/sensor_manager.c as a map from pairs of ids to sensors.
use mathlib.Core.Path.{fun_ext, subst}
use wireless_tsn_configurato.Base.{
  ◌+◌, ◌≤◌, ◌<◌, ◌≡◌, ◌∙◌, refl, false, Option, none, some, List, [], ◌∷◌, arith, leb,
  if◌then◌else◌, length, length-append, Bool-cases, inl, inr, ap, ◌⊎◌,
}
use wireless_tsn_configurato.Base.Text.{CString}
use wireless_tsn_configurato.Base.Table.{
  pair_eq, pair_beq, pair_beq_iff, find, has, Unique, find-overwrite, find-append_new, find-erase,
  Unique-overwrite, Unique-append_new, Unique-erase, length-overwrite, length-erase,
  find_of_not_has,
}
use wireless_tsn_configurato.Common.{ok}
use wireless_tsn_configurato.Sensor.{Sensor}
use wireless_tsn_configurato.Db.Engine.{Sqlite}
use wireless_tsn_configurato.Managers.Sensors.{Manager, max_sensors, sensor_key, upsert, remove}

-- The sensors are within the array, and no two have one key.
pub record IsSound {H C U : Type 0} (m : Manager H C U) : Type 0 where
  pub bounded : length m.sensors ≤ max_sensors
  pub unique : Unique sensor_key m.sensors

-- What the manager promises: a map from pairs of ids to sensors, and how it is written.
abbrev pub SensorMap : Type 0
SensorMap = CString × CString → Option Sensor

abbrev pub put : Sensor → SensorMap → SensorMap
put s f k = if pair_beq (sensor_key s) k then some s else f k

abbrev pub drop_key : CString × CString → SensorMap → SensorMap
drop_key j f k = if pair_beq j k then none else f k

-- The map after calls: an upsert, or a removal, each.
abbrev pub described : List (Sensor ⊎ (CString × CString)) → SensorMap → SensorMap
described [] f = f
described (inl s ∷ ops) f = described ops (put s f)
described (inr j ∷ ops) f = described ops (drop_key j f)

abbrev pub contents : {H C U : Type 0} → Manager H C U → SensorMap
contents m k = find sensor_key k m.sensors

module _ {H C U : Type 0} (sql : Sqlite H) where
  -- A known key is written over, a new one added while there is room: the table stays sound and
  -- grows by one at most.
  upsert-put :
      (m : Manager H C U) (s : Sensor)
      → IsSound m
      → length m.sensors < max_sensors
      → let (result, m', calls) = upsert sql m (some s) in
        (result ≡ ok)
        × IsSound m'
        × (length m'.sensors ≤ length m.sensors + 1)
        × (contents m' ≡ put s (contents m))
  unfolding upsert
  upsert-put m s v room = elim (Bool-cases (has sensor_key (sensor_key s) m.sensors)) [
    | inl known ↦ rw known (
      refl,
      record {
        bounded = omega (arith, length-overwrite sensor_key s m.sensors, v.bounded);
        unique = Unique-overwrite sensor_key s m.sensors v.unique;
      },
      omega (arith, length-overwrite sensor_key s m.sensors),
      fun_ext (λ k. find-overwrite sensor_key k s m.sensors known),
    )
    | inr new ↦
        let space : leb max_sensors (length m.sensors) ≡ false = ground arith in
        rw (new, space)
          (
            refl,
            record {
              bounded = omega (arith, length-append m.sensors (s ∷ []));
              unique = Unique-append_new sensor_key s m.sensors v.unique new;
            },
            omega (arith, length-append m.sensors (s ∷ [])),
            fun_ext (λ k. find-append_new sensor_key k s m.sensors new),
          )
  ]

  -- Removing a key takes it out of the map, or finds nothing to take out.
  remove_drop :
      (m : Manager H C U) (dev sid : CString)
      → IsSound m
      → let (result, m', calls) = remove sql m (some dev) (some sid) in
        IsSound m'
        × (length m'.sensors ≤ length m.sensors)
        × (contents m' ≡ drop_key (dev, sid) (contents m))
  unfolding remove
  remove_drop m dev sid v = elim (Bool-cases (has sensor_key (dev, sid) m.sensors)) [
    | inl known ↦ rw known (
      record {
        bounded = omega (arith, length-erase sensor_key (dev, sid) m.sensors known, v.bounded);
        unique = Unique-erase sensor_key (dev, sid) m.sensors v.unique;
      },
      omega (arith, length-erase sensor_key (dev, sid) m.sensors known),
      fun_ext (λ k. find-erase sensor_key k (dev, sid) m.sensors v.unique),
    )
    | inr missing ↦ rw missing (v, omega arith, fun_ext (λ k. nothing_there k missing))
  ]
    where
      nothing_there :
          (k : CString × CString)
          → has sensor_key (dev, sid) m.sensors ≡ false
          → contents m k ≡ drop_key (dev, sid) (contents m) k
      nothing_there k missing = elim (Bool-cases (pair_beq (dev, sid) k)) [
        | inl same ↦ rw same (
            subst (λ j. find sensor_key j m.sensors ≡ none) ((pair_beq_iff (dev, sid) k).0 same)
              (find_of_not_has sensor_key (dev, sid) m.sensors missing))
        | inr other ↦ rw other refl
      ]

  -- The calls of a client, in order.
  abbrev pub call : Manager H C U → Sensor ⊎ (CString × CString) → Manager H C U
  call m (inl s) = (upsert sql m (some s)).1
  call m (inr (dev, sid)) = (remove sql m (some dev) (some sid)).1

  abbrev pub run : Manager H C U → List (Sensor ⊎ (CString × CString)) → Manager H C U
  run m [] = m
  run m (op ∷ ops) = run (call m op) ops

  -- From a sound table, while upserts and removals are no more than there is room for, the manager
  -- is sound and holds the map that the calls describe: an upsert puts its sensor under its pair of
  -- ids, a removal takes its pair out, and every other pair keeps its sensor.
  pub run_refines :
      (m : Manager H C U) (ops : List (Sensor ⊎ (CString × CString)))
      → IsSound m
      → length m.sensors + length ops ≤ max_sensors
      → IsSound (run m ops) × (contents (run m ops) ≡ described ops (contents m))
  run_refines m [] v room = (v, refl)
  run_refines m (inl s ∷ ops) v room =
      let (done, v', short, e) = upsert-put m s v (omega arith) in
      let (w, f) = run_refines (call m (inl s)) ops v' (omega arith) in
      (w, f ∙ ap (described ops) e)
  run_refines m (inr (dev, sid) ∷ ops) v room =
      let (v', short, e) = remove_drop m dev sid v in
      let (w, f) = run_refines (call m (inr (dev, sid))) ops v' (omega arith) in
      (w, f ∙ ap (described ops) e)
