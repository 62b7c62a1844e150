-- ===== src/Managers/Devices.antt =====
-- src/device/device_manager.c: the table of devices. The clock is read at most once in an operation:
-- its value is the argument `now`.
pub mod Table
pub mod Liveness
use wireless_tsn_configurato.Base.{
  ℕ, Bool, true, false, ◌&&◌, not, Option, none, some, List, [], ◌∷◌, ◌++◌, String, leb,
  if◌then◌else◌, length, take,
}
use wireless_tsn_configurato.Base.Int.{ℤ, pos, ltb_ℤ, eqb_ℤ}
use wireless_tsn_configurato.Base.Text.{CString, codes}
use wireless_tsn_configurato.Base.Table.{text_eq, find, has, overwrite, erase, modify}
use wireless_tsn_configurato.Common.{Error, ok, invalid_arg, not_found, busy, max_str}
use wireless_tsn_configurato.Common.StrUtil.{copied}
use wireless_tsn_configurato.Mvc.EventBus.{EventBus, Call}
use wireless_tsn_configurato.Mvc.Model
use wireless_tsn_configurato.Mvc.Model.{Model}
use wireless_tsn_configurato.Device.{Status, Device}
use wireless_tsn_configurato.Db.Engine.{Sqlite, int, text, attempt}
use wireless_tsn_configurato.Db.Devices as db_devices

-- `MAX_DB_DEVICES`
abbrev pub max_db_devices : ℕ
max_db_devices = 512

-- `struct htsn_device_manager`: `devices[0 .. count)` is a list. The plugin manager is not part of
-- it: what the plugins find is an argument of `discover_once`.
pub record Manager (H C U : Type 0) : Type 0 where
  pub db : H
  pub model : Model C U
  pub devices : List Device

abbrev pub device_key : Device → CString
device_key d = d.id

unfoldable pub heartbeat_sql : String
heartbeat_sql = "UPDATE devices SET heartbeat_at=?, last_seen=?, status=? WHERE id=?;"

abbrev pub is_error : Status → Bool
is_error Status.error = true
is_error _ = false

abbrev pub is_online : Status → Bool
is_online Status.online = true
is_online _ = false

module _ {C U : Type 0} where
  -- `publish_device_event`
  unfoldable pub publish_device_event :
      Model C U → CString → Device → List (Call C U (Option Device))
  publish_device_event model event dev =
      Model.notify_data model (some (copied 512 event)) (some dev)

module _ {H C U : Type 0} where
  -- `htsn_device_manager_get`
  unfoldable pub get : Manager H C U → Option CString → Option Device
  get m none = none
  get m (some id) = find device_key id m.devices

  -- `htsn_device_manager_count`
  unfoldable pub count : Manager H C U → ℕ
  count m = length m.devices

-- The device that `htsn_device_manager_upsert` stores: a time of 0 becomes the present.
unfoldable pub stamped : ℤ → Device → Device
stamped now dev = record dev {
  last_seen = if eqb_ℤ dev.last_seen (pos 0) then now else dev.last_seen;
}

-- The change of a heartbeat, and that of a lost device.
unfoldable pub beat : ℤ → Device → Device
beat now d = record d { heartbeat_at = now; last_seen = now; status = Status.online }

-- The test of `htsn_device_manager_mark_offline_after`.
unfoldable pub is_silent : ℤ → Device → Bool
is_silent threshold d = ltb_ℤ d.last_seen threshold && not (is_error d.status)

module _ {H : Type 0} (sql : Sqlite H) where
  -- The loop of `htsn_device_manager_destroy`.
  unfoldable write_back : H → List Device → H
  write_back h [] = h
  write_back h (d ∷ ds) = write_back (db_devices.upsert sql h d).1 ds

module _ {H C U : Type 0} (sql : Sqlite H) where
  -- `htsn_device_manager_restore`
  unfoldable pub restore : Manager H C U → Manager H C U
  restore m = record m { devices = take max_db_devices (db_devices.all sql m.db) }

  -- `htsn_device_manager_create`; without a bus it returns NULL.
  unfoldable pub create : H → Option (EventBus C U) → Option (Manager H C U)
  create db none = none
  create db (some bus) =
      some
        (restore (record { db = db; model = Model.init (codes "device") (some bus); devices = [] }))

  -- `htsn_device_manager_destroy`: the connection as it is left.
  unfoldable pub destroy : Manager H C U → H
  unfolding write_back
  destroy m = write_back sql m.db m.devices

  -- `htsn_device_manager_upsert`
  unfoldable pub upsert :
      ℤ → Manager H C U → Option Device → Error × Manager H C U × List (Call C U (Option Device))
  upsert now m none = (invalid_arg, m, [])
  upsert now m (some dev) =
      let copy : Device = stamped now dev in
      let stored = (db_devices.upsert sql m.db copy).1 in
      if has device_key copy.id m.devices
      then (
        ok,
        record m { devices = overwrite device_key copy m.devices; db = stored },
        publish_device_event m.model (codes "updated") copy,
      )
      else if leb max_db_devices (length m.devices)
      then (busy, m, [])
      else (
        ok,
        record m { devices = m.devices ++ (copy ∷ []); db = stored },
        publish_device_event m.model (codes "discovered") copy,
      )

  -- `htsn_device_manager_remove`
  unfoldable pub remove :
      Manager H C U → Option CString → Error × Manager H C U × List (Call C U (Option Device))
  remove m none = (invalid_arg, m, [])
  remove m (some id) = elim (find device_key id m.devices) [
    | none ↦ (not_found, m, [])
    | some removed ↦ (
      ok,
      record m { devices = erase device_key id m.devices; db = (db_devices.delete sql m.db id).1 },
      publish_device_event m.model (codes "removed") removed,
    )
  ]

  -- The loop of `htsn_device_manager_mark_offline_after`: the devices, the connection and the calls.
  unfoldable pub mark_each :
      Model C U → ℤ → H → List Device → List Device × H × List (Call C U (Option Device))
  mark_each model threshold h [] = ([], h, [])
  mark_each model threshold h (d ∷ ds) =
      let silent = is_silent threshold d in
      let d' : Device = if silent then record d { status = Status.offline } else d in
      let h' = if silent then (db_devices.set_status sql h d.id Status.offline).1 else h in
      let calls = if silent then publish_device_event model (codes "status") d' else [] in
      let (ds', h'', more) = mark_each model threshold h' ds in (d' ∷ ds', h'', calls ++ more)

  -- `htsn_device_manager_mark_offline_after`
  unfoldable pub mark_offline_after :
      Manager H C U → ℤ → Manager H C U × List (Call C U (Option Device))
  mark_offline_after m threshold =
      let (devices, h, calls) = mark_each m.model threshold m.db m.devices in
      (record m { devices = devices; db = h }, calls)

  -- The devices that one plugin finds, as `collect_plugin_devices` upserts them.
  unfoldable pub upsert_each :
      ℤ → Manager H C U → List Device → Manager H C U × List (Call C U (Option Device))
  upsert_each now m [] = (m, [])
  upsert_each now m (d ∷ ds) =
      let (result, m', calls) = upsert now m (some d) in
      let (m'', more) = upsert_each now m' ds in (m'', calls ++ more)

  -- `htsn_device_manager_record_heartbeat`
  unfoldable pub record_heartbeat :
      ℤ → Manager H C U → Option CString → Error × Manager H C U × List (Call C U (Option Device))
  record_heartbeat now m none = (invalid_arg, m, [])
  record_heartbeat now m (some id) = elim (find device_key id m.devices) [
    | none ↦ (not_found, m, [])
    | some d ↦ (
      ok,
      record m {
        devices = modify device_key id (beat now) m.devices;
        db = attempt sql m.db heartbeat_sql (int now ∷ int now ∷ int (pos 0) ∷ text id ∷ []);
      },
      if is_online d.status then [] else publish_device_event m.model (codes "status") (beat now d),
    )
  ]

  -- `htsn_device_manager_set_domain`
  unfoldable pub set_domain :
      Manager H C U → Option CString → Option CString → Error × Manager H C U
  set_domain m none domain = (invalid_arg, m)
  set_domain m (some id) none = (invalid_arg, m)
  set_domain m (some id) (some domain) =
      let home = λ (d : Device). record d { domain = copied max_str domain } in
      elim (find device_key id m.devices) [
        | none ↦ (not_found, m)
        | some d ↦ (
          ok,
          record m {
            devices = modify device_key id home m.devices;
            db = (db_devices.upsert sql m.db (home d)).1;
          },
        )
      ]

  -- `htsn_device_manager_set_health`
  unfoldable pub set_health :
      Manager H C U
      → Option CString
      → Status
      → Error × Manager H C U × List (Call C U (Option Device))
  set_health m none status = (invalid_arg, m, [])
  set_health m (some id) status =
      let judge = λ (d : Device). record d { status = status } in
      elim (find device_key id m.devices) [
        | none ↦ (not_found, m, [])
        | some d ↦ (
          ok,
          record m {
            devices = modify device_key id judge m.devices;
            db = (db_devices.set_status sql m.db id status).1;
          },
          publish_device_event m.model (codes "status") (judge d),
        )
      ]
