-- ===== src/Tests/Managers.antt =====
-- The managers' theorems at concrete inputs.
use wireless_tsn_configurato.Base.{
  ℕ, ◌≡◌, ◌≢◌, ◌⊎◌, ◌<◌, ◌≤◌, ◌+◌, All, map, List, refl, true, false, none, some, [], arith, length,
  if◌then◌else◌,
}
use wireless_tsn_configurato.Base.Int.{pos}
use wireless_tsn_configurato.Base.Text.{CString, codes, str_eq, is_empty}
use wireless_tsn_configurato.Base.Table.{text_eq, find, has}
use wireless_tsn_configurato.Common.{ok, not_found, invalid_arg, busy, net_error, max_devices}
use wireless_tsn_configurato.Common.StrUtil.{copied}
use wireless_tsn_configurato.Db.Engine.{copy_column}
use wireless_tsn_configurato.Common.StrUtil.{strlcpy}
use wireless_tsn_configurato.Db.Qos as db_qos
use wireless_tsn_configurato.Db.Tas as db_tas
use wireless_tsn_configurato.Db.Tsn as db_tsn
use wireless_tsn_configurato.Stream as stream_model
use wireless_tsn_configurato.Mqtt
use wireless_tsn_configurato.Stream.{Stream, Role, validate}
use wireless_tsn_configurato.Device.{Status}
use wireless_tsn_configurato.Db.Devices as db_devices
use wireless_tsn_configurato.Mqtt.{Client}
use wireless_tsn_configurato.Managers.Tsn as tsn
use wireless_tsn_configurato.Managers.Tsn.Table as tsn_table
use wireless_tsn_configurato.Managers.Tsn.Deploy as tsn_deploy
use wireless_tsn_configurato.Managers.Devices as devices
use wireless_tsn_configurato.Managers.Devices.Table as devices_table
use wireless_tsn_configurato.Managers.Devices.Liveness as devices_liveness
use wireless_tsn_configurato.Tests.World.{Store, empty_store, engine, wire}
use wireless_tsn_configurato.Tests.Data.{motor, camera, silent, stm, pi, streams, table}

-- Values

motor_twice : (tsn.add engine streams (some motor)).0 ≡ ok
unfolding tsn.add validate str_eq has
motor_twice = refl

silent_refused : tsn.add engine streams (some silent) ≡ (invalid_arg, streams, [])
unfolding tsn.add validate
silent_refused = refl

motor_gone : (tsn.remove engine streams (some (codes "motor"))).0 ≡ ok
unfolding tsn.remove find str_eq
motor_gone = refl

streams-IsSound : tsn_table.IsSound streams
unfolding str_eq
streams-IsSound = record { bounded = omega arith; unique = ((refl, tt), (tt, tt)) }

table-IsSound : devices_table.IsSound table
unfolding str_eq
table-IsSound = record { bounded = omega arith; unique = (tt, tt) }

abbrev client : Client (List CString)
client = record { client = some [] }

abbrev homes : tsn.Manager Store (List CString) ℕ ℕ
homes = record streams { db = record empty_store { device = db_devices.bind_device stm } }

motor_known : find tsn.stream_key (codes "motor") streams.streams ≡ some motor
unfolding find str_eq
motor_known = refl

stm_known : devices.get table (some (codes "stm")) ≡ some stm
unfolding devices.get find str_eq
stm_known = refl

homes_stored : All (λ d. is_empty d.domain ≡ false) (db_devices.all engine homes.db)
unfolding db_devices.all db_devices.row_to_device db_devices.bind_device db_devices.all_sql
    db_devices.features_sql db_qos.load_sql db_tsn.load_sql db_tsn.members_sql db_tas.entry_sql
    db_tas.entries_sql copy_column strlcpy db_devices.add_features
homes_stored = (refl, tt)

-- Applications

load-add_example :
    tsn.load (tsn.add engine streams (some motor)).1 (some (codes "camera")) ≡ (ok, some camera)
unfolding tsn.load find str_eq
load-add_example = tsn_table.load-add engine streams motor (codes "camera") motor_twice

add_refuses_example :
    (((tsn.add engine streams (some silent)).0 ≡ ok)
      × (validate silent ≡ ok)
      × ((has tsn.stream_key silent.stream_id streams.streams ≡ true) ⊎ (2 < max_devices)))
    ⊎ (((validate silent ≢ ok)
          ⊎ ((has tsn.stream_key silent.stream_id streams.streams ≡ false) × (max_devices ≤ 2)))
        × ((tsn.add engine streams (some silent)).0 ≢ ok)
        × ((tsn.add engine streams (some silent)).1 ≡ streams)
        × ((tsn.add engine streams (some silent)).2 ≡ []))
add_refuses_example = tsn_table.add_refuses engine streams silent

add-IsSound_example : tsn_table.IsSound (tsn.add engine streams (some motor)).1
add-IsSound_example = tsn_table.add-IsSound engine streams motor streams-IsSound

load-remove_example :
    let (result, m', calls) = tsn.remove engine streams (some (codes "motor")) in
    tsn_table.IsSound m'
    × ((k : CString)
        → tsn.load m' (some k)
          ≡ (if str_eq (codes "motor") k then (not_found, none) else tsn.load streams (some k)))
    × (((result ≡ ok) × (length m'.streams + 1 ≡ 2))
        ⊎ ((result ≡ not_found) × (m' ≡ streams) × (calls ≡ [])))
load-remove_example = tsn_table.load-remove engine streams (codes "motor") streams-IsSound

deploy_lem_example :
    let (sent, c') =
      Mqtt.publish wire client
        (some (tsn.stream_topic motor.talker))
        (copied 1024 (tsn.stream_json motor Role.talker)) in
    ((sent ≡ ok)
      × (tsn.deploy_scoped engine wire streams (some (codes "motor")) none ≡ (
        ok,
        record streams {
          mqtt = some (
              tsn_deploy.send_each wire
                (map
                  (tsn_deploy.message motor Role.listener)
                  (tsn_deploy.endpoints engine streams motor none))
                c');
          db = (db_tsn.set_status engine empty_store (codes "motor") stream_model.Status.ready).1;
        },
        tsn.notify streams.model
            (codes "deployed")
            (record motor { status = stream_model.Status.ready }),
      )))
    ⊎ ((sent ≢ ok)
        × (tsn.deploy_scoped engine wire streams (some (codes "motor")) none
            ≡ (net_error, record streams { mqtt = some c' }, [])))
deploy_lem_example =
    tsn_deploy.deploy_lem engine wire streams (codes "motor") motor none client motor_known refl

empty_scope_reaches_nobody_example :
    (tsn.publish_endpoints engine wire homes (some client) camera (some []) ≡ some client)
    × (tsn.publish_endpoints engine wire homes (some client) camera none
        ≡ some (
            tsn_deploy.send_each wire
              (map
                (tsn_deploy.message camera Role.listener)
                (tsn_deploy.others camera (db_devices.all engine homes.db)))
              client))
empty_scope_reaches_nobody_example =
    tsn_deploy.empty_scope_reaches_nobody engine wire homes camera client refl homes_stored

get-upsert_example :
    let (result, m', calls) = devices.upsert engine (pos 100) table (some pi) in
    ((result ≡ ok)
      × ((has devices.device_key pi.id table.devices ≡ true) ⊎ (1 < devices.max_db_devices))
      × devices_table.IsSound m'
      × ((k : CString)
          → devices.get m' (some k) ≡ (
              if str_eq pi.id k
              then some (record pi { last_seen = pos 100 })
              else devices.get table (some k))))
    ⊎ ((result ≡ busy)
        × (has devices.device_key pi.id table.devices ≡ false)
        × (1 ≡ devices.max_db_devices)
        × (m' ≡ table)
        × (calls ≡ []))
unfolding devices.stamped
get-upsert_example = devices_table.get-upsert engine (pos 100) table pi table-IsSound

get-mark_offline_after_example :
    devices.get (devices.mark_offline_after engine table (pos 100)).0 (some (codes "stm"))
    ≡ some (record stm { status = Status.offline })
unfolding devices.get find str_eq
get-mark_offline_after_example =
    devices_liveness.get-mark_offline_after engine table (pos 100) (codes "stm")

heartbeat_survives_example :
    let (result, m', calls) =
      devices.record_heartbeat engine (pos 200) table (some (codes "stm")) in
    let beaten = record stm { last_seen = pos 200; heartbeat_at = pos 200 } in
    (result ≡ ok)
    × (devices.get m' (some (codes "stm")) ≡ some beaten)
    × (devices.get (devices.mark_offline_after engine m' (pos 150)).0 (some (codes "stm"))
        ≡ some beaten)
unfolding devices.beat
heartbeat_survives_example =
    devices_liveness.heartbeat_survives engine (pos 200) (pos 150) table (codes "stm") stm stm_known
      refl
