-- ===== src/Managers/Tsn.antt =====
-- src/stream/tsn_manager.c: the CNC's table of streams.
pub mod Table
pub mod Deploy
use wireless_tsn_configurato.Base.{
  ℕ, Bool, true, false, ◌&&◌, ◌||◌, not, Option, none, some, List, [], ◌∷◌, ◌++◌, leb,
  if◌then◌else◌, length, take,
}
use wireless_tsn_configurato.Base.Text.{CString, codes, is_empty, str_eq}
use wireless_tsn_configurato.Base.Table.{text_eq, find, has, overwrite, erase}
use wireless_tsn_configurato.Common.{
  Error, ok, invalid_arg, not_found, busy, not_ready, net_error, max_str, max_devices,
}
use wireless_tsn_configurato.Common.StrUtil.{copied}
use wireless_tsn_configurato.Decimal.{show_ℤ}
use wireless_tsn_configurato.Mvc.EventBus.{EventBus, Call}
use wireless_tsn_configurato.Mvc.Model
use wireless_tsn_configurato.Mvc.Model.{Model}
use wireless_tsn_configurato.Mqtt
use wireless_tsn_configurato.Mqtt.{Mosquitto, Client}
use wireless_tsn_configurato.Stream.{Status, Role, Stream, validate, status_str, role_str}
use wireless_tsn_configurato.Device.{Device}
use wireless_tsn_configurato.Db.Engine.{Sqlite}
use wireless_tsn_configurato.Db.Tsn as db_tsn
use wireless_tsn_configurato.Db.Devices as db_devices

-- `struct htsn_tsn_manager`: `streams[0 .. count)` is a list.
pub record Manager (H B C U : Type 0) : Type 0 where
  pub db : H
  pub mqtt : Option (Client B)
  pub model : Model C U
  pub streams : List Stream

abbrev pub stream_key : Stream → CString
stream_key s = s.stream_id

-- The JSON text that an endpoint is sent, before it is cut to 1023 bytes.
unfoldable pub stream_json : Stream → Role → CString
stream_json s role =
    codes "{\"stream\":\""
    ++ (s.stream_id
        ++ (codes "\",\"name\":\""
            ++ (s.name
                ++ (codes "\",\"role\":\""
                    ++ (role_str role
                        ++ (codes "\",\"talker\":\""
                            ++ (s.talker
                                ++ (codes "\",\"vlan_id\":"
                                    ++ (show_ℤ s.vlan_id
                                        ++ (codes ",\"latency_ns\":"
                                            ++ (show_ℤ s.max_latency_ns
                                                ++ (codes ",\"interval_ns\":"
                                                    ++ (show_ℤ s.max_interval_ns
                                                        ++ (codes ",\"priority\":"
                                                            ++ (show_ℤ s.priority
                                                            ++ (codes ",\"dfprio\":"
                                                            ++ (show_ℤ s.data_frame_prio
                                                            ++ (codes ",\"status\":\""
                                                            ++ (status_str s.status
                                                            ++ codes "\"}")))))))))))))))))))

unfoldable pub stream_topic : CString → CString
stream_topic device = copied max_str (codes "tsn/cmd/" ++ (device ++ codes "/stream"))

module _ {C U : Type 0} where
  -- `notify`
  unfoldable pub notify : Model C U → CString → Stream → List (Call C U (Option Stream))
  notify model ev s = Model.notify_data model (some (copied max_str ev)) (some s)

module _ {B : Type 0} (net : Mosquitto B) where
  -- `publish_stream`
  unfoldable pub publish_stream :
      Option (Client B) → CString → Stream → Role → Error × Option (Client B)
  publish_stream none device s role = (not_ready, none)
  publish_stream (some c) device s role =
      let (result, c') =
        Mqtt.publish net c (some (stream_topic device)) (copied 1024 (stream_json s role)) in
      (elim result [ ok ↦ ok | _ ↦ net_error ], some c')

  -- The loop over `listeners`.
  unfoldable pub publish_listeners : Option (Client B) → Stream → List CString → Option (Client B)
  publish_listeners mqtt s [] = mqtt
  publish_listeners mqtt s (l ∷ ls) =
      publish_listeners (if is_empty l then mqtt else (publish_stream mqtt l s Role.listener).1) s
        ls

  -- `all_listener_cb`; `domain` is NULL for all domains.
  unfoldable pub all_listener_cb :
      Option (Client B) → Stream → Option CString → Device → Option (Client B)
  all_listener_cb mqtt s domain dev =
      if is_empty dev.id || str_eq dev.id s.talker
      then mqtt
      else if elim domain [ none ↦ false | some d ↦ not (str_eq dev.domain d) ]
      then mqtt
      else (publish_stream mqtt dev.id s Role.listener).1

  unfoldable pub publish_all :
      Option (Client B) → Stream → Option CString → List Device → Option (Client B)
  publish_all mqtt s domain [] = mqtt
  publish_all mqtt s domain (d ∷ ds) = publish_all (all_listener_cb mqtt s domain d) s domain ds

module _ {H B C U : Type 0} (sql : Sqlite H) where
  -- `htsn_tsn_manager_create`: the bus and the MQTT client may be NULL.
  unfoldable pub create : H → Option (EventBus C U) → Option (Client B) → Manager H B C U
  create db bus mqtt = record {
    db = db;
    mqtt = mqtt;
    model = Model.init (codes "tsn") bus;
    streams = take max_devices (db_tsn.all sql db);
  }

  -- `htsn_tsn_manager_add`
  unfoldable pub add :
      Manager H B C U → Option Stream → Error × Manager H B C U × List (Call C U (Option Stream))
  add m none = (invalid_arg, m, [])
  add m (some s) = elim (validate s) [
    | ok ↦
        (let stored = (db_tsn.save sql m.db s).1 in
          if has stream_key s.stream_id m.streams
          then (
            ok,
            record m { streams = overwrite stream_key s m.streams; db = stored },
            notify m.model (codes "updated") s,
          )
          else if leb max_devices (length m.streams)
          then (busy, m, [])
          else (
            ok,
            record m { streams = m.streams ++ (s ∷ []); db = stored },
            notify m.model (codes "created") s,
          ))
    | e ↦ (e, m, [])
  ]

  -- `htsn_tsn_manager_remove`
  unfoldable pub remove :
      Manager H B C U → Option CString → Error × Manager H B C U × List (Call C U (Option Stream))
  remove m none = (invalid_arg, m, [])
  remove m (some stream_id) = elim (find stream_key stream_id m.streams) [
    | none ↦ (not_found, m, [])
    | some removed ↦ (
      ok,
      record m {
        streams = erase stream_key stream_id m.streams;
        db = (db_tsn.delete sql m.db stream_id).1;
      },
      notify m.model (codes "removed") removed,
    )
  ]

module _ {H B C U : Type 0} where
  -- `htsn_tsn_manager_set_mqtt`
  unfoldable pub set_mqtt : Manager H B C U → Option (Client B) → Manager H B C U
  set_mqtt m mqtt = record m { mqtt = mqtt }

  -- `htsn_tsn_manager_count`
  unfoldable pub count : Manager H B C U → ℕ
  count m = length m.streams

  -- `htsn_tsn_manager_load`: the result and, with `ok`, what `*out` is set to.
  unfoldable pub load : Manager H B C U → Option CString → Error × Option Stream
  load m none = (invalid_arg, none)
  load m (some stream_id) = elim (find stream_key stream_id m.streams) [
    | none ↦ (not_found, none)
    | some s ↦ (ok, some s)
  ]

module _ {H B C U : Type 0} (sql : Sqlite H) (net : Mosquitto B) where
  -- The endpoints of `deploy_scoped` behind the talker.
  unfoldable pub publish_endpoints :
      Manager H B C U → Option (Client B) → Stream → Option CString → Option (Client B)
  publish_endpoints m mqtt s domain =
      if s.listener_all
      then publish_all net mqtt s domain (elim domain [
        | none ↦ db_devices.all sql m.db
        | some d ↦ if is_empty d then db_devices.all sql m.db else db_devices.in_domain sql m.db d
      ])
      else publish_listeners net mqtt s s.listeners

  deploy_stream :
      Manager H B C U
      → Client B
      → CString
      → Stream
      → Option CString
      → Error × Manager H B C U × List (Call C U (Option Stream))
  deploy_stream m c stream_id s domain =
      let (sent, mqtt) = publish_stream net (some c) s.talker s Role.talker in
      elim sent [
        | ok ↦ (
          ok,
          record m {
            mqtt = publish_endpoints m mqtt s domain;
            db = (db_tsn.set_status sql m.db stream_id Status.ready).1;
          },
          notify m.model (codes "deployed") (record s { status = Status.ready }),
        )
        | _ ↦ (net_error, record m { mqtt = mqtt }, [])
      ]

  -- `deploy_scoped`
  unfoldable pub deploy_scoped :
      Manager H B C U
      → Option CString
      → Option CString
      → Error × Manager H B C U × List (Call C U (Option Stream))
  unfolding deploy_stream
  deploy_scoped m none domain = (invalid_arg, m, [])
  deploy_scoped m (some stream_id) domain = elim (find stream_key stream_id m.streams) [
    | none ↦ (not_found, m, [])
    | some s ↦ elim m.mqtt [
      | none ↦ (not_ready, m, [])
      | some c ↦ deploy_stream m c stream_id s domain
    ]
  ]

  -- `htsn_tsn_manager_deploy`
  unfoldable pub deploy :
      Manager H B C U → Option CString → Error × Manager H B C U × List (Call C U (Option Stream))
  deploy m stream_id = deploy_scoped m stream_id none

  -- `stream_in_domain`
  unfoldable pub stream_in_domain : Manager H B C U → CString → Option CString → Bool
  stream_in_domain m stream_id none = true
  stream_in_domain m stream_id (some domain) =
      if is_empty domain then true else elim (find stream_key stream_id m.streams) [
        | none ↦ true
        | some s ↦ elim (db_devices.get sql m.db s.talker).1 [
          | none ↦ true
          | some talker ↦ is_empty talker.domain || str_eq talker.domain domain
        ]
      ]

  -- The walk of `htsn_tsn_manager_deploy_all` with `deploy_cb`. Deploying leaves the table alone.
  unfoldable pub deploy_each :
      Manager H B C U
      → Option CString
      → List Stream
      → Manager H B C U × List (Call C U (Option Stream))
  deploy_each m domain [] = (m, [])
  deploy_each m domain (s ∷ ss) =
      let (result, m', calls) =
        if stream_in_domain m s.stream_id domain
        then deploy_scoped m (some s.stream_id) domain
        else (ok, m, []) in
      let (m'', more) = deploy_each m' domain ss in (m'', calls ++ more)

  -- `htsn_tsn_manager_deploy_all`
  unfoldable pub deploy_all :
      Manager H B C U → Option CString → Error × Manager H B C U × List (Call C U (Option Stream))
  deploy_all m domain = let (m', calls) = deploy_each m domain m.streams in (ok, m', calls)
