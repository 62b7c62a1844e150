-- ===== src/Managers/Tsn/Deploy.antt =====
-- What a deployment sends, to whom, and what it leaves behind.
use wireless_tsn_configurato.Base.{
  ◌≡◌, ◌≢◌, ◌⊎◌, refl, ◌∙◌, ap, true, false, not, ◌||◌, Option, none, some, List, [], ◌∷◌, map,
  if◌then◌else◌, Bool-cases, inl, inr, All,
}
use wireless_tsn_configurato.Base.Text.{CString, codes, is_empty, str_eq}
use wireless_tsn_configurato.Base.Table.{text_eq, find}
use wireless_tsn_configurato.Common.{Error, ok, net_error}
use wireless_tsn_configurato.Common.StrUtil.{copied}
use wireless_tsn_configurato.Device.{Device}
use wireless_tsn_configurato.Mqtt
use wireless_tsn_configurato.Mqtt.{Mosquitto, Client}
use wireless_tsn_configurato.Stream.{Status, Role, Stream}
use wireless_tsn_configurato.Db.Engine.{Sqlite}
use wireless_tsn_configurato.Db.Tsn as db_tsn
use wireless_tsn_configurato.Db.Devices as db_devices
use wireless_tsn_configurato.Db.Tsn.Members.{named}
use wireless_tsn_configurato.Managers.Tsn.{
  Manager, stream_key, stream_json, stream_topic, notify, publish_stream, publish_listeners,
  all_listener_cb, publish_all, deploy_scoped, deploy_stream, publish_endpoints,
}

-- The message for a device, cut to the buffer of 1024 bytes.
abbrev pub message : Stream → Role → CString → CString × CString
message s role device = (stream_topic device, copied 1024 (stream_json s role))

-- The messages, handed to the client one after the other, whatever becomes of each.
abbrev pub send_each : {B : Type 0} → Mosquitto B → List (CString × CString) → Client B → Client B
send_each net [] c = c
send_each net ((topic, payload) ∷ more) c =
    send_each net more (Mqtt.publish net c (some topic) payload).1

-- The devices that a wildcard stream is for: those with an id, but the talker, of the domain if one
-- is given.
abbrev pub targets : Stream → Option CString → List Device → List CString
targets s domain [] = []
targets s domain (d ∷ ds) =
    if is_empty d.id || str_eq d.id s.talker
    then targets s domain ds
    else if elim domain [ none ↦ false | some k ↦ not (str_eq d.domain k) ]
    then targets s domain ds
    else d.id ∷ targets s domain ds

-- The devices with an id, but the talker.
abbrev pub others : Stream → List Device → List CString
others s [] = []
others s (d ∷ ds) =
    if is_empty d.id || str_eq d.id s.talker then others s ds else d.id ∷ others s ds

targets-none : (s : Stream) (ds : List Device) → targets s none ds ≡ others s ds
targets-none s [] = refl
targets-none s (d ∷ ds) = rw (targets-none s ds)

-- A domain that is not empty differs from the empty text.
differs : (k : CString) → is_empty k ≡ false → str_eq k [] ≡ false
unfolding str_eq
differs [] h = cc
differs (c ∷ k) h = refl

targets_empty :
    (s : Stream) (ds : List Device)
    → All (λ d. is_empty d.domain ≡ false) ds
    → targets s (some []) ds ≡ []
targets_empty s [] h = refl
targets_empty s (d ∷ ds) h = elim (Bool-cases (is_empty d.id || str_eq d.id s.talker)) [
  | inl p ↦ rw p (targets_empty s ds h.1)
  | inr p ↦ rw (p, differs d.domain h.0) (targets_empty s ds h.1)
]

module _ {B : Type 0} (net : Mosquitto B) where
  publish_listeners-send_each :
      (s : Stream) (ls : List CString) (c : Client B)
      → publish_listeners net (some c) s ls
        ≡ some (send_each net (map (message s Role.listener) (named ls)) c)
  unfolding publish_listeners publish_stream
  publish_listeners-send_each s [] c = refl
  publish_listeners-send_each s (l ∷ ls) c = elim (Bool-cases (is_empty l)) [
    | inl p ↦ rw p (publish_listeners-send_each s ls c)
    | inr p ↦ rw p (publish_listeners-send_each s ls _)
  ]

  publish_all-send_each :
      (s : Stream) (domain : Option CString) (ds : List Device) (c : Client B)
      → publish_all net (some c) s domain ds
        ≡ some (send_each net (map (message s Role.listener) (targets s domain ds)) c)
  unfolding publish_all all_listener_cb publish_stream
  publish_all-send_each s domain [] c = refl
  publish_all-send_each s domain (d ∷ ds) c =
      elim (Bool-cases (is_empty d.id || str_eq d.id s.talker)) [
        | inl p ↦ rw p (publish_all-send_each s domain ds c)
        | inr p ↦
            elim (Bool-cases (elim domain [ none ↦ false | some k ↦ not (str_eq d.domain k) ])) [
              | inl q ↦ rw (p, q) (publish_all-send_each s domain ds c)
              | inr q ↦ rw (p, q) (publish_all-send_each s domain ds _)
            ]
      ]

-- To whom a deployment of a stream goes, behind its talker.
abbrev pub endpoints :
    {H B C U : Type 0} → Sqlite H → Manager H B C U → Stream → Option CString → List CString
endpoints sql m s domain =
    if s.listener_all
    then targets s domain (elim domain [
      | none ↦ db_devices.all sql m.db
      | some d ↦ if is_empty d then db_devices.all sql m.db else db_devices.in_domain sql m.db d
    ])
    else named s.listeners

module _ {H B C U : Type 0} (sql : Sqlite H) (net : Mosquitto B) (m : Manager H B C U) where
  publish_endpoints-send_each :
      (s : Stream) (domain : Option CString) (c : Client B)
      → publish_endpoints sql net m (some c) s domain
        ≡ some (send_each net (map (message s Role.listener) (endpoints sql m s domain)) c)
  unfolding publish_endpoints
  publish_endpoints-send_each s domain c = elim (Bool-cases s.listener_all) [
    | inl p ↦ simp p (publish_all-send_each net s domain _ c)
    | inr p ↦ simp p (publish_listeners-send_each net s s.listeners c)
  ]

  -- A deployment with the empty text for a scope sends a wildcard stream to no endpoint at all, where
  -- every stored device has a domain; without a scope the stream goes to every stored device that has
  -- an id and is not the talker.
  pub empty_scope_reaches_nobody :
      (s : Stream) (c : Client B)
      → s.listener_all ≡ true
      → All (λ d. is_empty d.domain ≡ false) (db_devices.all sql m.db)
      → (publish_endpoints sql net m (some c) s (some []) ≡ some c)
        × (publish_endpoints sql net m (some c) s none
            ≡ some (
                send_each net
                  (map (message s Role.listener) (others s (db_devices.all sql m.db)))
                  c))
  unfolding publish_endpoints
  empty_scope_reaches_nobody s c wild homes = (
    simp wild (
        publish_all-send_each net s (some []) (db_devices.all sql m.db) c
        ∙ ap (λ ids. some (send_each net (map (message s Role.listener) ids) c))
            (targets_empty s (db_devices.all sql m.db) homes)),
    simp wild (
        publish_all-send_each net s none (db_devices.all sql m.db) c
        ∙ ap (λ ids. some (send_each net (map (message s Role.listener) ids) c))
            (targets-none s (db_devices.all sql m.db))),
  )

  -- A stream of the table is deployed over a client. If the client takes the message for the talker,
  -- the deployment succeeds: the messages for the endpoints follow in order, whatever becomes of each
  -- of them, the stored state becomes `ready`, and "deployed" is published. If not, the result is a
  -- network error, and only the client has changed. The table is the same in both cases.
  pub deploy_lem :
      (stream_id : CString) (s : Stream) (domain : Option CString) (c : Client B)
      → find stream_key stream_id m.streams ≡ some s
      → m.mqtt ≡ some c
      → let (sent, c') =
          Mqtt.publish net c
            (some (stream_topic s.talker))
            (copied 1024 (stream_json s Role.talker)) in
        ((sent ≡ ok)
          × (deploy_scoped sql net m (some stream_id) domain ≡ (
            ok,
            record m {
              mqtt =
                  some
                    (send_each net (map (message s Role.listener) (endpoints sql m s domain)) c');
              db = (db_tsn.set_status sql m.db stream_id Status.ready).1;
            },
            notify m.model (codes "deployed") (record s { status = Status.ready }),
          )))
        ⊎ ((sent ≢ ok)
            × (deploy_scoped sql net m (some stream_id) domain
                ≡ (net_error, record m { mqtt = some c' }, [])))
  unfolding deploy_scoped deploy_stream publish_stream
  deploy_lem stream_id s domain c found linked =
      rw (found, deploy_scoped)
        (rw (linked, deploy_scoped) (go (Mqtt.publish net c (some topic) payload).0 refl))
    where
      topic : CString
      topic = stream_topic s.talker

      payload : CString
      payload = copied 1024 (stream_json s Role.talker)

      c' : Client B
      c' = (Mqtt.publish net c (some topic) payload).1

      go :
          (e : Error)
          → (Mqtt.publish net c (some topic) payload).0 ≡ e
          → (((Mqtt.publish net c (some topic) payload).0 ≡ ok)
              × (deploy_stream sql net m c stream_id s domain ≡ (
                ok,
                record m {
                  mqtt =
                      some (
                        send_each net
                          (map (message s Role.listener) (endpoints sql m s domain))
                          c');
                  db = (db_tsn.set_status sql m.db stream_id Status.ready).1;
                },
                notify m.model (codes "deployed") (record s { status = Status.ready }),
              )))
            ⊎ (((Mqtt.publish net c (some topic) payload).0 ≢ ok)
                × (deploy_stream sql net m c stream_id s domain
                    ≡ (net_error, record m { mqtt = some c' }, [])))
      go ok p =
          inl (
            p,
            rw (p, deploy_stream, publish_stream) (rw (publish_endpoints-send_each s domain c')),
          )
      go e p = inr (rw p (λ q. cc), rw (p, deploy_stream, publish_stream))
