-- ===== src/Mqtt.antt =====
-- src/mqtt/mqtt_client.c: publishing and subscribing. libmosquitto is a parameter: what its calls
-- return, and the client object afterwards.
use wireless_tsn_configurato.Base.{Bool, Option, none, some, if◌then◌else◌}
use wireless_tsn_configurato.Base.Text.{CString}
use wireless_tsn_configurato.Common.{Error, ok, invalid_arg, net_error}

pub record Mosquitto (B : Type 0) : Type 0 where
  -- `mosquitto_publish(…) == MOSQ_ERR_SUCCESS`, with QoS 0 and no retained message
  pub publish : B → CString → CString → Bool × B
  -- `mosquitto_subscribe(…) == MOSQ_ERR_SUCCESS`
  pub subscribe : B → CString → Bool × B

-- The part of `struct htsn_mqtt_client` that publishing reads; `client` is NULL until `connect`.
pub record Client (B : Type 0) : Type 0 where
  pub client : Option B

module _ {B : Type 0} (net : Mosquitto B) where
  -- `htsn_mqtt_client_publish`
  unfoldable pub publish : Client B → Option CString → CString → Error × Client B
  publish c none payload = (invalid_arg, c)
  publish c (some topic) payload = elim c.client [
    | none ↦ (invalid_arg, c)
    | some b ↦ (
      if (net.publish b topic payload).0 then ok else net_error,
      record c { client = some (net.publish b topic payload).1 },
    )
  ]

  -- `htsn_mqtt_client_subscribe`
  unfoldable pub subscribe : Client B → Option CString → Error × Client B
  subscribe c none = (invalid_arg, c)
  subscribe c (some topic) = elim c.client [
    | none ↦ (invalid_arg, c)
    | some b ↦ (
      if (net.subscribe b topic).0 then ok else net_error,
      record c { client = some (net.subscribe b topic).1 },
    )
  ]
