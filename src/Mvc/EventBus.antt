-- ===== src/Mvc/EventBus.antt =====
-- src/mvc/event_bus.c. The mutex is held while the subscriptions are read or changed, so each
-- function is one step on them; the callbacks run after it is released, on a copy.
pub mod Delivery
use wireless_tsn_configurato.Base.{
  ℕ, Bool, ◌||◌, Option, none, some, List, [], ◌∷◌, ◌++◌, leb, if◌then◌else◌, length,
}
use wireless_tsn_configurato.Base.Text.{CString, codes, str_eq}
use wireless_tsn_configurato.Common.{Error, ok, invalid_arg, busy, max_str}
use wireless_tsn_configurato.Common.StrUtil.{copied, starts_with}

abbrev pub max_subscribers : ℕ
max_subscribers = 64

-- `subscription`; a callback and its user data are names for what the client passed.
pub record Subscription (C U : Type 0) : Type 0 where
  pub topic : CString
  pub cb : C
  pub userdata : U

-- `struct htsn_event_bus`: `subs[0 .. num_subs)`.
pub record EventBus (C U : Type 0) : Type 0 where
  pub subs : List (Subscription C U)

-- One call `cb(topic, data, userdata)`.
pub record Call (C U D : Type 0) : Type 0 where
  pub cb : C
  pub topic : CString
  pub payload : D
  pub userdata : U

module _ {C U : Type 0} where
  -- `htsn_event_bus_create`
  pub create : EventBus C U
  create = record { subs = [] }

  -- `htsn_event_bus_subscribe`
  unfoldable pub subscribe : EventBus C U → Option CString → Option C → U → Error × EventBus C U
  subscribe bus none cb userdata = (invalid_arg, bus)
  subscribe bus (some topic) none userdata = (invalid_arg, bus)
  subscribe bus (some topic) (some cb) userdata =
      if leb max_subscribers (length bus.subs) then (busy, bus) else (
        ok,
        record {
          subs =
              bus.subs
              ++ (record { topic = copied max_str topic; cb = cb; userdata = userdata } ∷ []);
        },
      )

  -- The test of `htsn_event_bus_publish`: the subscription is a prefix of the topic, or "*".
  unfoldable pub matches : CString → Subscription C U → Bool
  matches topic s = starts_with topic s.topic || str_eq s.topic (codes "*")

  -- `local[0 .. n)`
  unfoldable pub select : CString → List (Subscription C U) → List (Subscription C U)
  select topic [] = []
  select topic (s ∷ ss) = if matches topic s then s ∷ select topic ss else select topic ss

  module _ {D : Type 0} where
    unfoldable pub call_each : CString → D → List (Subscription C U) → List (Call C U D)
    call_each topic payload [] = []
    call_each topic payload (s ∷ ss) =
        record { cb = s.cb; topic = topic; payload = payload; userdata = s.userdata }
        ∷ call_each topic payload ss

    -- `htsn_event_bus_publish`: the callbacks that run, in order.
    unfoldable pub publish : EventBus C U → Option CString → D → List (Call C U D)
    publish bus none payload = []
    publish bus (some topic) payload = call_each topic payload (select topic bus.subs)
