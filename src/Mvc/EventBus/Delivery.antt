-- ===== src/Mvc/EventBus/Delivery.antt =====
-- Whom a published event reaches.
use wireless_tsn_configurato.Base.{
  ◌≤◌, ◌<◌, ◌≡◌, refl, Bool, false, ◌||◌, Option, none, some, List, [], ◌∷◌, ◌++◌, arith, leb,
  if◌then◌else◌, length, length-append, Bool-cases, inl, inr,
}
use wireless_tsn_configurato.Base.Text.{CString, codes, str_eq}
use wireless_tsn_configurato.Common.{ok, max_str}
use wireless_tsn_configurato.Common.StrUtil.{copied, starts_with}
use wireless_tsn_configurato.Mvc.EventBus.{
  max_subscribers, Subscription, EventBus, subscribe, matches, select, call_each, publish,
}

-- Whether a topic reaches a subscription that was made for `wanted`.
abbrev pub reaches : CString → CString → Bool
reaches topic wanted =
    starts_with topic (copied max_str wanted) || str_eq (copied max_str wanted) (codes "*")

module _ {C U D : Type 0} where
  call_each-select-append :
      (topic : CString) (payload : D) (ss : List (Subscription C U)) (s : Subscription C U)
      → call_each topic payload (select topic (ss ++ s ∷ []))
        ≡ call_each topic payload (select topic ss)
          ++ (if matches topic s
              then record { cb = s.cb; topic = topic; payload = payload; userdata = s.userdata }
                ∷ []
              else [])
  unfolding select call_each
  call_each-select-append topic payload [] s = elim (Bool-cases (matches topic s)) [
    | inl p ↦ rw p
    | inr p ↦ rw p
  ]
  call_each-select-append topic payload (t ∷ ss) s = elim (Bool-cases (matches topic t)) [
    | inl p ↦ rw p (rw (call_each-select-append topic payload ss s))
    | inr p ↦ rw p (call_each-select-append topic payload ss s)
  ]

  -- With room on the bus a subscription is accepted, and from then on a published event runs the
  -- callbacks that it ran before, in their order, and after them the new one, exactly when the
  -- subscribed topic (cut to the buffer) is a prefix of the event's topic or is "*".
  pub publish-subscribe :
      (bus : EventBus C U) (wanted topic : CString) (cb : C) (userdata : U) (payload : D)
      → length bus.subs < max_subscribers
      → ((subscribe bus (some wanted) (some cb) userdata).0 ≡ ok)
        × (publish (subscribe bus (some wanted) (some cb) userdata).1 (some topic) payload
            ≡ publish bus (some topic) payload
              ++ (if reaches topic wanted
                  then record { cb = cb; topic = topic; payload = payload; userdata = userdata }
                    ∷ []
                  else []))
  unfolding subscribe publish matches
  publish-subscribe bus wanted topic cb userdata payload h =
      let room : leb max_subscribers (length bus.subs) ≡ false = ground arith in
      rw room (
        refl,
        call_each-select-append topic payload bus.subs
            (record { topic = copied max_str wanted; cb = cb; userdata = userdata }),
      )

module _ {C U : Type 0} where
  -- Every call keeps the subscriptions within the array, and a full bus refuses and is unchanged.
  pub subscribe-bounded :
      (bus : EventBus C U) (topic : Option CString) (cb : Option C) (userdata : U)
      → length bus.subs ≤ max_subscribers
      → (length (subscribe bus topic cb userdata).1.subs ≤ max_subscribers)
        × (length bus.subs ≡ max_subscribers → (subscribe bus topic cb userdata).1 ≡ bus)
  unfolding subscribe
  subscribe-bounded bus none cb userdata h = (h, λ _. refl)
  subscribe-bounded bus (some topic) none userdata h = (h, λ _. refl)
  subscribe-bounded bus (some topic) (some cb) userdata h =
      elim (Bool-cases (leb max_subscribers (length bus.subs))) [
        | inl full ↦ rw full (h, λ _. refl)
        | inr room ↦ rw room (
          rw length-append (ground arith),
          λ (e : length bus.subs ≡ max_subscribers). absurd (ground arith),
        )
      ]
