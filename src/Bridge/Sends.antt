-- ===== src/Bridge/Sends.antt =====
-- Whither the parts of a turn of rpi-tsn/tsn_opcua_bridge.c send.
use mathlib.Core.Path.{subst}
use wireless_tsn_configurato.Base.{
  ℕ, ◌≡◌, ◌∙◌, refl, Bool, ◌&&◌, not, Option, none, some, List, [], ◌∷◌, ◌++◌, arith, All,
  All-append, Bool-cases, Option-cases, inl, inr, if◌then◌else◌, if_both, length, ◌+◌, ltb, ◌==◌,
}
use wireless_tsn_configurato.Base.Int.{ℤ}
use wireless_tsn_configurato.Base.Text.{CString}
use wireless_tsn_configurato.Endpoint.{cfg_len, until_nul}
use wireless_tsn_configurato.Frame.{pack, bytes16, max_payload}
use wireless_tsn_configurato.Bridge.{Address, Effect, write, datagram}
use wireless_tsn_configurato.Bridge.Reports.{
  on_telemetry, on_sweep, on_buttons, on_actuator, on_ptp, on_applied,
}
use wireless_tsn_configurato.Bridge.Commands.{
  on_change, Bridge, Nodes, attempted, send_frame, send_cmd_kind, push_tsn_config, poll_config,
  keepalive, poll_servo, poll_relay, poll_beep, poll_trigger, poll_commands, cfg_payload,
}

-- A datagram goes to the address that is known, if one is.
abbrev pub SentTo : Option Address → Effect → Type 0
SentTo ep (datagram a frame) = ep ≡ some a
SentTo ep (write node v) = Unit

-- An operation leaves the address alone, and sends to no other.
abbrev pub Keeps : Option Address → Bridge × List Effect → Type 0
Keeps ep r = (r.0.ep ≡ ep) × All (SentTo ep) r.1

change-SentTo :
    (ep : Option Address) (primed : Bool) (a last : ℕ) (es : List Effect)
    → All (SentTo ep) es
    → All (SentTo ep) (on_change primed a last es)
change-SentTo ep primed a last es h =
    if_both (All (SentTo ep)) (primed && not (a == last)) {x = es} {y = []} h tt

-- The effects of a part and of what follows it.
pub joined :
    {ep ep' : Option Address}
    → ep' ≡ ep
    → (xs ys : List Effect) → All (SentTo ep) xs
    → All (SentTo ep') ys
    → All (SentTo ep) (xs ++ ys)
joined {ep} e xs ys h k = All-append (SentTo ep) xs ys h (subst (λ o. All (SentTo o) ys) e k)

module _ (sends : List ℕ → Bool) where
  send_frame-SentTo :
      (s : Bridge) (type kind : ℕ) (pl : List ℕ)
      → All (SentTo s.ep) (attempted (send_frame sends s type kind pl))
  unfolding send_frame
  send_frame-SentTo s type kind pl = elim (Option-cases s.ep) [
    | inl e ↦ rw (e, send_frame) tt
    | inr (ep, e) ↦ elim (Option-cases (pack type kind pl)) [
      | inl p ↦ rw (e, send_frame) (rw p tt)
      | inr (frame, p) ↦ elim (Bool-cases (sends frame)) [
        | inl t ↦ rw (e, send_frame) (rw p (rw t (refl, tt)))
        | inr t ↦ rw (e, send_frame) (rw p (rw t tt))
      ]
    ]
  ]

  push-Keeps : (s : Bridge) (json : CString) → Keeps s.ep (push_tsn_config sends s json)
  unfolding push_tsn_config
  push-Keeps s json =
      let sent = send_frame-SentTo s 0 7 (cfg_payload json) in
      elim (Option-cases (send_frame sends s 0 7 (cfg_payload json))) [
        | inl e ↦ rw (e, push_tsn_config) (refl, tt)
        | inr (d, e) ↦ rw (e, push_tsn_config) (refl, (let h = rw e at sent in h))
      ]

  cmd-SentTo :
      (s : Bridge) (kind : ℕ) (pl : List ℕ) → All (SentTo s.ep) (send_cmd_kind sends s kind pl)
  unfolding send_cmd_kind
  cmd-SentTo s kind pl = send_frame-SentTo s 0 kind pl

  config-Keeps : (s : Bridge) (text : Option CString) → Keeps s.ep (poll_config sends s text)
  unfolding poll_config
  config-Keeps s none = (refl, tt)
  config-Keeps s (some text) = if_both (Keeps s.ep) _ (push-Keeps s _) (refl, tt)

  keepalive-Keeps : (now : ℤ) (s : Bridge) → Keeps s.ep (keepalive sends now s)
  unfolding keepalive
  keepalive-Keeps now s =
      let again = push-Keeps s s.last_tsn in if_both (Keeps s.ep) _ (again.0, again.1) (refl, tt)

  servo-Keeps : (s : Bridge) (a : Option ℕ) → Keeps s.ep (poll_servo sends s a)
  unfolding poll_servo
  servo-Keeps s none = (refl, tt)
  servo-Keeps s (some a) =
      (refl, change-SentTo s.ep s.primed a s.last_servo _ (cmd-SentTo s 1 (bytes16 a)))

  relay-Keeps : (s : Bridge) (b : Option ℕ) → Keeps s.ep (poll_relay sends s b)
  unfolding poll_relay
  relay-Keeps s none = (refl, tt)
  relay-Keeps s (some b) = (
    refl,
    change-SentTo s.ep s.primed b s.last_relay _ (cmd-SentTo s 3 ((if b == 0 then 0 else 1) ∷ [])),
  )

  beep-Keeps : (s : Bridge) (ms : Option ℕ) → Keeps s.ep (poll_beep sends s ms)
  unfolding poll_beep
  beep-Keeps s none = (refl, tt)
  beep-Keeps s (some ms) =
      (refl, change-SentTo s.ep s.primed ms s.last_beep _ (cmd-SentTo s 4 (bytes16 ms)))

  trigger-SentTo :
      (s : Bridge) (kind node : ℕ) (v : Option ℕ)
      → All (SentTo s.ep) (poll_trigger sends s kind node v)
  unfolding poll_trigger
  trigger-SentTo s kind node none = tt
  trigger-SentTo s kind node (some v) = if_both (All (SentTo s.ep)) (v == 0) tt (
      All-append (SentTo s.ep) (send_cmd_kind sends s kind []) _ (cmd-SentTo s kind [])
        (omega arith))

  pub poll-Keeps : (now : ℤ) (n : Nodes) (s : Bridge) → Keeps s.ep (poll_commands sends now n s)
  unfolding poll_commands
  poll-Keeps now n s =
      let r1 = poll_config sends s n.tsn_config in
      let r2 = keepalive sends now r1.0 in
      let r3 = poll_servo sends r2.0 n.servo_angle in
      let r4 = poll_relay sends r3.0 n.relay_on in
      let r5 = poll_beep sends r4.0 n.beep_ms in
      let k1 = config-Keeps s n.tsn_config in
      let k2 = keepalive-Keeps now r1.0 in
      let k3 = servo-Keeps r2.0 n.servo_angle in
      let k4 = relay-Keeps r3.0 n.relay_on in
      let k5 = beep-Keeps r4.0 n.beep_ms in
      let trig = poll_trigger sends r5.0 2 24 n.sonar_trig in
      let reb = poll_trigger sends r5.0 6 25 n.reboot in
      (
        k5.0 ∙ (k4.0 ∙ (k3.0 ∙ (k2.0 ∙ k1.0))),
        joined k1.0 r1.1 _ k1.1 (
            joined k2.0 r2.1 _ k2.1 (
              joined k3.0 r3.1 _ k3.1 (
                joined k4.0 r4.1 _ k4.1 (
                  joined k5.0 r5.1 _ k5.1 (
                    All-append (SentTo r5.0.ep) trig reb (trigger-SentTo r5.0 2 24 n.sonar_trig)
                      (trigger-SentTo r5.0 6 25 n.reboot)))))),
      )

module _ (ep : Option Address) where
  abbrev Told : List Effect → Type 0
  Told = All (SentTo ep)

  sweep-Told : (pl : List ℕ) → Told (on_sweep pl)
  unfolding on_sweep
  sweep-Told pl = if_both Told (ltb (length pl) 4) tt (omega arith)

  buttons-Told : (pl : List ℕ) → Told (on_buttons pl)
  unfolding on_buttons
  buttons-Told [] = tt
  buttons-Told (m ∷ pl) = (omega arith)

  applied-Told : (pl : List ℕ) → Told (on_applied pl)
  unfolding on_applied
  applied-Told pl = if_both Told (ltb (length pl) cfg_len) tt (omega arith)

  text-Told :
      (pl : List ℕ) (es : List Effect)
      → Told es
      → Told (if ltb (length pl) (max_payload + 1) then es else [])
  text-Told pl es h = if_both Told (ltb (length pl) (max_payload + 1)) h tt

  pub reports-SentTo : (kind : ℕ) (pl : List ℕ) → Told (on_telemetry kind pl)
  unfolding on_telemetry on_actuator on_ptp
  reports-SentTo kind pl = if_both Told (kind == 2) (sweep-Told pl) (
      if_both Told (kind == 3) (buttons-Told pl) (
        if_both Told (kind == 4) (text-Told pl (on_actuator (until_nul pl)) (omega arith)) (
          if_both Told (kind == 5) (text-Told pl (on_ptp (until_nul pl)) (omega arith))
            (if_both Told (kind == 6) (applied-Told pl) tt))))
