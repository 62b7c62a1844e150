-- ===== src/Ptp/Lock.antt =====
-- Whether the slave ever follows its grandmaster.
use wireless_tsn_configurato.Base.{
  ℕ, ◌≡◌, ◌≢◌, refl, true, false, ◌&&◌, Option, none, some, is_some, List, [], ◌∷◌, arith, All,
  Bool-cases, inl, inr,
}
use wireless_tsn_configurato.Base.Int.{pos}
use wireless_tsn_configurato.Ptp.{
  Packet, Slave, Turn, boot, ptp_type, sync_type, delay_resp_type, handle_packet, learn, ask, turn,
  turns,
}

-- The clock runs as at the start, and a time of reception is kept only from a known grandmaster.
record Unsteered {A : Type 0} (s : Slave A) : Type 0 where
  clock : s.c_ns ≡ 0
  offset : s.last_offset_ns ≡ pos 0
  free : s.locked ≡ false
  known : s.have_s2 ≡ true → is_some s.gm ≡ true

-- The ports of the messages: SYNC and DELAY_REQ go to the event port, the others to the general one.
pub record OnItsPort {A : Type 0} (r : Turn A) : Type 0 where
  pub event : (src : A) (p : Packet) → r.event ≡ some (src, p) → ptp_type p ≢ delay_resp_type
  pub general : (p : Packet) → r.general ≡ some p → ptp_type p ≢ sync_type

module _ {A : Type 0} where
  learn-Unsteered :
      (src : A) (s : Slave A)
      → Unsteered s
      → Unsteered (learn src s) × (is_some (learn src s).gm ≡ true)
  unfolding learn
  learn-Unsteered src s v = elim (Bool-cases (is_some s.gm)) [
    | inl p ↦ rw p (v, p)
    | inr p ↦
        rw p (record { clock = v.clock; offset = v.offset; free = v.free; known = λ h. refl }, refl)
  ]

  -- A message of the event port.
  event-Unsteered :
      (now : ℕ) (s : Slave A) (p : Packet)
      → Unsteered s
      → is_some s.gm ≡ true
      → ptp_type p ≢ delay_resp_type
      → Unsteered (handle_packet now s p)
  unfolding handle_packet
  event-Unsteered now s p v known other = record {
    clock = ground (arith, v.clock);
    offset = ground (arith, v.offset);
    free = ground (arith, v.free);
    known = λ h. ground (arith, known);
  }

  ask-Unsteered :
      (sent : ℕ) (s : Slave A)
      → Unsteered s
      → Unsteered (ask sent s) × ((ask sent s).have_t1 && (ask sent s).have_s2 ≡ false)
  unfolding ask
  ask-Unsteered sent s v = (
    record {
      clock = ground (arith, v.clock);
      offset = ground (arith, v.offset);
      free = ground (arith, v.free);
      known = λ h. ground (arith, v.known);
    },
    ground (arith, v.known),
  )

  general-Unsteered :
      (now : ℕ) (s : Slave A) (p : Packet)
      → Unsteered s
      → (s.have_t1 && s.have_s2) ≡ false
      → ptp_type p ≢ sync_type
      → Unsteered (handle_packet now s p)
  unfolding handle_packet
  general-Unsteered now s p v idle other = record {
    clock = ground (arith, v.clock);
    offset = ground (arith, v.offset);
    free = ground (arith, v.free);
    known = λ h. ground (arith, v.known);
  }

  heard-Unsteered :
      (now : ℕ) (s : Slave A) (event : Option (A × Packet))
      → Unsteered s
      → ((src : A) (p : Packet) → event ≡ some (src, p) → ptp_type p ≢ delay_resp_type)
      → Unsteered (elim event as (λ x. Slave A) [
        | none ↦ s
        | some (src, p) ↦ handle_packet now (learn src s) p
      ])
  heard-Unsteered now s none v other = v
  heard-Unsteered now s (some (src, p)) v other =
      let (learned, known) = learn-Unsteered src s v in
      event-Unsteered now (learn src s) p learned known (other src p refl)

  told-Unsteered :
      (now : ℕ) (s : Slave A) (general : Option Packet)
      → Unsteered s
      → (s.have_t1 && s.have_s2) ≡ false
      → ((p : Packet) → general ≡ some p → ptp_type p ≢ sync_type)
      → Unsteered (elim general as (λ x. Slave A) [ none ↦ s | some p ↦ handle_packet now s p ])
  told-Unsteered now s none v idle other = v
  told-Unsteered now s (some p) v idle other = general-Unsteered now s p v idle (other p refl)

  turn-Unsteered : (s : Slave A) (r : Turn A) → Unsteered s → OnItsPort r → Unsteered (turn s r)
  unfolding turn
  turn-Unsteered s r v ports =
      let heard = heard-Unsteered r.event_at s r.event v ports.event in
      let (asked, idle) = ask-Unsteered r.sent_at _ heard in
      told-Unsteered r.general_at _ r.general asked idle ports.general

  turns-Unsteered :
      (s : Slave A) (rs : List (Turn A)) → Unsteered s → All OnItsPort rs → Unsteered (turns s rs)
  unfolding turns
  turns-Unsteered s [] v ports = v
  turns-Unsteered s (r ∷ rs) v ports =
      turns-Unsteered (turn s r) rs (turn-Unsteered s r v ports.0) ports.1

  -- As long as no DELAY_RESP comes in on the event port and no SYNC on the general one, which is how
  -- the protocol assigns its ports, the slave never steers its clock: after any sequence of turns of
  -- its loop from the start the clock's mapping is 0, the offset is 0 and it is not locked. (Asking
  -- for the delay forgets the time T1 that the answer is to be combined with.)
  pub never_locks :
      (rs : List (Turn A))
      → All OnItsPort rs
      → ((turns boot rs).locked ≡ false)
        × ((turns boot rs).c_ns ≡ 0)
        × ((turns boot rs).last_offset_ns ≡ pos 0)
  never_locks rs ports =
      let v =
        turns-Unsteered boot rs
          (record { clock = refl; offset = refl; free = refl; known = λ h. cc }) ports in
      (v.free, v.clock, v.offset)
