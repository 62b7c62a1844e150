-- ===== src/Bridge/Servo.antt =====
-- The angles that rpi-tsn/tsn_opcua_bridge.c forwards, as the endpoint of stm32-tsn/tsn/eth_proto.c
-- takes them.
use wireless_tsn_configurato.Base.{
  ℕ, ◌-◌, ◌^◌, ◌<◌, ◌≡◌, ◌∙◌, refl, sym, ap, Bool, true, false, ◌&&◌, not, ◌==◌, ltb, none, some,
  List, [], ◌∷◌, ◌++◌, arith, map, All, if◌then◌else◌, Bool-cases, inl, inr,
}
use wireless_tsn_configurato.Base.Int.{ℤ, pos, negsuc}
use wireless_tsn_configurato.Base.Text.{CString, codes}
use wireless_tsn_configurato.Decimal.{show_ℤ}
use wireless_tsn_configurato.Frame.{bytes16, read16}
use wireless_tsn_configurato.Endpoint as endpoint
use wireless_tsn_configurato.Endpoint.{Net, int16_arg, command}
use wireless_tsn_configurato.Bridge.{Address, Effect, write, datagram}
use wireless_tsn_configurato.Bridge.Commands.{Bridge, send_frame, send_cmd_kind, poll_servo}
use wireless_tsn_configurato.Bridge.Applied.{Arrives, received}

-- The integer that 16 bits stand for.
abbrev pub signed16 : ℕ → ℤ
signed16 n = if ltb n (2 ^ 15) then pos n else negsuc (2 ^ 16 - 1 - n)

-- The values that differ from the one before them.
unfoldable pub changes : ℕ → List ℕ → List ℕ
changes last [] = []
changes last (a ∷ angles) = let rest = changes a angles in if a == last then rest else a ∷ rest

-- The angle is read in every poll.
unfoldable pub polls : (List ℕ → Bool) → Bridge → List ℕ → List Effect
unfolding poll_servo
polls sends s [] = []
polls sends s (a ∷ angles) =
    let (s', es) = poll_servo sends s (some a) in es ++ polls sends s' angles

-- The commands that the endpoint hands on for the datagrams.
unfoldable pub handed : Net → List Effect → List (CString × CString)
unfolding endpoint.receive
handed net [] = []
handed net (write node v ∷ es) = handed net es
handed net (datagram ep frame ∷ es) =
    let rest = handed net es in
    elim (endpoint.receive net frame).2 [ none ↦ rest | some c ↦ c ∷ rest ]

if_true {ℓ} : {A : Type ℓ} (b : Bool) (x y : A) → b ≡ true → (if b then x else y) ≡ x
if_true b x y h = rw h refl

int16-bytes16 : (a : ℕ) → a < 2 ^ 16 → int16_arg (bytes16 a) ≡ signed16 a
unfolding int16_arg bytes16 read16
int16-bytes16 a h = ground arith

receive-servo :
    (net : Net) (frame pl : List ℕ)
    → Arrives frame 0 1 pl
    → endpoint.receive net frame ≡ (net, [], some (codes "servo", show_ℤ (int16_arg pl)))
unfolding endpoint.receive command int16_arg
receive-servo net frame pl h = rw (h, endpoint.receive) refl

changes_same :
    (last a : ℕ) (angles : List ℕ)
    → (a == last) ≡ true
    → changes last (a ∷ angles) ≡ changes a angles
unfolding changes
changes_same last a angles h = rw h refl

changes_new :
    (last a : ℕ) (angles : List ℕ)
    → (a == last) ≡ false
    → changes last (a ∷ angles) ≡ a ∷ changes a angles
unfolding changes
changes_new last a angles h = rw h refl

-- The command for an angle.
abbrev pub said : ℕ → CString × CString
said a = (codes "servo", show_ℤ (signed16 a))

module _ (sends : List ℕ → Bool) (taken : (frame : List ℕ) → sends frame ≡ true) (net : Net) where
  unchanged :
      (s : Bridge) (a : ℕ) → (a == s.last_servo) ≡ true → (poll_servo sends s (some a)).1 ≡ []
  unfolding poll_servo
  unchanged s a h = ground (arith, h)

  changed :
      (s : Bridge) (a : ℕ)
      → s.primed ≡ true
      → (a == s.last_servo) ≡ false
      → (poll_servo sends s (some a)).1 ≡ send_cmd_kind sends s 1 (bytes16 a)
  unfolding poll_servo
  changed s a p h = if_true (s.primed && not (a == s.last_servo)) _ [] (ground (arith, p, h))

  sent_angle :
      (s : Bridge) (ep : Address) (a : ℕ)
      → s.ep ≡ some ep
      → a < 2 ^ 16
      → (frame : List ℕ) × (send_cmd_kind sends s 1 (bytes16 a) ≡ datagram ep frame ∷ [])
        × ((endpoint.receive net frame).2 ≡ some (codes "servo", show_ℤ (signed16 a)))
  unfolding send_cmd_kind send_frame
  sent_angle s ep a e h =
      let (frame, packed, got) = received 0 1 (bytes16 a) (unfold bytes16 in omega arith) in
      (
        frame,
        rw (e, send_frame) (rw packed (rw (taken frame) refl)),
        ap (λ r. r.2) (receive-servo net frame (bytes16 a) got)
            ∙ ap (λ n. some (codes "servo", show_ℤ n)) (int16-bytes16 a h),
      )

  handed_one :
      (ep : Address) (frame : List ℕ) (es : List Effect) (c : CString × CString)
      → (endpoint.receive net frame).2 ≡ some c
      → handed net (datagram ep frame ∷ es) ≡ c ∷ handed net es
  unfolding handed
  handed_one ep frame es c h = rw (h, handed) refl

  -- Once the baseline is read and the endpoint known, and where every datagram is taken, the endpoint
  -- hands on a servo command for exactly the angles that differ from the one read before them, in
  -- their order and with their signs.
  pub polls-changes :
      (s : Bridge) (ep : Address) (angles : List ℕ)
      → s.ep ≡ some ep
      → s.primed ≡ true
      → All (λ a. a < 2 ^ 16) angles
      → handed net (polls sends s angles) ≡ map said (changes s.last_servo angles)
  unfolding polls
  polls-changes s ep [] e p h = unfold handed changes in refl
  polls-changes s ep (a ∷ angles) e p h =
      let s' = record s { last_servo = a } in
      let later = polls sends s' angles in
      let rest = polls-changes s' ep angles e p h.1 in
      elim (Bool-cases (a == s.last_servo)) [
        | inl same ↦
            ap (λ es. handed net (es ++ later)) (unchanged s a same)
            ∙ rest
            ∙ ap (map said) (sym (changes_same s.last_servo a angles same))
        | inr new ↦
            let (frame, sent, got) = sent_angle s ep a e h.0 in
            ap (λ es. handed net (es ++ later)) (changed s a p new ∙ sent)
            ∙ handed_one ep frame later _ got
            ∙ ap (◌∷◌ (said a)) rest
            ∙ ap (map said) (sym (changes_new s.last_servo a angles new))
      ]
