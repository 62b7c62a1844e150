-- ===== src/Bridge/Address.antt =====
-- Over a run of the loop: where the datagrams of rpi-tsn/tsn_opcua_bridge.c go.
use mathlib.Core.Path.{subst}
use wireless_tsn_configurato.Base.{
  ℕ, ◌≡◌, ◌∙◌, refl, sym, ap, Bool, Option, none, some, List, [], ◌∷◌, ◌++◌, All, All-append,
  Option-cases, inl, inr, is_some, if_both, take, ◌+◌, ◌==◌,
}
use wireless_tsn_configurato.Base.Int.{ℤ}
use wireless_tsn_configurato.Frame.{unpack, header_len, crc_len, max_payload}
use wireless_tsn_configurato.Bridge.{Address, Effect, write, datagram}
use wireless_tsn_configurato.Bridge.Reports.{on_telemetry}
use wireless_tsn_configurato.Bridge.Commands.{Bridge, Nodes, poll_commands}
use wireless_tsn_configurato.Bridge.Loop.{learn, on_datagram, receive, turn}
use wireless_tsn_configurato.Bridge.Sends.{SentTo, Keeps, joined, poll-Keeps, reports-SentTo}

-- The address that is known behind a turn that receives this.
unfoldable pub heard : Option Address → Option (Address × List ℕ) → Option Address
heard (some ep) got = some ep
heard none none = none
heard none (some (src, [])) = none
heard none (some (src, b ∷ bytes)) = some src

heard-none : (ep : Option Address) → heard ep none ≡ ep
unfolding heard
heard-none none = refl
heard-none (some ep) = refl

heard-empty : (ep : Option Address) (src : Address) → heard ep (some (src, [])) ≡ ep
unfolding heard
heard-empty none src = refl
heard-empty (some ep) src = refl

learn_ep :
    (s : Bridge) (src : Address) (b : ℕ) (bytes : List ℕ)
    → (learn s src).ep ≡ heard s.ep (some (src, b ∷ bytes))
unfolding learn heard
learn_ep s src b bytes = elim (Option-cases s.ep) [
  | inl e ↦ rw (e, learn) refl
  | inr (ep, e) ↦ rw (e, learn) e
]

datagram_told : (ep : Option Address) (bytes : List ℕ) → All (SentTo ep) (on_datagram bytes)
unfolding on_datagram on_telemetry
datagram_told ep bytes =
    elim (Option-cases (unpack (take (header_len + max_payload + crc_len) bytes))) [
      | inl e ↦ rw (e, on_datagram) tt
      | inr ((type, kind, pl), e) ↦
          rw (e, on_datagram)
            (if_both (All (SentTo ep)) (type == 1) {y = []} (reports-SentTo ep kind pl) tt)
    ]

receive-Keeps :
    (s : Bridge) (got : Option (Address × List ℕ)) → Keeps (heard s.ep got) (receive s got)
unfolding receive learn on_datagram
receive-Keeps s none = (sym (heard-none s.ep), tt)
receive-Keeps s (some (src, [])) = (sym (heard-empty s.ep src), tt)
receive-Keeps s (some (src, b ∷ bytes)) =
    (learn_ep s src b bytes, datagram_told (heard s.ep (some (src, b ∷ bytes))) (b ∷ bytes))

-- What a turn of the loop gets from outside.
pub record Turn : Type 0 where
  pub sends : List ℕ → Bool
  pub now : ℤ
  pub nodes : Nodes
  pub got : Option (Address × List ℕ)

turn-Keeps : (t : Turn) (s : Bridge) → Keeps (heard s.ep t.got) (turn t.sends t.now t.nodes t.got s)
unfolding turn
turn-Keeps t s =
    let r = receive s t.got in
    let k = receive-Keeps s t.got in
    let p = poll_commands t.sends t.now t.nodes r.0 in
    let q = poll-Keeps t.sends t.now t.nodes r.0 in
    if_both (Keeps (heard s.ep t.got)) (is_some r.0.ep) (q.0 ∙ k.0, joined k.0 r.1 p.1 k.1 q.1)
      (k.0, k.1)

-- The turns of the loop, one after the other.
unfoldable pub run : List Turn → Bridge → Bridge × List Effect
run [] s = (s, [])
run (t ∷ ts) s =
    let (s', es) = turn t.sends t.now t.nodes t.got s in
    let (s'', more) = run ts s' in (s'', es ++ more)

unfoldable pub heard_by : List Turn → Option Address → Option Address
unfolding heard
heard_by [] ep = ep
heard_by (t ∷ ts) ep = heard_by ts (heard ep t.got)

heard_by-some : (ts : List Turn) (ep : Address) → heard_by ts (some ep) ≡ some ep
unfolding heard_by heard
heard_by-some [] ep = refl
heard_by-some (t ∷ ts) ep = heard_by-some ts ep

-- What is sent to a known address, or to none, is sent to the one that is known later.
later :
    (ts : List Turn) (ep : Option Address) (es : List Effect)
    → All (SentTo ep) es
    → All (SentTo (heard_by ts ep)) es
later ts ep [] h = tt
later ts ep (write node v ∷ es) h = (tt, later ts ep es h.1)
later ts ep (datagram a frame ∷ es) h =
    (ap (heard_by ts) h.0 ∙ heard_by-some ts a, later ts ep es h.1)

run_sent : (ts : List Turn) (s : Bridge) → All (SentTo (heard_by ts s.ep)) (run ts s).1
unfolding run turn heard_by
run_sent [] s = tt
run_sent (t ∷ ts) s =
    let r = turn t.sends t.now t.nodes t.got s in
    let k = turn-Keeps t s in
    let more = run_sent ts r.0 in
    All-append (SentTo (heard_by ts (heard s.ep t.got))) r.1 (run ts r.0).1
      (later ts (heard s.ep t.got) r.1 k.1)
      (subst (λ o. All (SentTo (heard_by ts o)) (run ts r.0).1) k.0 more)

-- In every run of the loop from its start all datagrams go to one address, the source of the first
-- datagram that was received and not empty; in a run that receives none, none is sent.
pub run-SentTo :
    (ts : List Turn) (s : Bridge) → s.ep ≡ none → All (SentTo (heard_by ts none)) (run ts s).1
run-SentTo ts s e = subst (λ o. All (SentTo (heard_by ts o)) (run ts s).1) e (run_sent ts s)
