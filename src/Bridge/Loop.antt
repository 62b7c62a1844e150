-- ===== src/Bridge/Loop.antt =====
-- rpi-tsn/tsn_opcua_bridge.c: one turn of the loop of `main` that has a connection to the server.
use wireless_tsn_configurato.Base.{
  ℕ, ◌+◌, Bool, ◌==◌, Option, none, some, List, [], ◌∷◌, ◌++◌, if◌then◌else◌, take, is_some,
}
use wireless_tsn_configurato.Base.Int.{ℤ}
use wireless_tsn_configurato.Frame.{header_len, max_payload, crc_len, unpack}
use wireless_tsn_configurato.Bridge.{Address, Effect}
use wireless_tsn_configurato.Bridge.Reports.{on_telemetry}
use wireless_tsn_configurato.Bridge.Commands.{Bridge, Nodes, poll_commands}

-- The endpoint's address is that of the first datagram.
unfoldable pub learn : Bridge → Address → Bridge
learn s src = elim s.ep [ none ↦ record s { ep = some src } | some ep ↦ s ]

unfoldable pub on_datagram : List ℕ → List Effect
unfolding on_telemetry
on_datagram bytes = elim (unpack (take (header_len + max_payload + crc_len) bytes)) [
  | none ↦ []
  | some (type, kind, pl) ↦ if type == 1 then on_telemetry kind pl else []
]

-- The part of the turn that receives: where `select` and `recvfrom` give a datagram, and its source.
unfoldable pub receive : Bridge → Option (Address × List ℕ) → Bridge × List Effect
unfolding learn on_datagram
receive s none = (s, [])
receive s (some (src, [])) = (s, [])
receive s (some (src, b ∷ bytes)) = (learn s src, on_datagram (b ∷ bytes))

unfoldable pub turn :
    (List ℕ → Bool) → ℤ → Nodes → Option (Address × List ℕ) → Bridge → Bridge × List Effect
unfolding receive poll_commands
turn sends now n got s =
    let (s', reported) = receive s got in
    let (s'', forwarded) = poll_commands sends now n s' in
    if is_some s'.ep then (s'', reported ++ forwarded) else (s', reported)
