-- ===== src/Bridge.antt =====
-- rpi-tsn/tsn_opcua_bridge.c: what the bridge between the OPC UA server and the endpoint does. The
-- values that it writes to the server and the datagrams that it sends are returned in their order.
pub mod Json
pub mod Reports
pub mod Commands
pub mod Loop
pub mod Numbers
pub mod Payload
pub mod Applied
pub mod Sends
pub mod Address
pub mod Servo
use wireless_tsn_configurato.Base.{ℕ, ◌+◌, ◌-◌, ◌*◌, ◌/◌, ◌%◌, zero, suc, List, [], ◌∷◌, get_or}
use wireless_tsn_configurato.Base.Int.{ℤ, pos_part, neg_part}

-- A value of the server's types, each as its bits.
pub data Scalar : Type 0 where
  boolean byte int16 uint16 int32 int64 : ℕ → Scalar
  int16s : List ℕ → Scalar

-- The endpoint's address and port.
abbrev pub Address : Type 0
Address = ℕ × ℕ

-- A write to a node of the server, and a datagram to the endpoint.
pub data Effect : Type 0 where
  write : ℕ → Scalar → Effect
  datagram : Address → List ℕ → Effect

-- The bits of an integer that is cast to an unsigned type of `m` values.
abbrev pub cast : ℕ → ℤ → ℕ
cast m n = (pos_part n + (m - neg_part n % m)) % m

-- A number as so many bytes, the low one first, and back.
unfoldable pub le_bytes : ℕ → ℕ → List ℕ
le_bytes zero n = []
le_bytes (suc k) n = n % 256 ∷ le_bytes k (n / 256)

unfoldable pub read_le : ℕ → List ℕ → ℕ → ℕ
read_le zero bytes i = 0
read_le (suc k) bytes i = get_or bytes i 0 + read_le k bytes (i + 1) * 256
