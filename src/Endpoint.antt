-- ===== src/Endpoint.antt =====
-- stm32-tsn/tsn/eth_proto.c: the endpoint's network layer. Its static variables are one record; what
-- it sends and the command it hands to its callback are returned. The sockets are only open or not.
pub mod Applied
pub mod Egress
pub mod Preempt
use wireless_tsn_configurato.Base.{
  ℕ, zero, suc, ◌+◌, ◌-◌, ◌*◌, ◌/◌, ◌%◌, ◌^◌, Bool, true, false, ◌&&◌, ◌||◌, not, Option, none,
  some, List, [], ◌∷◌, ◌++◌, ltb, leb, ◌==◌, if◌then◌else◌, length, get_or, take, replicate,
}
use wireless_tsn_configurato.Base.Int.{ℤ, pos, negsuc}
use wireless_tsn_configurato.Base.Text.{CString, codes, str_eq}
use wireless_tsn_configurato.Decimal.{show_ℤ}
use wireless_tsn_configurato.Frame.{max_payload, header_len, crc_len, pack, unpack, read16, bytes16}

-- `sizeof(htsn_tsn_cfg_t)`, a packed struct.
abbrev pub cfg_len : ℕ
cfg_len = 21

-- `g_tsn_payload[0 .. g_tsn_payload_len)`, `g_tsn_valid`, `g_vlan_id`, `g_pcp`, `g_preempt`, and
-- whether the raw and the plain socket are open.
pub record Net : Type 0 where
  pub payload : List ℕ
  pub valid : Bool
  pub vlan_id : ℕ
  pub pcp : ℕ
  pub preempt : ℕ
  pub raw_sock : Bool
  pub sock : Bool

pub data Sent : Type 0 where
  tagged plain : List ℕ → Sent

-- The loop of `ipv4_hdr_sum` over pairs of bytes, with the odd byte that may remain.
unfoldable pub sum_words : List ℕ → ℕ
sum_words [] = 0
sum_words (a ∷ []) = a * 2 ^ 8
sum_words (a ∷ b ∷ bytes) = (a * 2 ^ 8 + b) + sum_words bytes

-- `while (s >> 16) s = (s & 0xffff) + (s >> 16)`; a sum below 2 ^ 32 takes two turns at most.
unfoldable pub fold : ℕ → ℕ → ℕ
fold zero s = s
fold (suc n) s = let next = fold n (s % 2 ^ 16 + s / 2 ^ 16) in if s / 2 ^ 16 == 0 then s else next

-- `ipv4_hdr_sum`
unfoldable pub ipv4_hdr_sum : List ℕ → ℕ
unfolding sum_words fold
ipv4_hdr_sum h = 2 ^ 16 - 1 - fold 3 (sum_words h) % 2 ^ 16

unfoldable pub bytes_be : ℕ → List ℕ
bytes_be n = n / 256 % 256 ∷ n % 256 ∷ []

-- The IPv4 header of `build_tagged_pcp` around a checksum, from 192.168.1.20 to `CNC_TAG_IP`.
unfoldable pub ipv4_header : ℕ → List ℕ → List ℕ
unfolding bytes_be
ipv4_header ip_len sum =
    (0x45 ∷ 0 ∷ [])
    ++ (bytes_be ip_len
        ++ ((0 ∷ 0 ∷ 0 ∷ 0 ∷ 64 ∷ 17 ∷ [])
            ++ (sum ++ (192 ∷ 168 ∷ 1 ∷ 20 ∷ 192 ∷ 168 ∷ 1 ∷ 11 ∷ []))))

-- `build_tagged_pcp` at a VLAN: tag, IPv4 header, UDP header from port 4000 to 4001, frame.
unfoldable pub build_tagged_pcp : ℕ → List ℕ → ℕ → List ℕ
unfolding ipv4_header ipv4_hdr_sum
build_tagged_pcp vlan_id frame pcp =
    let udp_len = 8 + length frame in
    let ip_len = 20 + udp_len in
    let sum = ipv4_hdr_sum (ipv4_header ip_len (0 ∷ 0 ∷ [])) in
    bytes_be (pcp % 8 * 2 ^ 13 + vlan_id % 2 ^ 12)
    ++ ((0x08 ∷ 0x00 ∷ [])
        ++ (ipv4_header ip_len (bytes_be sum)
            ++ ((bytes_be 4000 ++ (bytes_be 4001 ++ (bytes_be udp_len ++ (0 ∷ 0 ∷ [])))) ++ frame)))

-- `tsn_features`, its flags being different bits.
unfoldable pub features : Net → ℕ
features s =
    0x20
    + (if ltb 0 s.vlan_id then 0x3 else 0)
    + (if ltb 0 s.preempt && ltb 0 s.vlan_id then 0x4 else 0)

-- `send_frame`
unfoldable pub send_frame : Net → ℕ → List ℕ → List Sent
unfolding build_tagged_pcp
send_frame s kind payload = elim (pack 1 kind payload) [
  | none ↦ []
  | some frame ↦
      if ltb 0 s.vlan_id && s.raw_sock
      then tagged (build_tagged_pcp s.vlan_id frame s.pcp) ∷ []
      else if s.sock
      then plain frame ∷ []
      else []
]

-- `tsn_report_applied`: what it cuts off, and what it sends.
unfoldable pub bytes32 : ℕ → List ℕ
bytes32 n = n % 256 ∷ n / 2 ^ 8 % 256 ∷ n / 2 ^ 16 % 256 ∷ n / 2 ^ 24 % 256 ∷ []

unfoldable pub report_applied : Net → Net × List Sent
unfolding send_frame features bytes32
report_applied s =
    let kept = take (max_payload - 4) s.payload in
    (record s { payload = kept }, send_frame s 6 (kept ++ bytes32 (features s)))

-- `tsn_handle_cfg`
unfoldable pub handle_cfg : Net → List ℕ → Net × List Sent
unfolding report_applied
handle_cfg s p =
    if ltb (length p) cfg_len || ltb (max_payload - 4) (length p)
    then (s, [])
    else if s.valid && str_eq s.payload p
    then (s, [])
    else report_applied (record s {
      payload = p;
      valid = true;
      vlan_id = read16 p 2;
      pcp = get_or p 0 0;
      preempt = get_or p 4 0;
    })

-- The two bytes of every angle that still fits the buffer, from an offset on; an `int16_t` is its
-- 16 bits.
unfoldable pub sweep_bytes : ℕ → List ℕ → List ℕ
unfolding bytes16
sweep_bytes o [] = []
sweep_bytes o (angle ∷ angles) =
    let more = sweep_bytes (o + 2) angles in
    if ltb (o + 1) max_payload then bytes16 angle ++ more else []

-- `htsn_net_publish_sweep`; the id is its 32 bits.
unfoldable pub publish_sweep : Net → ℕ → List ℕ → List Sent
unfolding send_frame bytes32 sweep_bytes
publish_sweep s id sweep = send_frame s 2 (bytes32 id ++ sweep_bytes 4 sweep)

-- `htsn_net_publish_buttons`; the keys are their bits, and the shifted ones are different bits.
unfoldable pub publish_buttons : Net → ℕ → ℕ → ℕ → ℕ → List Sent
unfolding send_frame
publish_buttons s k1 k2 k3 k4 =
    send_frame s 3 ((k1 % 2 + k2 % 2 * 2 + k3 % 2 * 4 + k4 % 2 * 8) ∷ [])

-- The kind that `htsn_net_publish_telemetry` gives a text; none is NULL.
unfoldable pub telemetry_kind : Option CString → ℕ
telemetry_kind none = 4
telemetry_kind (some kind) =
    if str_eq kind (codes "sonar")
    then 2
    else if str_eq kind (codes "buttons")
    then 3
    else if str_eq kind (codes "ptp")
    then 5
    else 4

-- `htsn_net_publish_telemetry`, for a text that an `uint16_t` can measure.
unfoldable pub publish_telemetry : Net → Option CString → CString → List Sent
unfolding send_frame telemetry_kind
publish_telemetry s kind payload = send_frame s (telemetry_kind kind) payload

-- `htsn_net_tsn_cfg`: the bytes of the last configuration.
unfoldable pub tsn_cfg : Net → Option (List ℕ)
tsn_cfg s = if s.valid then some (take cfg_len s.payload) else none

-- `(int16_t)((uint16_t)p[0] | ((uint16_t)p[1] << 8))`, 0 where the payload is too short.
unfoldable pub int16_arg : List ℕ → ℤ
int16_arg p =
    let n = read16 p 0 in
    if ltb (length p) 2 then pos 0 else if ltb n (2 ^ 15) then pos n else negsuc (2 ^ 16 - 1 - n)

-- A text copied into a cleared buffer ends at its first NUL.
unfoldable pub until_nul : List ℕ → CString
until_nul [] = []
until_nul (c ∷ s) = let more = until_nul s in if c == 0 then [] else c ∷ more

-- The switch of `cmd_task_fn`: the verb and its argument.
unfoldable pub command : ℕ → List ℕ → Option (CString × CString)
unfolding int16_arg until_nul
command kind p =
    if kind == 1
    then some (codes "servo", show_ℤ (int16_arg p))
    else if kind == 2
    then some (codes "sonar", [])
    else if kind == 3
    then some (codes "relay", show_ℤ (pos (get_or p 0 0)))
    else if kind == 4
    then some (codes "beep", show_ℤ (int16_arg p))
    else if kind == 5
    then some (codes "hud", until_nul p)
    else if kind == 6
    then some (codes "reboot", [])
    else none

-- One turn of the loop of `cmd_task_fn` at a datagram, as much of it as the buffer holds.
unfoldable pub receive : Net → List ℕ → Net × List Sent × Option (CString × CString)
unfolding handle_cfg command
receive s datagram = elim (unpack (take (header_len + max_payload + crc_len) datagram)) [
  | none ↦ (s, [], none)
  | some (type, kind, p) ↦
      if not (type == 0)
      then (s, [], none)
      else if kind == 7
      then (let (s', sent) = handle_cfg s p in (s', sent, none))
      else (s, [], command kind p)
]
