-- ===== src/Ptp.antt =====
-- stm32-tsn/tsn/ptp.c: the endpoint's PTP slave. The cycle counter and the sockets are hardware: what
-- `raw_ns` and `recvfrom` give is an argument of each operation. Both sockets are open. A number of
-- 64 bits is written out with its wrap-around.
pub mod Lock
pub mod Stamp
use wireless_tsn_configurato.Base.{
  ℕ, zero, suc, ◌+◌, ◌-◌, ◌*◌, ◌/◌, ◌%◌, ◌^◌, Bool, true, false, ◌&&◌, ◌||◌, not, Option, none,
  some, is_some, List, [], ◌∷◌, ◌++◌, replicate, ltb, ◌==◌, if◌then◌else◌, get_or,
}
use wireless_tsn_configurato.Base.Int.{ℤ, pos, negsuc, ltb_ℤ, eqb_ℤ}

-- The message types.
abbrev pub sync_type : ℕ
sync_type = 0x0

abbrev pub follow_up_type : ℕ
follow_up_type = 0x8

abbrev pub delay_resp_type : ℕ
delay_resp_type = 0x9

abbrev pub announce_type : ℕ
announce_type = 0xB

-- `buf` and `len`: the whole buffer with what earlier packets left in it, and the packet's length.
pub record Packet : Type 0 where
  pub buf : List ℕ
  pub len : ℕ

-- The static variables; `gm` is `g_gm` where `g_gm_known` is set.
pub record Slave (A : Type 0) : Type 0 where
  pub c_ns : ℕ
  pub locked : Bool
  pub last_offset_ns : ℤ
  pub have_s2 : Bool
  pub s2 : ℕ
  pub have_t1 : Bool
  pub t1 : ℕ
  pub s3 : ℕ
  pub domain : ℕ
  pub gm : Option A

abbrev pub boot : {A : Type 0} → Slave A
boot = record {
  c_ns = 0;
  locked = false;
  last_offset_ns = pos 0;
  have_s2 = false;
  s2 = 0;
  have_t1 = false;
  t1 = 0;
  s3 = 0;
  domain = 0;
  gm = none;
}

-- `ptp_type`
abbrev pub ptp_type : Packet → ℕ
ptp_type p = get_or p.buf 1 0

-- `ptp_version`
abbrev pub ptp_version : Packet → ℕ
ptp_version p = get_or p.buf 2 0

-- `ptp_domain`
abbrev pub ptp_domain : Packet → ℕ
ptp_domain p = get_or p.buf 10 0

-- `n` bytes from a place on, the highest first.
unfoldable pub big_endian : ℕ → List ℕ → ℕ → ℕ → ℕ
big_endian zero bytes i v = v
big_endian (suc n) bytes i v = big_endian n bytes (i + 1) (v * 2 ^ 8 + get_or bytes i 0)

-- `ptp_hdr_time_ns`
unfoldable pub hdr_time_ns : Packet → ℕ
hdr_time_ns p = (big_endian 6 p.buf 12 0 * 1000000000 + big_endian 4 p.buf 18 0) % 2 ^ 64

-- `ptp_ts64`
unfoldable pub ts64 : Packet → ℕ → ℕ
ts64 p off = big_endian 8 p.buf off 0

-- The ten bytes that `ptp_write_hdr_time` writes at 12.
unfoldable pub hdr_time_bytes : ℕ → List ℕ
hdr_time_bytes ns =
    let sec = ns / 1000000000 in
    let fns = ns % 1000000000 in
    sec / 2 ^ 40 % 256
    ∷ sec / 2 ^ 32 % 256
    ∷ sec / 2 ^ 24 % 256
    ∷ sec / 2 ^ 16 % 256
    ∷ sec / 2 ^ 8 % 256
    ∷ sec % 256
    ∷ fns / 2 ^ 24 % 256
    ∷ fns / 2 ^ 16 % 256
    ∷ fns / 2 ^ 8 % 256
    ∷ fns % 256
    ∷ []

-- The message that `send_delay_req` builds, of `PTP_HDR_LEN` bytes.
unfoldable pub delay_req : ℕ → ℕ → List ℕ
delay_req domain ns =
    0 ∷ 0x1 ∷ 2 ∷ 0 ∷ 0 ∷ 0 ∷ 0 ∷ 44 ∷ 0 ∷ 0 ∷ domain ∷ 0 ∷ (hdr_time_bytes ns ++ replicate 22 0)

-- The cast of a `uint64_t` to `int64_t`.
unfoldable pub signed : ℕ → ℤ
signed n = if ltb n (2 ^ 63) then pos n else negsuc (2 ^ 64 - 1 - n)

-- `delta / 5`, towards 0.
unfoldable pub fifth : ℤ → ℤ
fifth (pos n) = pos (n / 5)
fifth (negsuc n) = elim ((n + 1) / 5) [ zero ↦ pos 0 | suc k ↦ negsuc k ]

-- The sum of a `uint64_t` and an `int64_t`, as a `uint64_t`.
unfoldable pub add64 : ℕ → ℤ → ℕ
add64 c (pos n) = (c + n) % 2 ^ 64
add64 c (negsuc n) = (c + (2 ^ 64 - 1 - n)) % 2 ^ 64

module _ {A : Type 0} where
  -- `steer`
  unfoldable pub steer : Slave A → ℕ → Slave A
  steer s c_new =
      let delta = signed ((c_new + (2 ^ 64 - s.c_ns)) % 2 ^ 64) in
      if ltb_ℤ (pos 50000000) delta || ltb_ℤ delta (negsuc 49999999)
      then record s { c_ns = c_new; last_offset_ns = delta; locked = true }
      else if not (eqb_ℤ delta (pos 0))
      then record s {
        c_ns = add64 s.c_ns (fifth delta);
        last_offset_ns = fifth delta;
        locked = true;
      }
      else record s { locked = true }

  -- The clock's place that an exchange gives: `((t4 + g_t1) - (g_s2 + g_s3)) / 2`.
  unfoldable pub exchange : Slave A → ℕ → ℕ
  exchange s t4 = (t4 + s.t1 + (2 ^ 64 - (s.s2 + s.s3) % 2 ^ 64)) % 2 ^ 64 / 2

  -- `handle_packet`; `now` is what `raw_ns` gives.
  unfoldable pub handle_packet : ℕ → Slave A → Packet → Slave A
  handle_packet now s p =
      if ltb p.len 32
      then s
      else if not (ptp_version p == 2)
      then s
      else if ptp_type p == sync_type
      then (if ltb 0 (ts64 p 40)
          then record s { s2 = now; have_s2 = true; t1 = ts64 p 40; have_t1 = true }
          else record s { s2 = now; have_s2 = true })
      else if ptp_type p == follow_up_type
      then record s { t1 = ts64 p 40; have_t1 = true }
      else if ptp_type p == announce_type
      then record s { domain = ptp_domain p }
      else if ptp_type p == delay_resp_type
      then (if s.have_t1 && s.have_s2
          then record (steer s (exchange s (hdr_time_ns p))) { have_t1 = false; have_s2 = false }
          else record s { have_t1 = false; have_s2 = false })
      else s

  -- The first packet on the event port says who the grandmaster is.
  unfoldable pub learn : A → Slave A → Slave A
  learn src s = if is_some s.gm then s else record s { gm = some src }

  -- The question for the delay; `sent` is the time that `send_delay_req` returns.
  unfoldable pub ask : ℕ → Slave A → Slave A
  ask sent s =
      if s.have_t1 && (s.have_s2 && is_some s.gm)
      then record s { s3 = sent; have_t1 = false }
      else s

-- What one turn of the loop receives on the two ports, and the times that it reads.
pub record Turn (A : Type 0) : Type 0 where
  pub event : Option (A × Packet)
  pub general : Option Packet
  pub event_at : ℕ
  pub sent_at : ℕ
  pub general_at : ℕ

module _ {A : Type 0} where
  -- One turn of the loop of `ptp_task_fn`, without its report of the state.
  unfoldable pub turn : Slave A → Turn A → Slave A
  turn s r =
      let heard : Slave A = elim r.event [
        | none ↦ s
        | some (src, p) ↦ handle_packet r.event_at (learn src s) p
      ] in
      let asked : Slave A = ask r.sent_at heard in
      elim r.general [ none ↦ asked | some p ↦ handle_packet r.general_at asked p ]

  unfoldable pub turns : Slave A → List (Turn A) → Slave A
  turns s [] = s
  turns s (r ∷ rs) = turns (turn s r) rs
