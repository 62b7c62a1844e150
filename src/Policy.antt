-- ===== src/Policy.antt =====
-- rpi-ai/policy_engine.c: the rules, their cooldowns, and the messages and the loop that drive them.
-- The connection and the rules' state are one record, the clock an argument. Rule R2 has no code.
pub mod Topics
pub mod Rules
pub mod Calm
use wireless_tsn_configurato.Base.{
  ℕ, zero, suc, ◌+◌, Bool, true, false, ◌&&◌, ◌||◌, Option, none, some, List, [], ◌∷◌, ◌++◌, leb,
  if◌then◌else◌, length, take, get_elem?,
}
use wireless_tsn_configurato.Base.Int.{ℤ, pos, ◌-ℤ◌, ltb_ℤ}
use wireless_tsn_configurato.Base.Text.{CString, codes}
use wireless_tsn_configurato.Base.Table.{text_eq, find, modify}
use wireless_tsn_configurato.Common.{is_ok, max_str}
use wireless_tsn_configurato.Common.StrUtil.{copied}
use wireless_tsn_configurato.Stream.{Stream, Status}
use wireless_tsn_configurato.Db.Engine.{Sqlite}
use wireless_tsn_configurato.Db.Qos as db_qos
use wireless_tsn_configurato.Db.Qos.{QosConfig}
use wireless_tsn_configurato.Db.Tsn as db_tsn

-- `MAX_DEVICES` of this program.
abbrev pub max_rules : ℕ
max_rules = 64

-- `rule_state_t`
pub record Rule : Type 0 where
  pub device_id : CString
  pub last_fired : ℤ
  pub calm_since : ℤ
  pub active : Bool

abbrev pub rule_key : Rule → CString
rule_key r = r.device_id

-- `g_db`, `g_r1[0 .. g_r1_count)`, and the one cell of `g_r3_last` that is used. `g_r2_last` is never
-- read or written.
pub record Engine (H : Type 0) : Type 0 where
  pub db : H
  pub r1 : List Rule
  pub r3_last : ℤ

-- `R1_COOLDOWN_S`, `R1_CALM_S`, `R3_LATENCY_MS`, `R3_COOLDOWN_S`
abbrev pub r1_cooldown_s : ℤ
r1_cooldown_s = pos 120

abbrev pub r1_calm_s : ℤ
r1_calm_s = pos 300

abbrev pub r3_latency_ms : ℤ
r3_latency_ms = pos 50

abbrev pub r3_cooldown_s : ℤ
r3_cooldown_s = pos 300

-- The rows that `apply_r1` and `restore_r1` fill in.
unfoldable pub raised : CString → QosConfig
raised device_id = record {
  device_id = copied max_str device_id;
  priority = pos 5;
  traffic_class = pos 3;
  bandwidth_kbps = pos 50000;
  latency_ms = pos 5;
  preemption = pos 0;
}

unfoldable pub restored : CString → QosConfig
restored device_id = record {
  device_id = copied max_str device_id;
  priority = pos 3;
  traffic_class = pos 1;
  bandwidth_kbps = pos 10000;
  latency_ms = pos 50;
  preemption = pos 0;
}

-- The stream that `check_r3` fills in, its id cut by `snprintf` to a buffer of 128 bytes.
unfoldable pub reserved_id : CString → CString
reserved_id device_id = take 127 (codes "ai-" ++ device_id)

unfoldable pub reserved : CString → Stream
unfolding reserved_id
reserved device_id = record {
  stream_id = copied max_str (reserved_id device_id);
  name = copied max_str (codes "AI latency stream");
  talker = copied max_str device_id;
  vlan_id = pos 100;
  max_latency_ns = pos 2000000;
  max_interval_ns = pos 200000;
  priority = pos 5;
  data_frame_prio = pos 5;
  status = Status.configured;
  comment = [];
  listeners = copied max_str (codes "rpi-cnc") ∷ [];
  listener_all = false;
}

-- `r.active && now - r.last_fired < R1_COOLDOWN_S`, and the test of the main loop.
unfoldable pub is_cooling : ℤ → Rule → Bool
is_cooling now r = r.active && ltb_ℤ (now -ℤ r.last_fired) r1_cooldown_s

unfoldable pub is_calm : ℤ → Rule → Bool
is_calm now r = r.active && ltb_ℤ r1_calm_s (now -ℤ r.last_fired)

-- What firing and restoring write to the entry of a rule.
unfoldable pub fire : ℤ → Rule → Rule
fire now r = record r { active = true; last_fired = now }

unfoldable pub rest : Rule → Rule
rest r = record r { active = false }

-- The entry that `apply_r1` adds for a device, cleared but for its id.
unfoldable pub new_rule : CString → Rule
new_rule device_id = record {
  device_id = copied 128 device_id;
  last_fired = pos 0;
  calm_since = pos 0;
  active = false;
}

module _ {H : Type 0} (sql : Sqlite H) where
  -- `apply_r1`, with `find_r1`; what saving returns is not looked at.
  unfoldable pub apply_r1 : ℤ → Engine H → CString → Engine H
  unfolding raised fire new_rule is_cooling
  apply_r1 now e device_id =
      let saved = (db_qos.save sql e.db (raised device_id)).1 in
      elim (find rule_key device_id e.r1) [
        | none ↦
            if leb max_rules (length e.r1)
            then e
            else record e { db = saved; r1 = e.r1 ++ (fire now (new_rule device_id) ∷ []) }
        | some r ↦
            if is_cooling now r
            then e
            else record e { db = saved; r1 = modify rule_key device_id (fire now) e.r1 }
      ]

  -- `restore_r1`
  unfoldable pub restore_r1 : Engine H → CString → Engine H
  unfolding restored rest
  restore_r1 e device_id = elim (find rule_key device_id e.r1) [
    | none ↦ e
    | some r ↦
        if r.active
        then record e {
          db = (db_qos.save sql e.db (restored device_id)).1;
          r1 = modify rule_key device_id rest e.r1;
        }
        else e
  ]

  -- `check_r3`
  unfoldable pub check_r3 : ℤ → Engine H → CString → ℤ → Engine H
  unfolding reserved reserved_id
  check_r3 now e device_id latency_ms =
      if ltb_ℤ latency_ms r3_latency_ms
      then e
      else if ltb_ℤ (now -ℤ e.r3_last) r3_cooldown_s
      then e
      else if is_ok (db_tsn.load sql e.db (reserved_id device_id)).0
      then e
      else (let (result, h) = db_tsn.save sql e.db (reserved device_id) in
          if is_ok result then record e { db = h; r3_last = now } else record e { db = h })

  -- The loop of `main` over the rules, at the entry `i` with `n` to come.
  unfoldable pub sweep_at : ℤ → Engine H → ℕ → Engine H
  unfolding is_calm restore_r1
  sweep_at now e i = elim (get_elem? e.r1 i) [
    | none ↦ e
    | some r ↦ if is_calm now r then restore_r1 e r.device_id else e
  ]

  unfoldable pub sweep_from : ℤ → ℕ → ℕ → Engine H → Engine H
  unfolding sweep_at
  sweep_from now zero i e = e
  sweep_from now (suc n) i e = sweep_from now n (suc i) (sweep_at now e i)

  unfoldable pub sweep : ℤ → Engine H → Engine H
  unfolding sweep_from
  sweep now e = sweep_from now (length e.r1) 0 e
