-- ===== src/Stream.antt =====
-- src/stream/stream.c: a TSN stream, its check and the names of its states.
pub mod Check
use wireless_tsn_configurato.Base.{
  ℕ, Bool, ◌||◌, ◌&&◌, not, Option, none, some, List, ◌==◌, if◌then◌else◌, length,
}
use wireless_tsn_configurato.Base.Int.{ℤ, pos, ltb_ℤ, leb_ℤ, eqb_ℤ}
use wireless_tsn_configurato.Base.Text.{CString, codes, is_empty, str_eq}
use wireless_tsn_configurato.Common.{Error, ok, invalid_arg}

-- `htsn_stream_status`; `other` stands for a stored value that has no name.
pub data Status : Type 0 where
  configured ready failed standby : Status
  other : ℤ → Status

-- `htsn_stream_role`
pub data Role : Type 0 where
  talker listener : Role

-- `htsn_stream`; `listeners[0 .. listener_count)` is a list.
pub record Stream : Type 0 where
  pub stream_id : CString
  pub name : CString
  pub talker : CString
  pub vlan_id : ℤ
  pub max_latency_ns : ℤ
  pub max_interval_ns : ℤ
  pub priority : ℤ
  pub data_frame_prio : ℤ
  pub status : Status
  pub comment : CString
  pub listeners : List CString
  pub listener_all : Bool

-- `HTSN_STREAM_ALL_LISTENERS`
abbrev pub all_listeners : CString
all_listeners = codes "*"

-- `htsn_stream_validate`
unfoldable pub validate : Stream → Error
validate s =
    if is_empty s.stream_id
    then invalid_arg
    else if is_empty s.talker
    then invalid_arg
    else if ltb_ℤ s.vlan_id (pos 0) || ltb_ℤ (pos 4094) s.vlan_id
    then invalid_arg
    else if ltb_ℤ s.priority (pos 0) || ltb_ℤ (pos 7) s.priority
    then invalid_arg
    else if ltb_ℤ s.data_frame_prio (pos 0) || ltb_ℤ (pos 7) s.data_frame_prio
    then invalid_arg
    else if leb_ℤ s.max_latency_ns (pos 0)
    then invalid_arg
    else if leb_ℤ s.max_interval_ns (pos 0)
    then invalid_arg
    else if not s.listener_all && length s.listeners == 0
    then invalid_arg
    else ok

-- `htsn_stream_status_parse`
unfoldable pub status_parse : Option CString → Status
status_parse none = Status.configured
status_parse (some s) =
    if str_eq s (codes "ready")
    then Status.ready
    else if str_eq s (codes "failed")
    then Status.failed
    else if str_eq s (codes "standby")
    then Status.standby
    else Status.configured

-- `htsn_stream_status_str`
unfoldable pub status_str : Status → CString
status_str Status.ready = codes "ready"
status_str Status.failed = codes "failed"
status_str Status.standby = codes "standby"
status_str Status.configured = codes "configured"
status_str (Status.other n) = codes "configured"

-- `htsn_stream_role_str`
unfoldable pub role_str : Role → CString
role_str Role.talker = codes "talker"
role_str Role.listener = codes "listener"

-- The casts between the enum and `int`.
unfoldable pub status_int : Status → ℤ
status_int Status.configured = pos 0
status_int Status.ready = pos 1
status_int Status.failed = pos 2
status_int Status.standby = pos 3
status_int (Status.other n) = n

unfoldable pub int_status : ℤ → Status
int_status n =
    if eqb_ℤ n (pos 0)
    then Status.configured
    else if eqb_ℤ n (pos 1)
    then Status.ready
    else if eqb_ℤ n (pos 2)
    then Status.failed
    else if eqb_ℤ n (pos 3)
    then Status.standby
    else Status.other n
