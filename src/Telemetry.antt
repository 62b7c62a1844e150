-- ===== src/Telemetry.antt =====
-- src/telemetry/htsn_telemetry.c: what a message on `tsn/status` does to the device manager and the
-- time synchronisation manager. Both stand on one connection, that of `devices`.
pub mod Payload
pub mod Handled
use wireless_tsn_configurato.Base.{
  ℕ, zero, suc, ◌-◌, Bool, true, false, ◌||◌, Option, none, some, List, [], ◌∷◌, ◌>>=◌, min, ◌==◌,
  leb, if◌then◌else◌, length, take, drop,
}
use wireless_tsn_configurato.Base.Int.{ℤ, pos}
use wireless_tsn_configurato.Base.Text.{CString, codes, str_eq, is_empty}
use wireless_tsn_configurato.Common.{max_str}
use wireless_tsn_configurato.Common.StrUtil.{copied, starts_with}
use wireless_tsn_configurato.Decimal.Scan.{strtoll, atoi}
use wireless_tsn_configurato.Mvc.EventBus.{Call}
use wireless_tsn_configurato.Device.{Device}
use wireless_tsn_configurato.TimeSync.{Status}
use wireless_tsn_configurato.Db.Engine.{Sqlite}
use wireless_tsn_configurato.Managers.Devices as devices
use wireless_tsn_configurato.Managers.TimeSync as timesync

-- `tl_kind`
pub data Kind : Type 0 where
  nothing heartbeat sync_report sensor : Kind

-- What `parse_payload` returns and writes through its pointers.
pub record Parsed : Type 0 where
  pub kind : Kind
  pub id : CString
  pub offset_ns : ℤ
  pub jitter_ns : ℤ
  pub loss : ℤ

abbrev pub unread : Parsed
unread = record { kind = nothing; id = []; offset_ns = pos 0; jitter_ns = pos 0; loss = pos 0 }

-- `strchr(s, c) + 1`, or none where `strchr` gives NULL.
unfoldable pub behind : ℕ → CString → Option CString
behind c [] = none
behind c (d ∷ s) = let rest = behind c s in if d == c then some s else rest

-- `while (*p == ' ') p++`
unfoldable pub skip_blanks : CString → CString
skip_blanks [] = []
skip_blanks (c ∷ s) = let rest = skip_blanks s in if c == b' ' then rest else c ∷ s

-- The loop that copies an id of at most `cap` bytes: the id, and where `p` stands then.
unfoldable pub take_id : ℕ → CString → CString × CString
take_id zero s = ([], s)
take_id (suc cap) [] = ([], [])
take_id (suc cap) (c ∷ s) =
    let (id, rest) = take_id cap s in if c == b',' || c == b'}' then ([], c ∷ s) else (c ∷ id, rest)

-- One key: where `p` stands after its value and what is then known, or none at `break`.
-- `strncmp(p, "jitter_ns", 10)` compares the closing NUL too.
unfoldable pub field : CString → Parsed → Option (CString × Parsed)
unfolding behind skip_blanks take_id
field p st =
    if starts_with p (codes "offset_ns")
    then behind b':' p >>= (λ v. some (v, record st { offset_ns = strtoll v; kind = sync_report }))
    else if str_eq p (codes "jitter_ns")
    then behind b':' p >>= (λ v. some (v, record st { jitter_ns = strtoll v }))
    else if starts_with p (codes "loss")
    then behind b':' p >>= (λ v. some (v, record st { loss = atoi v }))
    else if starts_with p (codes "heartbeat")
    then some (p, record st { kind = heartbeat })
    else if starts_with p (codes "id")
    then behind b':' p >>= (λ v.
      let (id, rest) = take_id (max_str - 1) (skip_blanks v) in some (rest, record st { id = id }))
    else some (p, st)

abbrev pub is_mark : ℕ → Bool
is_mark c = c == b'{' || c == b'}' || c == b'"'

-- The loop of `parse_payload`; none if the fuel runs out.
unfoldable pub scan : ℕ → CString → Parsed → Option Parsed
unfolding field
scan fuel [] st = some st
scan zero (c ∷ p) st = none
scan (suc fuel) (c ∷ p) st =
    let skipped = scan fuel p st in
    if is_mark c then skipped else elim (field (c ∷ p) st) [
      | none ↦ some st
      | some (q, st') ↦ elim (behind b',' q) [ none ↦ some st' | some r ↦ scan fuel r st' ]
    ]

-- `parse_payload`; the buffer of 512 bytes gives the fuel.
unfoldable pub parse_payload : CString → Option Parsed
unfolding scan
parse_payload payload = scan 512 (copied 512 payload) unread

-- `strcspn(s, "/")`
unfoldable pub span_to_slash : CString → ℕ
span_to_slash [] = 0
span_to_slash (c ∷ s) = let rest = span_to_slash s in if c == b'/' then 0 else suc rest

-- `strncmp(topic, "tsn/status/", 12) == 0`: 11 bytes and the closing NUL.
abbrev pub has_prefix : CString → Bool
has_prefix topic = str_eq topic (codes "tsn/status/")

-- The device id that the topic names.
unfoldable pub node_of : CString → CString
unfolding span_to_slash
node_of topic =
    if has_prefix topic
    then (let base = drop 11 topic in take (min (span_to_slash base) (max_str - 1)) base)
    else []

-- The managers that the handler holds; either may be NULL.
pub record Telemetry (H C U : Type 0) : Type 0 where
  pub devices : Option (devices.Manager H C U)
  pub timesync : Option (timesync.Manager H C U)

abbrev pub is_report : Kind → Bool
is_report sync_report = true
is_report _ = false

-- What the handler has the managers publish.
pub record Calls (C U : Type 0) : Type 0 where
  pub status : List (Call C U (Option Status))
  pub device : List (Call C U (Option Device))

module _ {H C U : Type 0} (sql : Sqlite H) where
  -- The call of `htsn_timesync_manager_record_report`; the connection is shared.
  unfoldable pub report :
      ℤ → Telemetry H C U → CString → Parsed → Telemetry H C U × List (Call C U (Option Status))
  report now t dev r = elim t.timesync [
    | none ↦ (t, [])
    | some m ↦
        let (result, m', calls) =
          timesync.record_report sql now m (some dev) r.offset_ns r.jitter_ns (pos 0) r.loss in
        (
          record {
            devices = t.devices >>= (λ d. some (record d { db = m'.db }));
            timesync = some m';
          },
          calls,
        )
  ]

  -- The call of `htsn_device_manager_record_heartbeat`.
  unfoldable pub beat :
      ℤ → Telemetry H C U → CString → Telemetry H C U × List (Call C U (Option Device))
  beat now t dev = elim t.devices [
    | none ↦ (t, [])
    | some m ↦
        let (result, m', calls) = devices.record_heartbeat sql now m (some dev) in
        (
          record {
            devices = some m';
            timesync = t.timesync >>= (λ s. some (record s { db = m'.db }));
          },
          calls,
        )
  ]

  -- What is done once the payload is parsed, `dev` the device it is about.
  unfoldable pub handle : ℤ → Telemetry H C U → CString → Parsed → Telemetry H C U × Calls C U
  unfolding report beat
  handle now t dev r =
      if is_empty dev
      then (t, record { status = []; device = [] })
      else (let (t', calls) = if is_report r.kind then report now t dev r else (t, []) in
          let (t'', more) = beat now t' dev in (t'', record { status = calls; device = more }))

  -- `on_message` of the client, the time being `now`; none only if parsing runs out of fuel. The
  -- client hands a text on for the payload, never NULL.
  unfoldable pub on_message :
      ℤ → Telemetry H C U → Option CString → CString → Option (Telemetry H C U × Calls C U)
  unfolding node_of handle
  on_message now t none payload = some (t, record { status = []; device = [] })
  on_message now t (some topic) payload =
      if str_eq topic (codes "tsn/status") || has_prefix topic
      then parse_payload payload >>= (λ r.
        let node = node_of topic in some (handle now t (if is_empty node then r.id else node) r))
      else some (t, record { status = []; device = [] })
