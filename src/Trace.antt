-- ===== src/Trace.antt =====
-- src/trace/trace.c: the ring of the last 1024 trace entries.
pub mod Ring
pub mod Hex
pub mod History
use wireless_tsn_configurato.Base.{
  ℕ, ◌+◌, ◌-◌, ◌/◌, ◌%◌, ◌^◌, Bool, Option, none, some, List, [], ◌∷◌, ◌++◌, ltb, leb,
  if◌then◌else◌, get_elem?, replicate, set, take,
}
use wireless_tsn_configurato.Base.Int.{ℤ, pos, negsuc}
use wireless_tsn_configurato.Base.Text.{CString, codes}
use wireless_tsn_configurato.Common.{Error, ok, invalid_arg, max_str}
use wireless_tsn_configurato.Common.StrUtil.{copied}
use wireless_tsn_configurato.Mvc.EventBus.{EventBus, Call}
use wireless_tsn_configurato.Mvc.Model
use wireless_tsn_configurato.Mvc.Model.{Model}
use wireless_tsn_configurato.Db.Engine.{Sqlite}
use wireless_tsn_configurato.Db.Trace as db_trace
use wireless_tsn_configurato.Db.Trace.{LogRow, text_or}

-- `HTSN_TRACE_MAX`, `HTSN_TRACE_LINE`
abbrev pub trace_max : ℕ
trace_max = 1024

abbrev pub trace_line : ℕ
trace_line = 256

-- `htsn_trace_type`
pub data TraceType : Type 0 where
  comm frame config multicast : TraceType

unfoldable pub type_int : TraceType → ℤ
type_int comm = pos 0
type_int frame = pos 1
type_int config = pos 2
type_int multicast = pos 3

-- `htsn_trace_entry`
pub record Entry : Type 0 where
  pub timestamp : CString
  pub type : TraceType
  pub source : CString
  pub line : CString

-- `struct htsn_trace`; `entries` has `trace_max` slots.
pub record Trace (H C U : Type 0) : Type 0 where
  pub model : Model C U
  pub entries : List Entry
  pub count : ℕ
  pub head : ℕ
  pub db : Option H
  pub keep : ℕ

-- The time at a call: `time(NULL)`, and what `strftime("%H:%M:%S")` makes of `localtime`, if that
-- gives a time.
pub record Now : Type 0 where
  pub seconds : ℤ
  pub clock : Option CString

-- The slots that `calloc` leaves.
unfoldable pub blank : Entry
blank = record { timestamp = []; type = comm; source = []; line = [] }

unfoldable pub blank_slots : List Entry
unfolding blank
blank_slots = replicate trace_max blank

-- The entry that `push` fills in.
unfoldable pub entry : Now → TraceType → Option CString → CString → Entry
entry now type source line = record {
  timestamp = text_or [] now.clock;
  type = type;
  source = copied max_str (text_or (codes "-") source);
  line = copied trace_line line;
}

-- `(int)keep`
unfoldable pub as_int : ℕ → ℤ
as_int n = if ltb (n % 2 ^ 32) (2 ^ 31) then pos (n % 2 ^ 32) else negsuc (2 ^ 32 - 1 - n % 2 ^ 32)

-- A hexadecimal digit of `%02X`.
unfoldable pub hex : ℕ → ℕ
hex n = if ltb n 10 then n + b'0' else n - 10 + b'A'

-- The loop of `htsn_trace_add_frame`, `off` bytes of the line written.
unfoldable pub frame_line : ℕ → List ℕ → CString
unfolding hex
frame_line off [] = []
frame_line off (b ∷ bytes) =
    let rest = frame_line (off + 3) bytes in
    if ltb (off + 4) trace_line then hex (b / 16) ∷ hex (b % 16) ∷ b' ' ∷ rest else []

-- The line of `htsn_trace_add_multicast`: `snprintf` into the line.
unfoldable pub multicast_line : Option CString → CString → CString
multicast_line group msg =
    take (trace_line - 1)
      (codes "FX mcast -> " ++ (text_or (codes "?") group ++ (codes ": " ++ msg)))

module _ {H C U : Type 0} where
  -- `htsn_trace_create_persistent`; `htsn_trace_create` is `create_persistent bus none 0`.
  unfoldable pub create_persistent : Option (EventBus C U) → Option H → ℕ → Trace H C U
  unfolding blank_slots
  create_persistent bus db keep = record {
    model = Model.init (codes "trace") bus;
    entries = blank_slots;
    count = 0;
    head = 0;
    db = db;
    keep = keep;
  }

  -- `htsn_trace_entry_at`
  unfoldable pub entry_at : Trace H C U → ℤ → Option Entry
  entry_at t (pos index) =
      if leb t.count index
      then none
      else get_elem? t.entries ((t.head + trace_max - 1 - index) % trace_max)
  entry_at t (negsuc n) = none

  -- `htsn_trace_clear`
  unfoldable pub clear : Trace H C U → Trace H C U
  clear t = record t { count = 0; head = 0 }

-- The database after `push` has logged the entry.
unfoldable pub log : {H : Type 0} → Sqlite H → Now → H → ℕ → Entry → H
unfolding type_int as_int
log sql now h keep e =
    let row : LogRow = record {
      ts = now.seconds;
      type_code = type_int e.type;
      source = e.source;
      line = e.line;
    } in
    let logged = (db_trace.insert sql h row).1 in
    if ltb 0 keep then (db_trace.prune sql logged (as_int keep)).1 else logged

module _ {H C U : Type 0} (sql : Sqlite H) where
  -- `push`
  unfoldable pub push :
      Now → Trace H C U → TraceType → Option CString → CString → Trace H C U × List (Call C U Entry)
  unfolding entry log
  push now t type source line =
      let e = entry now type source line in
      (
        record t {
          entries = set t.entries t.head e;
          db = elim t.db [ none ↦ none | some h ↦ some (log sql now h t.keep e) ];
          head = (t.head + 1) % trace_max;
          count = if ltb t.count trace_max then t.count + 1 else t.count;
        },
        Model.notify_data t.model (some (codes "entry")) e,
      )

  -- `htsn_trace_add_comm`, `_config`, `_multicast`, `_frame`; `bytes` is `len` bytes, or NULL.
  unfoldable pub add_comm :
      Now
      → Trace H C U
      → Option CString
      → Option CString
      → Error × Trace H C U × List (Call C U Entry)
  add_comm now t source none = (invalid_arg, t, [])
  add_comm now t source (some msg) = let (t', calls) = push now t comm source msg in (ok, t', calls)

  unfoldable pub add_config :
      Now
      → Trace H C U
      → Option CString
      → Option CString
      → Error × Trace H C U × List (Call C U Entry)
  add_config now t source none = (invalid_arg, t, [])
  add_config now t source (some what) =
      let (t', calls) = push now t config source what in (ok, t', calls)

  unfoldable pub add_multicast :
      Now
      → Trace H C U
      → Option CString
      → Option CString
      → Option CString
      → Error × Trace H C U × List (Call C U Entry)
  unfolding multicast_line
  add_multicast now t source group none = (invalid_arg, t, [])
  add_multicast now t source group (some msg) =
      let (t', calls) = push now t multicast source (multicast_line group msg) in (ok, t', calls)

  unfoldable pub add_frame :
      Now
      → Trace H C U
      → Option CString
      → Option (List ℕ)
      → ℕ
      → Error × Trace H C U × List (Call C U Entry)
  unfolding frame_line
  add_frame now t source none len =
      if ltb 0 len
      then (invalid_arg, t, [])
      else let (t', calls) = push now t frame source [] in (ok, t', calls)
  add_frame now t source (some bytes) len =
      let (t', calls) = push now t frame source (frame_line 0 bytes) in (ok, t', calls)
