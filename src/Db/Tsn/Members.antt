-- ===== src/Db/Tsn/Members.antt =====
-- A stream written to the database and read back.
use mathlib.Core.List.{append_assoc, append-nil}
use wireless_tsn_configurato.Base.{
  ◌+◌, ◌≤◌, ◌<◌, ◌≡◌, refl, ◌∙◌, ap, Bool, true, false, some, List, [], ◌∷◌, ◌++◌, map, arith,
  String, if◌then◌else◌, leb, length, length-append, drop, All, Bool-cases, inl, inr,
}
use wireless_tsn_configurato.Base.Text.{CString, codes, is_empty, str_eq}
use wireless_tsn_configurato.Common.{ok, max_str, max_devices}
use wireless_tsn_configurato.Common.StrUtil.Copy.{copied_of_lt}
use wireless_tsn_configurato.Stream.{Status, Stream, all_listeners, status_int, int_status}
use wireless_tsn_configurato.Db.Engine.{Value, text, Sqlite, ReadsBack, step_each, text_column}
use wireless_tsn_configurato.Db.Engine.Laws.{copy_column_text, int_column_int, text_column_text}
use wireless_tsn_configurato.Db.Tsn.{
  save_sql, clear_sql, member_sql, load_sql, members_sql, bound, listener_rows, member_rows,
  take_member, take_members, from_row, save, load,
}

-- The listeners that have a name.
abbrev pub named : List CString → List CString
named [] = []
named (l ∷ ls) = if is_empty l then named ls else l ∷ named ls

-- A listener's name fits its buffer, and is not the wildcard.
abbrev pub IsListener : CString → Type 0
IsListener l = (length l < max_str) × (str_eq l all_listeners ≡ false)

listener_word : str_eq (codes "listener") (codes "listener") ≡ true
unfolding str_eq
listener_word = refl

talker_word : str_eq (codes "talker") (codes "listener") ≡ false
unfolding str_eq
talker_word = refl

wildcard_word : str_eq all_listeners all_listeners ≡ true
unfolding str_eq
wildcard_word = refl

take_listener :
    (l : CString) (got : List CString) (all : Bool)
    → IsListener l
    → length got < max_devices
    → take_member (codes "listener") l (got, all) ≡ (got ++ l ∷ [], all)
unfolding take_member
take_listener l got all (fits, other) room =
    let space : leb max_devices (length got) ≡ false = ground arith in
    rw (listener_word, other, space, copied_of_lt max_str l fits)

take_talker : (dev : CString) → take_member (codes "talker") dev ([], false) ≡ ([], false)
unfolding take_member
take_talker dev = rw talker_word

take_wildcard : take_member (codes "listener") all_listeners ([], false) ≡ ([], true)
unfolding take_member
take_wildcard = rw (listener_word, wildcard_word)

-- The columns that the load selects, of the three that the save writes.
abbrev pub selected : List (List Value) → List (List Value)
selected = map (drop 1)

module _ {H : Type 0} (sql : Sqlite H) (reads : ReadsBack sql) where
  take_members_cons :
      (id role dev : CString) (rows : List (List Value)) (got : List CString × Bool)
      → take_members sql (selected ((text id ∷ text role ∷ text dev ∷ []) ∷ rows)) got
        ≡ take_members sql (selected rows) (take_member role dev got)
  unfolding take_members
  take_members_cons id role dev rows got =
      let row = text role ∷ text dev ∷ [] in
      ap (λ r. take_members sql (selected rows) (take_member r (text_column sql row 1) got))
        (text_column_text sql reads row 0 role refl)
      ∙ ap (λ d. take_members sql (selected rows) (take_member role d got))
          (text_column_text sql reads row 1 dev refl)

  take_listeners :
      (id : CString) (ls got : List CString) (all : Bool)
      → All IsListener ls
      → length got + length ls ≤ max_devices
      → take_members sql (selected (listener_rows id ls)) (got, all) ≡ (got ++ named ls, all)
  unfolding listener_rows take_members
  take_listeners id [] got all h room = rw append-nil
  take_listeners id (l ∷ ls) got all h room = elim (Bool-cases (is_empty l)) [
    | inl p ↦ rw p (take_listeners id ls got all h.1 (omega arith))
    | inr p ↦ rw p (
        take_members_cons id (codes "listener") l (listener_rows id ls) (got, all)
        ∙ ap (take_members sql (selected (listener_rows id ls)))
            (take_listener l got all h.0 (omega arith))
        ∙ take_listeners id ls (got ++ l ∷ []) all h.1 (omega (arith, length-append got (l ∷ [])))
        ∙ rw (append_assoc got (l ∷ []) (named ls)))
  ]

  take_wildcard_listeners :
      (id : CString) (ls : List CString) (all : Bool)
      → All IsListener ls
      → length ls ≤ max_devices
      → take_members sql
          (selected (
            (if all then (text id ∷ text (codes "listener") ∷ text all_listeners ∷ []) ∷ [] else [])
            ++ listener_rows id ls))
          ([], false)
        ≡ (named ls, all)
  take_wildcard_listeners id ls true h room =
      take_members_cons id (codes "listener") all_listeners (listener_rows id ls) ([], false)
      ∙ ap (take_members sql (selected (listener_rows id ls))) take_wildcard
      ∙ take_listeners id ls [] true h (omega arith)
  take_wildcard_listeners id ls false h room = take_listeners id ls [] false h (omega arith)

  -- The member rows of a stream give back its named listeners, in order, and its wildcard.
  take_members-member_rows :
      (s : Stream)
      → All IsListener s.listeners
      → length s.listeners ≤ max_devices
      → take_members sql (selected (member_rows s)) ([], false)
        ≡ (named s.listeners, s.listener_all)
  unfolding member_rows
  take_members-member_rows s h room =
      take_members_cons s.stream_id (codes "talker") s.talker _ ([], false)
      ∙ ap (take_members sql _) (take_talker s.talker)
      ∙ take_wildcard_listeners s.stream_id s.listeners s.listener_all h room

-- One of the four states of the enum: those that the table of streams accepts.
abbrev pub IsNamed : Status → Type 0
IsNamed (Status.other n) = ⊥
IsNamed _ = Unit

int_status-status_int : (st : Status) → IsNamed st → int_status (status_int st) ≡ st
unfolding int_status status_int
int_status-status_int Status.configured h = refl
int_status-status_int Status.ready h = refl
int_status-status_int Status.failed h = refl
int_status-status_int Status.standby h = refl
int_status-status_int (Status.other n) h = absurd h

module _ {H : Type 0} (sql : Sqlite H) where
  -- Each step of a statement, one for each row of parameters, is done.
  abbrev pub AllDone : H → String → List (List Value) → Type 0
  AllDone h statement [] = Unit
  AllDone h statement (values ∷ more) =
      ((sql.step h statement values).0 ≡ true)
      × AllDone (sql.step h statement values).1 statement more

  -- The steps of a save that SQLite does: the row, the clearing, and every member.
  pub record StepsDone (h : H) (s : Stream) : Type 0 where
    pub row : (sql.step h save_sql (bound s)).0 ≡ true
    pub cleared :
        (sql.step (sql.step h save_sql (bound s)).1 clear_sql (text s.stream_id ∷ [])).0 ≡ true
    pub members :
        AllDone
          (sql.step (sql.step h save_sql (bound s)).1 clear_sql (text s.stream_id ∷ [])).1
          member_sql
          (member_rows s)

  -- What the code relies on of the statements on the two stream tables: where the row of a stream
  -- with a named state is written, its members are cleared and each of its member rows is inserted,
  -- and all these steps are done, the selects by its id prepare and give the row, and the two
  -- selected columns of the member rows in the order of their insertion.
  pub record KeepsStreams : Type 0 where
    pub written :
        (h : H) (s : Stream)
        → IsNamed s.status
        → StepsDone h s
        → let cleared =
            (sql.step (sql.step h save_sql (bound s)).1 clear_sql (text s.stream_id ∷ [])).1 in
          let h' = step_each sql cleared member_sql (member_rows s) in
          (sql.prepares h' load_sql ≡ true)
          × (sql.rows h' load_sql (text s.stream_id ∷ []) ≡ bound s ∷ [])
          × (sql.prepares h' members_sql ≡ true)
          × (sql.rows h' members_sql (text s.stream_id ∷ []) ≡ selected (member_rows s))

-- The texts of a stream fit their buffers, its listeners their array, and its state has a name.
pub record Fits (s : Stream) : Type 0 where
  pub stream_id : length s.stream_id < max_str
  pub name : length s.name < max_str
  pub talker : length s.talker < max_str
  pub comment : length s.comment < max_str
  pub listeners : All IsListener s.listeners
  pub count : length s.listeners ≤ max_devices
  pub status : IsNamed s.status

module _ {H : Type 0} (sql : Sqlite H) (reads : ReadsBack sql) where
  from_row-bound :
      (s : Stream)
      → Fits s
      → from_row sql (bound s) (named s.listeners, s.listener_all)
        ≡ record s { listeners = named s.listeners }
  unfolding from_row bound
  from_row-bound s f = rw (
    copy_column_text sql reads max_str (bound s) 0 s.stream_id refl,
    copy_column_text sql reads max_str (bound s) 1 s.name refl,
    copy_column_text sql reads max_str (bound s) 2 s.talker refl,
    int_column_int sql reads (bound s) 3 s.vlan_id refl,
    int_column_int sql reads (bound s) 4 s.max_latency_ns refl,
    int_column_int sql reads (bound s) 5 s.max_interval_ns refl,
    int_column_int sql reads (bound s) 6 s.priority refl,
    int_column_int sql reads (bound s) 7 s.data_frame_prio refl,
    int_column_int sql reads (bound s) 8 (status_int s.status) refl,
    copy_column_text sql reads max_str (bound s) 9 s.comment refl,
    copied_of_lt max_str s.stream_id f.stream_id,
    copied_of_lt max_str s.name f.name,
    copied_of_lt max_str s.talker f.talker,
    copied_of_lt max_str s.comment f.comment,
    int_status-status_int s.status f.status,
  )

  saved_ok :
      (h : H) (s : Stream)
      → (save sql h s).0 ≡ ok
      → (save sql h s).1
        ≡ step_each sql
            (sql.step (sql.step h save_sql (bound s)).1 clear_sql (text s.stream_id ∷ [])).1
            member_sql
            (member_rows s)
  unfolding save
  saved_ok h s done = ground arith

  load_of_rows :
      (h : H) (id : CString) (row : List Value) (members : List (List Value))
      → sql.prepares h load_sql ≡ true
      → sql.rows h load_sql (text id ∷ []) ≡ row ∷ []
      → sql.prepares h members_sql ≡ true
      → sql.rows h members_sql (text id ∷ []) ≡ members
      → load sql h id ≡ (ok, some (from_row sql row (take_members sql members ([], false))))
  unfolding load
  load_of_rows h id row members p r q m = rw (p, r) (rw (q, m))

  -- For a stream whose texts fit their buffers, whose state is one of the four, and that has at most
  -- 512 listeners, none of them the wildcard's text: on an engine that keeps the rows, when saving
  -- reports success and each step of it was done (which saving does not look at), loading by the id
  -- returns the stream, without the listeners that have no name.
  pub load-save_stream :
      (keeps : KeepsStreams sql) (h : H) (s : Stream)
      → Fits s
      → StepsDone sql h s
      → (save sql h s).0 ≡ ok
      → load sql (save sql h s).1 s.stream_id
        ≡ (ok, some (record s { listeners = named s.listeners }))
  load-save_stream keeps h s f steps done =
      let (row_prepares, row, members_prepare, members) = keeps.written h s f.status steps in
      ap (λ c. load sql c s.stream_id) (saved_ok h s done)
      ∙ load_of_rows _ s.stream_id (bound s) (selected (member_rows s)) row_prepares row
          members_prepare members
      ∙ ap (λ got. (ok, some (from_row sql (bound s) got)))
          (take_members-member_rows sql reads s f.listeners f.count)
      ∙ ap (λ t. (ok, some t)) (from_row-bound s f)
