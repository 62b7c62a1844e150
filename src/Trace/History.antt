-- ===== src/Trace/History.antt =====
-- What src/trace/trace.c keeps of its calls: the ring against a list of the latest entries.
use wireless_tsn_configurato.Base.{
  ℕ, ◌-◌, ◌≤◌, ◌<◌, ◌≡◌, ap, refl, sym, ◌∙◌, Option, none, some, List, [], ◌∷◌, arith, ltb, leb,
  if◌then◌else◌, length, get_elem?, take, length-set, length-replicate, get_elem?_of_ge, inl, inr,
  Bool-cases, leb→le,
}
use wireless_tsn_configurato.Base.Int.{pos, negsuc}
use wireless_tsn_configurato.Base.Text.{CString}
use wireless_tsn_configurato.Mvc.EventBus.{EventBus}
use wireless_tsn_configurato.Db.Engine.{Sqlite}
use wireless_tsn_configurato.Trace.{
  Trace, Entry, Now, TraceType, comm, frame, config, multicast, trace_max, blank, blank_slots,
  entry, frame_line, multicast_line, create_persistent, push, add_comm, add_config, add_multicast,
  add_frame, entry_at, clear,
}
use wireless_tsn_configurato.Trace.Ring.{newest, length-newest, get_elem?-newest, newest-grown}

-- The calls of a client, in order.
pub data Op : Type 0 where
  on_comm : Now → Option CString → Option CString → Op
  on_config : Now → Option CString → Option CString → Op
  on_multicast : Now → Option CString → Option CString → Option CString → Op
  on_frame : Now → Option CString → Option (List ℕ) → ℕ → Op
  on_clear : Op

-- The entry that a call is to add.
abbrev pub added : Op → Option Entry
added (on_comm now source none) = none
added (on_comm now source (some msg)) = some (entry now comm source msg)
added (on_config now source none) = none
added (on_config now source (some what)) = some (entry now config source what)
added (on_multicast now source group none) = none
added (on_multicast now source group (some msg)) =
    some (entry now multicast source (multicast_line group msg))
added (on_frame now source none len) = if ltb 0 len then none else some (entry now frame source [])
added (on_frame now source (some bytes) len) = some (entry now frame source (frame_line 0 bytes))
added on_clear = none

abbrev remember : List Entry → Option Entry → List Entry
remember es none = es
remember es (some e) = take trace_max (e ∷ es)

abbrev after : List Entry → Op → List Entry
after es on_clear = []
after es op = remember es (added op)

-- The latest 1024 entries since the last clearing, the newest first.
abbrev pub recall : List Entry → List Op → List Entry
recall es [] = es
recall es (op ∷ ops) = recall (after es op) ops

module _ {H C U : Type 0} (sql : Sqlite H) where
  -- The trace after one call, and after all.
  abbrev pub call : Trace H C U → Op → Trace H C U
  call t (on_comm now source msg) = (add_comm sql now t source msg).1
  call t (on_config now source what) = (add_config sql now t source what).1
  call t (on_multicast now source group msg) = (add_multicast sql now t source group msg).1
  call t (on_frame now source bytes len) = (add_frame sql now t source bytes len).1
  call t on_clear = clear t

  abbrev pub run : Trace H C U → List Op → Trace H C U
  run t [] = t
  run t (op ∷ ops) = run (call t op) ops

  pub record IsValid (t : Trace H C U) : Type 0 where
    pub slots : length t.entries ≡ trace_max
    pub head : t.head < trace_max
    pub count : t.count ≤ trace_max

  abbrev view : Trace H C U → List Entry
  view t = newest blank t.entries t.head t.count

  create_persistent-IsValid :
      (bus : Option (EventBus C U)) (db : Option H) (keep : ℕ)
      → IsValid (create_persistent bus db keep)
  unfolding create_persistent blank_slots
  create_persistent-IsValid bus db keep = record {
    slots = length-replicate trace_max blank;
    head = omega arith;
    count = omega arith;
  }

  push-IsValid :
      (now : Now) (t : Trace H C U) (type : TraceType) (source : Option CString) (line : CString)
      → IsValid t
      → IsValid (push sql now t type source line).0
  unfolding push
  push-IsValid now t type source line v = record {
    slots = omega (arith, v.slots, length-set t.entries t.head (entry now type source line));
    head = omega arith;
    count = ground (arith, v.count);
  }

  view-push :
      (now : Now) (t : Trace H C U) (type : TraceType) (source : Option CString) (line : CString)
      → IsValid t
      → view (push sql now t type source line).0
        ≡ take trace_max (entry now type source line ∷ view t)
  unfolding push
  view-push now t type source line v =
      newest-grown blank t.entries (entry now type source line) t.head (trace_max - 1) t.count
        v.slots v.head refl v.count

  add_frame_null :
      (now : Now) (t : Trace H C U) (source : Option CString) (len : ℕ)
      → IsValid t
      → IsValid (add_frame sql now t source none len).1
        × (view (add_frame sql now t source none len).1
            ≡ remember (view t) (added (on_frame now source none len)))
  unfolding add_frame
  add_frame_null now t source len v = elim (Bool-cases (ltb 0 len)) [
    | inl missing ↦ rw missing (v, refl)
    | inr empty ↦ rw empty (push-IsValid now t frame source [] v, view-push now t frame source [] v)
  ]

  -- A call leaves the ring valid, and holding what the list of the latest entries holds.
  call-remember :
      (t : Trace H C U) (op : Op)
      → IsValid t
      → IsValid (call t op) × (view (call t op) ≡ after (view t) op)
  unfolding add_comm add_config add_multicast add_frame clear
  call-remember t (on_comm now source none) v = (v, refl)
  call-remember t (on_comm now source (some msg)) v =
      (push-IsValid now t comm source msg v, view-push now t comm source msg v)
  call-remember t (on_config now source none) v = (v, refl)
  call-remember t (on_config now source (some what)) v =
      (push-IsValid now t config source what v, view-push now t config source what v)
  call-remember t (on_multicast now source group none) v = (v, refl)
  call-remember t (on_multicast now source group (some msg)) v =
      let line = multicast_line group msg in
      (push-IsValid now t multicast source line v, view-push now t multicast source line v)
  call-remember t (on_frame now source none len) v = add_frame_null now t source len v
  call-remember t (on_frame now source (some bytes) len) v =
      let line = frame_line 0 bytes in
      (push-IsValid now t frame source line v, view-push now t frame source line v)
  call-remember t on_clear v =
      (record { slots = v.slots; head = omega arith; count = omega arith }, refl)

  entry_at-view : (t : Trace H C U) (i : ℕ) → IsValid t → entry_at t (pos i) ≡ get_elem? (view t) i
  unfolding entry_at
  entry_at-view t i v = elim (Bool-cases (leb t.count i)) [
    | inl out ↦ rw (
      out,
      get_elem?_of_ge (view t) i
          (omega (arith, leb→le t.count i, length-newest blank t.entries t.head t.count)),
    )
    | inr within ↦
        rw within
          (get_elem?-newest blank t.entries t.head t.count i v.slots v.head v.count (ground arith))
  ]

  run-recall :
      (t : Trace H C U) (ops : List Op)
      → IsValid t
      → IsValid (run t ops) × (view (run t ops) ≡ recall (view t) ops)
  run-recall t [] v = (v, refl)
  run-recall t (op ∷ ops) v =
      let (v', e) = call-remember t op v in
      let (w, f) = run-recall (call t op) ops v' in (w, f ∙ ap (λ es. recall es ops) e)

  -- Whatever calls are made of a new trace, it answers as the list of the latest 1024 entries since
  -- the last clearing does: `htsn_trace_entry_at` gives its entry at each index, the newest at 0, and
  -- nothing outside of it, and `htsn_trace_count` gives its length.
  pub entry_at-run :
      (bus : Option (EventBus C U)) (db : Option H) (keep : ℕ) (ops : List Op)
      → let t = run (create_persistent bus db keep) ops in
        ((i : ℕ) → entry_at t (pos i) ≡ get_elem? (recall [] ops) i)
        × ((n : ℕ) → entry_at t (negsuc n) ≡ none)
        × (t.count ≡ length (recall [] ops))
  unfolding entry_at create_persistent
  entry_at-run bus db keep ops =
      let new = create_persistent bus db keep in
      let (v, e) = run-recall new ops (create_persistent-IsValid bus db keep) in
      let t = run new ops in
      (
        λ i. entry_at-view t i v ∙ ap (λ es. get_elem? es i) e,
        λ n. refl,
        sym (length-newest blank t.entries t.head t.count) ∙ ap length e,
      )
