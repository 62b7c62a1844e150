-- ===== src/Agent/Tsn/Streams.antt =====
-- esp32-agent/components/htsn_agent/htsn_tsn.c: the table of the streams. Its length is
-- `htsn_tsn_stream_count`; a listener count is not negative.
use wireless_tsn_configurato.Base.{
  ℕ, ◌≤◌, ◌-◌, ◌≡◌, refl, Bool, true, false, Option, none, some, List, [], ◌∷◌, ◌++◌, arith, leb,
  ltb, ◌&&◌, ◌||◌, length-append, if◌then◌else◌, length, replicate, take, Bool-cases, inl, inr,
}
use wireless_tsn_configurato.Base.Int.{ℤ, pos, negsuc}
use wireless_tsn_configurato.Base.Table.{
  text_eq, find, has, overwrite, Unique, find-overwrite, find-append_new, Unique-overwrite,
  Unique-append_new, length-overwrite,
}
use wireless_tsn_configurato.Base.Text.{CString, str_eq}

-- `HTSN_STREAM_MAX_LISTENERS` and `HTSN_STREAM_MAX`
abbrev pub listener_max : ℕ
listener_max = 8

abbrev pub stream_max : ℕ
stream_max = 8

-- `htsn_stream`; the listeners are an array of `listener_max` names.
pub record Stream : Type 0 where
  pub stream_id : CString
  pub name : CString
  pub talker : CString
  pub listeners : List CString
  pub listener_count : ℕ
  pub vlan_id : ℤ
  pub max_latency_ns : ℤ
  pub max_interval_ns : ℤ
  pub priority : ℤ
  pub data_frame_prio : ℤ

abbrev pub stream_key : Stream → CString
stream_key s = s.stream_id

-- `htsn_tsn_find_stream`
abbrev pub find_stream : List Stream → Option CString → Option Stream
find_stream streams none = none
find_stream streams (some id) = find stream_key id streams

-- The copy that the table keeps: the names behind the count are empty.
unfoldable pub trimmed : Stream → Stream
trimmed s = record s {
  listeners = take s.listener_count s.listeners ++ replicate (listener_max - s.listener_count) [];
}

-- `htsn_tsn_apply_stream`
unfoldable pub apply_stream : List Stream → Option Stream → List Stream × ℤ
unfolding trimmed
apply_stream streams none = (streams, negsuc 0)
apply_stream streams (some s) =
    if ltb listener_max s.listener_count
    then (streams, negsuc 0)
    else if has stream_key s.stream_id streams
    then (overwrite stream_key (trimmed s) streams, pos 0)
    else if leb stream_max (length streams)
    then (streams, negsuc 0)
    else (streams ++ (trimmed s ∷ []), pos 0)

-- A table within the array, in which no two streams have one id.
pub record IsSound (streams : List Stream) : Type 0 where
  pub bounded : length streams ≤ stream_max
  pub unique : Unique stream_key streams

-- Whether a stream is taken: not too many listeners, and a place for it.
abbrev pub accepts : List Stream → Stream → Bool
accepts streams s =
    leb s.listener_count listener_max
    && (has stream_key s.stream_id streams || ltb (length streams) stream_max)

-- What the next lookups find.
abbrev pub finding : List Stream → Stream → CString → Option Stream
finding streams s id =
    if accepts streams s && str_eq s.stream_id id
    then some (record s {
      listeners =
          take s.listener_count s.listeners ++ replicate (listener_max - s.listener_count) [];
    })
    else find_stream streams (some id)

-- In a sound table a stream with no more than eight listeners is taken where its id is known or one
-- of the eight places is free, and refused with -1 elsewhere: the table stays sound, the id then finds
-- the stream with the names behind its count of listeners emptied, and every other id, or every id
-- where it is refused, what it found before.
pub apply_stream_lem :
    (streams : List Stream) (s : Stream)
    → IsSound streams
    → IsSound (apply_stream streams (some s)).0
      × ((apply_stream streams (some s)).1 ≡ (if accepts streams s then pos 0 else negsuc 0))
      × ((id : CString)
          → find_stream (apply_stream streams (some s)).0 (some id) ≡ finding streams s id)
unfolding apply_stream trimmed
apply_stream_lem streams s v = elim (Bool-cases (ltb listener_max s.listener_count)) [
  | inl many ↦
      let no : leb s.listener_count listener_max ≡ false = ground (arith, many) in
      rw (many, no) (v, refl, λ id. refl)
  | inr few ↦
      let yes : leb s.listener_count listener_max ≡ true = ground (arith, few) in
      rw (few, yes)
        (elim (Bool-cases (has stream_key s.stream_id streams)) [
          | inl known ↦ rw known (
            record {
              bounded = omega (arith, length-overwrite stream_key (trimmed s) streams, v.bounded);
              unique = Unique-overwrite stream_key (trimmed s) streams v.unique;
            },
            refl,
            λ id. find-overwrite stream_key id (trimmed s) streams known,
          )
          | inr new ↦ rw new (elim (Bool-cases (leb stream_max (length streams))) [
            | inl full ↦
                let none_left : ltb (length streams) stream_max ≡ false = ground (arith, full) in
                rw (full, none_left) (v, refl, λ id. refl)
            | inr room ↦
                let left : ltb (length streams) stream_max ≡ true = ground (arith, room) in
                rw (room, left)
                  (
                    record {
                      bounded = ground (arith, length-append streams (trimmed s ∷ []), room);
                      unique = Unique-append_new stream_key (trimmed s) streams v.unique new;
                    },
                    refl,
                    λ id. find-append_new stream_key id (trimmed s) streams new,
                  )
          ])
        ])
]
