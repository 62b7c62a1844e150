-- ===== src/Managers/Tsn/Table.antt =====
-- The table of streams as a map from ids to streams.
use wireless_tsn_configurato.Base.{
  ◌+◌, ◌≤◌, ◌<◌, ◌≡◌, ◌≢◌, ◌⊎◌, refl, true, false, none, some, [], ◌∷◌, ◌++◌, arith, leb,
  if◌then◌else◌, length, length-append, Bool-cases, Option-cases, inl, inr,
}
use wireless_tsn_configurato.Base.Text.{CString, codes, str_eq, str_eq_iff}
use wireless_tsn_configurato.Base.Table.{
  text_eq, find, has, overwrite, Unique, find-overwrite, find-append_new, find-erase, has_of_find,
  Unique-overwrite, Unique-append_new, Unique-erase, length-overwrite, length-erase,
}
use wireless_tsn_configurato.Common.{Error, ok, not_found, busy, max_devices}
use wireless_tsn_configurato.Stream.{Stream, validate}
use wireless_tsn_configurato.Db.Engine.{Sqlite}
use wireless_tsn_configurato.Db.Tsn as db_tsn
use wireless_tsn_configurato.Managers.Tsn.{Manager, stream_key, notify, add, remove, load}

-- The streams are within the array, and no two have one id.
pub record IsSound {H B C U : Type 0} (m : Manager H B C U) : Type 0 where
  pub bounded : length m.streams ≤ max_devices
  pub unique : Unique stream_key m.streams

-- The four ways in which `htsn_tsn_manager_add` can go.
data Outcome {H B C U : Type 0} (m : Manager H B C U) (s : Stream) : Type 0 where
  updates : validate s ≡ ok → has stream_key s.stream_id m.streams ≡ true → Outcome m s
  creates :
      validate s ≡ ok
      → has stream_key s.stream_id m.streams ≡ false
      → length m.streams < max_devices
      → Outcome m s
  full :
      validate s ≡ ok
      → has stream_key s.stream_id m.streams ≡ false
      → max_devices ≤ length m.streams
      → Outcome m s
  refused : validate s ≢ ok → Outcome m s

outcome : {H B C U : Type 0} (m : Manager H B C U) (s : Stream) → Outcome m s
outcome m s = go (validate s) refl
  where
    go : (e : Error) → validate s ≡ e → Outcome m s
    go ok p = elim (Bool-cases (has stream_key s.stream_id m.streams)) [
      | inl known ↦ updates p known
      | inr new ↦ elim (Bool-cases (leb max_devices (length m.streams))) [
        | inl over ↦ full p new (ground arith)
        | inr room ↦ creates p new (ground arith)
      ]
    ]
    go e p = refused (λ q. cc)

module _ {H B C U : Type 0} (m' m : Manager H B C U) where
  loaded :
      (k : CString) (s : Stream)
      → find stream_key k m'.streams
        ≡ (if str_eq s.stream_id k then some s else find stream_key k m.streams)
      → load m' (some k) ≡ (if str_eq s.stream_id k then (ok, some s) else load m (some k))
  unfolding load
  loaded k s e = elim (Bool-cases (str_eq s.stream_id k)) [
    | inl t ↦ rw (e, load) (rw t)
    | inr t ↦ rw (e, load) (rw t)
  ]

  gone :
      (k j : CString)
      → find stream_key k m'.streams ≡ (if str_eq j k then none else find stream_key k m.streams)
      → load m' (some k) ≡ (if str_eq j k then (not_found, none) else load m (some k))
  unfolding load
  gone k j e = elim (Bool-cases (str_eq j k)) [
    | inl t ↦ rw (e, load) (rw t)
    | inr t ↦ rw (e, load) (rw t)
  ]

load_missing :
    {H B C U : Type 0} (m : Manager H B C U) (k : CString)
    → find stream_key k m.streams ≡ none
    → load m (some k) ≡ (not_found, none)
unfolding load
load_missing m k e = rw (e, load)

module _ {H B C U : Type 0} (sql : Sqlite H) (m : Manager H B C U) (s : Stream) where
  add_updates :
      validate s ≡ ok
      → has stream_key s.stream_id m.streams ≡ true
      → add sql m (some s) ≡ (
        ok,
        record m { streams = overwrite stream_key s m.streams; db = (db_tsn.save sql m.db s).1 },
        notify m.model (codes "updated") s,
      )
  unfolding add
  add_updates p known = rw (p, add) (rw known)

  add_creates :
      validate s ≡ ok
      → has stream_key s.stream_id m.streams ≡ false
      → length m.streams < max_devices
      → add sql m (some s) ≡ (
        ok,
        record m { streams = m.streams ++ (s ∷ []); db = (db_tsn.save sql m.db s).1 },
        notify m.model (codes "created") s,
      )
  unfolding add
  add_creates p new room =
      let space : leb max_devices (length m.streams) ≡ false = ground arith in
      rw (p, add) (rw (new, space))

  add_full :
      validate s ≡ ok
      → has stream_key s.stream_id m.streams ≡ false
      → max_devices ≤ length m.streams
      → add sql m (some s) ≡ (busy, m, [])
  unfolding add
  add_full p new over =
      let spent : leb max_devices (length m.streams) ≡ true = ground arith in
      rw (p, add) (rw (new, spent))

  add_refused : validate s ≢ ok → add sql m (some s) ≡ (validate s, m, [])
  unfolding add
  add_refused n = go (validate s) refl
    where
      go : (e : Error) → validate s ≡ e → add sql m (some s) ≡ (validate s, m, [])
      go ok p = absurd (n p)
      go e p = rw (p, add)

  -- Adding a stream, whatever comes of it, keeps the table within its array and its ids apart.
  pub add-IsSound : IsSound m → IsSound (add sql m (some s)).1
  add-IsSound v = elim (outcome m s) [
    | updates p known ↦ rw (add_updates p known) (record {
      bounded = omega (arith, length-overwrite stream_key s m.streams, v.bounded);
      unique = Unique-overwrite stream_key s m.streams v.unique;
    })
    | creates p new room ↦ rw (add_creates p new room) (record {
      bounded = omega (arith, length-append m.streams (s ∷ []));
      unique = Unique-append_new stream_key s m.streams v.unique new;
    })
    | full p new over ↦ rw (add_full p new over) v
    | refused n ↦ rw (add_refused n) v
  ]

  -- After a stream is added successfully, loading its id gives that stream, and loading any other id
  -- gives what it gave before.
  pub load-add :
      (k : CString)
      → (add sql m (some s)).0 ≡ ok
      → load (add sql m (some s)).1 (some k)
        ≡ (if str_eq s.stream_id k then (ok, some s) else load m (some k))
  load-add k done = elim (outcome m s) [
    | updates p known ↦
        rw (add_updates p known) (loaded _ m k s (find-overwrite stream_key k s m.streams known))
    | creates p new room ↦
        rw (add_creates p new room) (loaded _ m k s (find-append_new stream_key k s m.streams new))
    | full p new over ↦ absurd (never (rw (add_full p new over) at done))
    | refused n ↦ absurd (n (rw (add_refused n) at done))
  ]
    where
      never : busy ≡ ok → ⊥
      never e = cc

  -- A stream is taken exactly when its check passes and its id is known or the table has room; else
  -- the manager, with its database, is as it was and nobody is called.
  pub add_refuses :
      (((add sql m (some s)).0 ≡ ok)
        × (validate s ≡ ok)
        × ((has stream_key s.stream_id m.streams ≡ true) ⊎ (length m.streams < max_devices)))
      ⊎ (((validate s ≢ ok)
            ⊎ ((has stream_key s.stream_id m.streams ≡ false) × (max_devices ≤ length m.streams)))
          × ((add sql m (some s)).0 ≢ ok)
          × ((add sql m (some s)).1 ≡ m)
          × ((add sql m (some s)).2 ≡ []))
  add_refuses = elim (outcome m s) [
    | updates p known ↦ rw (add_updates p known) (inl (refl, p, inl known))
    | creates p new room ↦ rw (add_creates p new room) (inl (refl, p, inr room))
    | full p new over ↦
        rw (add_full p new over) (inr (inr (new, over), (λ (e : busy ≡ ok). cc), refl, refl))
    | refused n ↦ rw (add_refused n) (inr (inl n, n, refl, refl))
  ]

module _ {H B C U : Type 0} (sql : Sqlite H) (m : Manager H B C U) (stream_id : CString) where
  -- From a sound table: a stream that is removed is no longer found, every other id is loaded as
  -- before, the table is one shorter and stays sound; an unknown id is refused and changes nothing.
  pub load-remove :
      IsSound m
      → let (result, m', calls) = remove sql m (some stream_id) in
        IsSound m'
        × ((k : CString)
            → load m' (some k)
              ≡ (if str_eq stream_id k then (not_found, none) else load m (some k)))
        × (((result ≡ ok) × (length m'.streams + 1 ≡ length m.streams))
            ⊎ ((result ≡ not_found) × (m' ≡ m) × (calls ≡ [])))
  unfolding remove
  load-remove v = elim (Option-cases (find stream_key stream_id m.streams)) [
    | inl missing ↦ rw (missing, remove) (v, unchanged missing, inr (refl, refl, refl))
    | inr (s, found) ↦
        rw (found, remove)
          (
            record {
              bounded = omega (
                arith,
                v.bounded,
                length-erase stream_key stream_id m.streams
                    (has_of_find stream_key stream_id m.streams s found),
              );
              unique = Unique-erase stream_key stream_id m.streams v.unique;
            },
            (λ k. gone _ m k stream_id (find-erase stream_key k stream_id m.streams v.unique)),
            inl (
              refl,
              length-erase stream_key stream_id m.streams
                  (has_of_find stream_key stream_id m.streams s found),
            ),
          )
  ]
    where
      unchanged :
          find stream_key stream_id m.streams ≡ none
          → (k : CString)
          → load m (some k) ≡ (if str_eq stream_id k then (not_found, none) else load m (some k))
      unchanged missing k = elim (Bool-cases (str_eq stream_id k)) [
        | inl t ↦ rw t (rw (← (str_eq_iff stream_id k).0 t) (load_missing m stream_id missing))
        | inr t ↦ rw t
      ]
