-- ===== src/Agent/Tsn/Restarted.antt =====
-- What of the configuration of esp32-agent/components/htsn_agent/htsn_tsn.c survives a restart.
use wireless_tsn_configurato.Base.{
  ℕ, zero, suc, ◌≤◌, ◌<◌, ◌≡◌, ◌∙◌, refl, sym, ap, true, false, ◌&&◌, none, some, List, [], ◌∷◌,
  arith, leb, length, take,
}
use wireless_tsn_configurato.Base.Int.{ℤ, pos, pos_part, ltb_ℤ, leb_ℤ}
use wireless_tsn_configurato.Base.Text.{CString, str_eq}
use wireless_tsn_configurato.Agent.Nvs.{Item, i32, i64, ints, longs, Nvs, ReadsBack}
use wireless_tsn_configurato.Agent.Tsn.{
  State, Snapshot, Node, gcl_max, cells, cleared, zeros, over, items, fields, blobs, set_all,
  save_tsn_state, load_gates, load_tsn_state, load_persisted, get_state, applied, apply_snapshot,
  clamped, restart, reset_state, key_prio, key_tc, key_vlan, key_pre, key_tmode, key_cycle,
  key_gcl_cnt, key_gates, key_durs,
}
use wireless_tsn_configurato.Agent.Tsn.Cells.{
  length-cells, no_cells, cells-cells, over-zeros, found-append, found-blobs, blobs_of, found,
}

-- A state whose arrays are copies of so many cells, as `htsn_tsn_apply_tas` leaves them.
kept : State → ℕ → List ℤ → List ℤ → State
kept s n g d = record s {
  gcl_entries = pos n;
  gates = cells gcl_max n g;
  durations = cells gcl_max n d;
}

-- The fields of a snapshot without its gates.
abbrev plain : Snapshot → State
plain cfg = record {
  priority = cfg.priority;
  traffic_class = cfg.traffic_class;
  preemption = cfg.preemption;
  vlan_id = cfg.vlan_id;
  timesync_mode = cfg.timesync_mode;
  tas_cycle_ns = cfg.tas_cycle_ns;
  gcl_entries = pos 0;
  gates = [];
  durations = [];
}

module _ {H : Type 0} (nvs : Nvs H) (sound : ReadsBack nvs) where
  open sound use {writes, reads, get_set, get_commit}

  get-set_all :
      (its : List (CString × Item)) (h : H) (j : CString)
      → nvs.get (set_all nvs its h) j ≡ found j its (nvs.get h j)
  unfolding set_all found
  get-set_all [] h j = refl
  get-set_all ((k, v) ∷ more) h j =
      get-set_all more (nvs.set h k v) j ∙ ap (found j more) (get_set h k v j)

  saved : H → State → H
  saved h s = (save_tsn_state nvs h s (some s.gates) (some s.durations)).0

  get-saved :
      (h : H) (s : State) (j : CString)
      → nvs.get (saved h s) j ≡ found j (items s (some s.gates) (some s.durations)) (nvs.get h j)
  unfolding saved save_tsn_state
  get-saved h s j =
      rw (writes h, saved)
        (get_commit (set_all nvs (items s (some s.gates) (some s.durations)) h) j
          ∙ get-set_all (items s (some s.gates) (some s.durations)) h j)

  module _ (h : H) where
    gates_read :
        (n : ℕ) (g d : List ℤ)
        → nvs.get h key_gcl_cnt ≡ some (i32 (pos n))
        → nvs.get h key_gates ≡ some (ints g)
        → nvs.get h key_durs ≡ some (longs d)
        → 0 < n
        → n ≤ gcl_max
        → length g ≤ gcl_max
        → length d ≤ gcl_max
        → load_gates nvs h ≡ some (take n g, take n d, pos n)
    unfolding load_gates
    gates_read n g d ec eg ed low high lg ld =
        let range : (ltb_ℤ (pos 0) (pos n) && leb_ℤ (pos n) (pos gcl_max)) ≡ true =
          ground (arith, low, high) in
        let fits : leb (length g) gcl_max ≡ true = ground (arith, lg) in
        let fits' : leb (length d) gcl_max ≡ true = ground (arith, ld) in
        rw (ec, load_gates) (rw range (rw eg (rw fits (rw ed (rw fits' refl)))))

    no_gates : nvs.get h key_gcl_cnt ≡ some (i32 (pos 0)) → load_gates nvs h ≡ none
    unfolding load_gates
    no_gates e = rw (e, load_gates) refl

    -- The other fields, whatever the gate entries.
    module _ (s : State) (ep : nvs.get h key_prio ≡ some (i32 s.priority))
        (et : nvs.get h key_tc ≡ some (i32 s.traffic_class))
        (ev : nvs.get h key_vlan ≡ some (i32 s.vlan_id))
        (er : nvs.get h key_pre ≡ some (i32 s.preemption))
        (em : nvs.get h key_tmode ≡ some (i32 s.timesync_mode))
        (ec : nvs.get h key_cycle ≡ some (i64 s.tas_cycle_ns)) where
      fields_read :
          (n : ℤ) (g d : List ℤ)
          → load_gates nvs h ≡ some (g, d, n)
          → load_tsn_state nvs h cleared
            ≡ some (record s { gcl_entries = n; gates = over g zeros; durations = over d zeros })
      unfolding load_tsn_state
      fields_read n g d e =
          rw (reads h key_prio _ ep, load_tsn_state) (rw ep (rw e (rw (et, ev, er, em, ec) refl)))

      no_gates_read :
          load_gates nvs h ≡ none
          → load_tsn_state nvs h cleared
            ≡ some (record s { gcl_entries = pos 0; gates = zeros; durations = zeros })
      unfolding load_tsn_state
      no_gates_read e =
          rw (reads h key_prio _ ep, load_tsn_state) (rw ep (rw e (rw (et, ev, er, em, ec) refl)))

  entry :
      (h : H) (s : State) (j : CString)
      → str_eq key_gates j ≡ false
      → str_eq key_durs j ≡ false
      → nvs.get (saved h s) j ≡ found j (fields s) (nvs.get h j)
  unfolding items
  entry h s j eg ed =
      get-saved h s j
      ∙ found-append j (fields s) (blobs s.gcl_entries (some s.gates) (some s.durations))
          (nvs.get h j)
      ∙ found-blobs s.gcl_entries (some s.gates) (some s.durations) j _ eg ed

  fields_saved :
      (h : H) (s : State) (n : ℤ) (g d : List ℤ)
      → load_gates nvs (saved h s) ≡ some (g, d, n)
      → load_tsn_state nvs (saved h s) cleared
        ≡ some (record s { gcl_entries = n; gates = over g zeros; durations = over d zeros })
  unfolding fields found str_eq
  fields_saved h s =
      fields_read (saved h s) s (entry h s key_prio refl refl) (entry h s key_tc refl refl)
        (entry h s key_vlan refl refl) (entry h s key_pre refl refl) (entry h s key_tmode refl refl)
        (entry h s key_cycle refl refl)

  no_gates_saved :
      (h : H) (s : State)
      → load_gates nvs (saved h s) ≡ none
      → load_tsn_state nvs (saved h s) cleared
        ≡ some (record s { gcl_entries = pos 0; gates = zeros; durations = zeros })
  unfolding fields found str_eq
  no_gates_saved h s =
      no_gates_read (saved h s) s (entry h s key_prio refl refl) (entry h s key_tc refl refl)
        (entry h s key_vlan refl refl) (entry h s key_pre refl refl) (entry h s key_tmode refl refl)
        (entry h s key_cycle refl refl)

  counted_saved : (h : H) (s : State) → nvs.get (saved h s) key_gcl_cnt ≡ some (i32 s.gcl_entries)
  unfolding fields found str_eq
  counted_saved h s = entry h s key_gcl_cnt refl refl

  blobs_saved :
      (h : H) (s : State) (n : ℕ)
      → s.gcl_entries ≡ pos n
      → 0 < n
      → (nvs.get (saved h s) key_gates ≡ some (ints (cells gcl_max n s.gates)))
        × (nvs.get (saved h s) key_durs ≡ some (longs (cells gcl_max n s.durations)))
  unfolding items found str_eq
  blobs_saved h s n e low =
      let rest = λ (j : CString).
        get-saved h s j
        ∙ found-append j (fields s) (blobs s.gcl_entries (some s.gates) (some s.durations))
            (nvs.get h j)
        ∙ ap
            (λ k.
              found j (blobs k (some s.gates) (some s.durations))
                (found j (fields s) (nvs.get h j)))
            e
        ∙ ap (λ its. found j its (found j (fields s) (nvs.get h j)))
            (blobs_of n s.gates s.durations low) in
      (rest key_gates, rest key_durs)

  -- What is saved is what is loaded into cleared variables.
  load-saved :
      (h : H) (base : State) (n : ℕ) (g d : List ℤ)
      → n ≤ gcl_max
      → load_tsn_state nvs (saved h (kept base n g d)) cleared ≡ some (kept base n g d)
  unfolding kept
  load-saved h base zero g d few =
      let s = kept base 0 g d in
      no_gates_saved h s (no_gates (saved h s) (counted_saved h s))
      ∙ ap (λ xs. some (record base { gcl_entries = pos 0; gates = xs; durations = zeros }))
          (sym (no_cells gcl_max g))
      ∙ ap
          (λ xs.
            some (record base { gcl_entries = pos 0; gates = cells gcl_max 0 g; durations = xs }))
          (sym (no_cells gcl_max d))
  load-saved h base (suc m) g d few =
      let n = suc m in
      let s = kept base n g d in
      let (eg, ed) = blobs_saved h s n refl (omega arith) in
      let read =
        gates_read (saved h s) n _ _ (counted_saved h s) eg ed (omega arith) few
          (omega (arith, length-cells gcl_max n s.gates))
          (omega (arith, length-cells gcl_max n s.durations)) in
      let twice =
        λ (xs : List ℤ). over-zeros gcl_max n (cells gcl_max n xs) few ∙ cells-cells gcl_max n xs in
      fields_saved h s (pos n) _ _ read
      ∙ ap
          (λ xs. some (record base {
            gcl_entries = pos n;
            gates = xs;
            durations = over (take n (cells gcl_max n s.durations)) zeros;
          }))
          (twice g)
      ∙ ap
          (λ xs.
            some (record base { gcl_entries = pos n; gates = cells gcl_max n g; durations = xs }))
          (twice d)

  -- What `htsn_tsn_apply_snapshot` leaves is such a state.
  snapshot_kept :
      (s : State) (cfg : Snapshot)
      → applied s cfg ≡ kept (plain cfg) (clamped cfg.gcl_entries) cfg.gates cfg.durations
  unfolding applied kept
  snapshot_kept s cfg = refl

  clamped-fits : (entries : ℤ) → clamped entries ≤ gcl_max
  unfolding clamped
  clamped-fits entries = ground arith

  -- A start that reads a state keeps it.
  restart_reads :
      (h : H) (s : State)
      → load_tsn_state nvs h cleared ≡ some s
      → get_state nvs (record { store = h; state = cleared; loaded = false }) ≡ s
  unfolding get_state load_persisted
  restart_reads h s e = rw (e, get_state, load_persisted) refl

  -- What is applied from a snapshot is in the store: a restart does not change the state that the
  -- agent answers with, and no more than 32 gate entries are in it. Where the state was reset, a
  -- restart finds the cleared one. The store gives back what was set.
  pub snapshot_restored :
      (n : Node H) (cfg : Snapshot)
      → (get_state nvs (restart (apply_snapshot nvs n cfg).0) ≡ (apply_snapshot nvs n cfg).0.state)
        × (pos_part (apply_snapshot nvs n cfg).0.state.gcl_entries ≤ gcl_max)
        × (get_state nvs (restart (reset_state nvs n)) ≡ cleared)
  unfolding apply_snapshot reset_state saved kept items blobs applied cells
  snapshot_restored n cfg =
      let few = clamped-fits cfg.gcl_entries in
      (
        restart_reads (saved n.store (applied n.state cfg)) (applied n.state cfg) (
            ap (λ s. load_tsn_state nvs (saved n.store s) cleared) (snapshot_kept n.state cfg)
            ∙ load-saved n.store (plain cfg) (clamped cfg.gcl_entries) cfg.gates cfg.durations few
            ∙ ap some (sym (snapshot_kept n.state cfg))),
        few,
        restart_reads (saved n.store cleared) cleared
            (load-saved n.store cleared 0 [] [] (omega arith)),
      )
