-- ===== src/Agent/Tsn.antt =====
-- esp32-agent/components/htsn_agent/htsn_tsn.c, and the part of htsn_cfg.c that keeps its state: the
-- configuration that is applied to the agent, in its static variables and in the store.
pub mod Cells
pub mod Restarted
pub mod Streams
use wireless_tsn_configurato.Base.{
  ℕ, zero, suc, Bool, true, false, ◌&&◌, Option, none, some, ◌==◌, List, [], ◌∷◌, ◌++◌, leb,
  is_some, if◌then◌else◌, length, take, drop, replicate,
}
use wireless_tsn_configurato.Base.Int.{ℤ, pos, pos_part, ltb_ℤ, leb_ℤ, eqb_ℤ}
use wireless_tsn_configurato.Base.Text.{CString, codes}
use wireless_tsn_configurato.Agent.Nvs.{
  Item, i32, i64, ints, longs, Nvs, as_i32, as_i64, as_ints, as_longs,
}

-- `HTSN_GCL_MAX`
abbrev pub gcl_max : ℕ
gcl_max = 32

-- `htsn_tsn_state`; the arrays have `gcl_max` cells.
pub record State : Type 0 where
  pub priority : ℤ
  pub traffic_class : ℤ
  pub preemption : ℤ
  pub vlan_id : ℤ
  pub timesync_mode : ℤ
  pub tas_cycle_ns : ℤ
  pub gcl_entries : ℤ
  pub gates : List ℤ
  pub durations : List ℤ

-- `htsn_config_snapshot`, without the group, which is only logged.
pub record Snapshot : Type 0 where
  pub priority : ℤ
  pub traffic_class : ℤ
  pub bandwidth_kbps : ℤ
  pub latency_ms : ℤ
  pub preemption : ℤ
  pub vlan_id : ℤ
  pub timesync_mode : ℤ
  pub grandmaster : CString
  pub tas_cycle_ns : ℤ
  pub gcl_entries : ℤ
  pub gates : List ℤ
  pub durations : List ℤ

-- A call `htsn_ptp_apply(mode, grandmaster)`.
abbrev pub PtpCall : Type 0
PtpCall = ℤ × Option CString

-- The static variables `g_state` and `g_loaded`, and the store.
pub record Node (H : Type 0) : Type 0 where
  pub store : H
  pub state : State
  pub loaded : Bool

abbrev pub zeros : List ℤ
zeros = replicate gcl_max (pos 0)

abbrev pub cleared : State
cleared = record {
  priority = pos 0;
  traffic_class = pos 0;
  preemption = pos 0;
  vlan_id = pos 0;
  timesync_mode = pos 0;
  tas_cycle_ns = pos 0;
  gcl_entries = pos 0;
  gates = zeros;
  durations = zeros;
}

-- So many cells of an array, of which the first `n` are copied and the others are 0.
unfoldable pub cells : ℕ → ℕ → List ℤ → List ℤ
cells zero n xs = []
cells (suc r) zero xs = pos 0 ∷ cells r zero xs
cells (suc r) (suc n) [] = pos 0 ∷ cells r n []
cells (suc r) (suc n) (x ∷ xs) = x ∷ cells r n xs

abbrev pub or_zeros : Option (List ℤ) → List ℤ
or_zeros none = []
or_zeros (some xs) = xs

-- `htsn_tsn_apply_qos`, `_vlan`, `_preemption` and `_tas`, and the state of `_timesync`.
unfoldable pub apply_qos : State → (priority traffic_class preemption : ℤ) → State
apply_qos s p t pre = record s { priority = p; traffic_class = t; preemption = pre }

unfoldable pub apply_vlan : State → ℤ → State
apply_vlan s vid = record s { vlan_id = vid }

unfoldable pub apply_preemption : State → ℤ → State
apply_preemption s pre = record s { preemption = pre }

unfoldable pub apply_timesync : State → ℤ → Option CString → State × List PtpCall
apply_timesync s mode gm = (record s { timesync_mode = mode }, (mode, gm) ∷ [])

-- The number of entries that `htsn_tsn_apply_tas` takes.
unfoldable pub clamped : ℤ → ℕ
clamped entries = if ltb_ℤ (pos gcl_max) entries then gcl_max else pos_part entries

unfoldable pub apply_tas : State → ℤ → Option (List ℤ) → Option (List ℤ) → ℤ → State
unfolding cells clamped
apply_tas s cycle gates durations entries = record s {
  tas_cycle_ns = cycle;
  gcl_entries = pos (clamped entries);
  gates = cells gcl_max (clamped entries) (or_zeros gates);
  durations = cells gcl_max (clamped entries) (or_zeros durations);
}

-- The keys of the store.
abbrev pub key_prio : CString
key_prio = codes "tsn_prio"

abbrev pub key_tc : CString
key_tc = codes "tsn_tc"

abbrev pub key_vlan : CString
key_vlan = codes "tsn_vlan"

abbrev pub key_pre : CString
key_pre = codes "tsn_pre"

abbrev pub key_tmode : CString
key_tmode = codes "tsn_tmode"

abbrev pub key_cycle : CString
key_cycle = codes "tsn_cycle"

abbrev pub key_gcl_cnt : CString
key_gcl_cnt = codes "tsn_gcl_cnt"

abbrev pub key_gates : CString
key_gates = codes "tsn_gates"

abbrev pub key_durs : CString
key_durs = codes "tsn_durs"

-- The entries that `htsn_cfg_save_tsn_state` sets, in its order; the arrays may be NULL.
unfoldable pub fields : State → List (CString × Item)
fields s =
    (key_prio, i32 s.priority)
    ∷ (key_tc, i32 s.traffic_class)
    ∷ (key_vlan, i32 s.vlan_id)
    ∷ (key_pre, i32 s.preemption)
    ∷ (key_tmode, i32 s.timesync_mode)
    ∷ (key_cycle, i64 s.tas_cycle_ns)
    ∷ (key_gcl_cnt, i32 s.gcl_entries)
    ∷ []

unfoldable pub blobs : ℤ → Option (List ℤ) → Option (List ℤ) → List (CString × Item)
unfolding cells
blobs entries gates durs =
    let n = pos_part entries in
    if ltb_ℤ (pos 0) entries && is_some gates && is_some durs
    then ((key_gates, ints (cells gcl_max n (or_zeros gates)))
        ∷ (key_durs, longs (cells gcl_max n (or_zeros durs)))
        ∷ [])
    else []

unfoldable pub items : State → Option (List ℤ) → Option (List ℤ) → List (CString × Item)
unfolding fields blobs
items s gates durs = fields s ++ blobs s.gcl_entries gates durs

-- A blob that fits the array it is read into.
abbrev pub fitting : Option (List ℤ) → Option (List ℤ)
fitting none = none
fitting (some xs) = if leb (length xs) gcl_max then some xs else none

abbrev pub given : Option ℤ → ℤ → ℤ
given none dflt = dflt
given (some n) dflt = n

-- The first cells of an array, written over another.
abbrev pub over : List ℤ → List ℤ → List ℤ
over xs ys = xs ++ drop (length xs) ys

-- The state that `htsn_tsn_apply_snapshot` makes.
unfoldable pub applied : State → Snapshot → State
unfolding apply_qos apply_vlan apply_timesync apply_tas apply_preemption
applied s cfg =
    apply_preemption
      (apply_tas
        (apply_timesync
          (apply_vlan (apply_qos s cfg.priority cfg.traffic_class cfg.preemption) cfg.vlan_id)
          cfg.timesync_mode (some cfg.grandmaster)).0
        cfg.tas_cycle_ns (some cfg.gates) (some cfg.durations) cfg.gcl_entries)
      cfg.preemption

-- A start of the firmware: the static variables are cleared, the store stays.
abbrev pub restart : {H : Type 0} → Node H → Node H
restart n = record { store = n.store; state = cleared; loaded = false }

module _ {H : Type 0} (nvs : Nvs H) where
  unfoldable pub set_all : List (CString × Item) → H → H
  set_all [] h = h
  set_all ((k, v) ∷ more) h = set_all more (nvs.set h k v)

  -- `htsn_cfg_save_tsn_state`
  unfoldable pub save_tsn_state : H → State → Option (List ℤ) → Option (List ℤ) → H × Bool
  unfolding set_all items
  save_tsn_state h s gates durs =
      if nvs.opens h true
      then (let (done, h') = nvs.commit (set_all (items s gates durs) h) in (h', done))
      else (h, false)

  -- The gate entries that `htsn_cfg_load_tsn_state` reads: gates, durations and their number.
  unfoldable pub load_gates : H → Option (List ℤ × List ℤ × ℤ)
  load_gates h = elim (as_i32 (nvs.get h key_gcl_cnt)) [
    | none ↦ none
    | some cnt ↦
        let blobs : Option (List ℤ × List ℤ × ℤ) = elim (fitting (as_ints (nvs.get h key_gates))) [
          | none ↦ none
          | some g ↦ elim (fitting (as_longs (nvs.get h key_durs))) [
            | none ↦ none
            | some d ↦ some (take (pos_part cnt) g, take (pos_part cnt) d, cnt)
          ]
        ] in
        if ltb_ℤ (pos 0) cnt && leb_ℤ cnt (pos gcl_max) then blobs else none
  ]

  -- `htsn_cfg_load_tsn_state` into cleared variables, and what `load_persisted` does with them: the
  -- state that was in place and the one that is read; none where it returns false.
  unfoldable pub load_tsn_state : H → State → Option State
  unfolding load_gates
  load_tsn_state h s =
      if nvs.opens h false
      then elim (as_i32 (nvs.get h key_prio)) [
        | none ↦ none
        | some prio ↦
            let read : State = record s {
              priority = prio;
              traffic_class = given (as_i32 (nvs.get h key_tc)) (pos 0);
              vlan_id = given (as_i32 (nvs.get h key_vlan)) (pos 0);
              preemption = given (as_i32 (nvs.get h key_pre)) (pos 0);
              timesync_mode = given (as_i32 (nvs.get h key_tmode)) (pos 0);
              tas_cycle_ns = given (as_i64 (nvs.get h key_cycle)) (pos 0);
            } in
            elim (load_gates h) [
              | none ↦ some (record read { gcl_entries = pos 0 })
              | some (g, d, cnt) ↦ some (record read {
                gcl_entries = cnt;
                gates = over g s.gates;
                durations = over d s.durations;
              })
            ]
      ]
      else none

  -- `load_persisted`
  unfoldable pub load_persisted : Node H → Node H × List PtpCall
  unfolding load_tsn_state
  load_persisted n = if n.loaded then (n, []) else elim (load_tsn_state n.store n.state) [
    | none ↦ (record n { loaded = true }, [])
    | some s ↦
        let name = if pos_part s.gcl_entries == 0 then codes "restored" else codes "persisted" in
        (record n { state = s; loaded = true }, (s.timesync_mode, some name) ∷ [])
  ]

  -- `htsn_tsn_get_state`
  unfoldable pub get_state : Node H → State
  unfolding load_persisted
  get_state n = (load_persisted n).0.state

  -- `htsn_tsn_apply_snapshot`
  unfoldable pub apply_snapshot : Node H → Snapshot → Node H × List PtpCall
  unfolding applied save_tsn_state
  apply_snapshot n cfg =
      let s = applied n.state cfg in
      (
        record n {
          state = s;
          store = (save_tsn_state n.store s (some s.gates) (some s.durations)).0;
        },
        (cfg.timesync_mode, some cfg.grandmaster) ∷ [],
      )

  -- `htsn_tsn_restore`
  unfoldable pub restore : Node H → Node H × List PtpCall
  unfolding load_persisted
  restore n =
      let (n', calls) = load_persisted n in
      let mode = n'.state.timesync_mode in
      let gm = if eqb_ℤ mode (pos 0) then none else some (codes "persisted") in
      (n', calls ++ ((mode, gm) ∷ []))

  -- `htsn_tsn_reset_state`
  unfoldable pub reset_state : Node H → Node H
  unfolding save_tsn_state
  reset_state n = record n {
    state = cleared;
    loaded = true;
    store = (save_tsn_state n.store cleared none none).0;
  }
