-- ===== src/Tests/Agent.antt =====
-- The theorems about the ESP32 agent's configuration, at concrete inputs.
use wireless_tsn_configurato.Base.{
  ◌≤◌, ◌≡◌, refl, true, Option, none, some, List, [], ◌∷◌, arith, if◌then◌else◌, length,
}
use wireless_tsn_configurato.Base.Int.{pos, negsuc, pos_part}
use wireless_tsn_configurato.Base.Table.{text_eq}
use wireless_tsn_configurato.Base.Text.{CString, codes, str_eq}
use wireless_tsn_configurato.Common.StrUtil.{strlcpy}
use wireless_tsn_configurato.Agent.Nvs.{Item, Nvs, ReadsBack}
use wireless_tsn_configurato.Agent.Networks.{net_max, net_get, net_remove, net_add}
use wireless_tsn_configurato.Agent.Networks.Spec.{Op, add, remove, after_all}
use wireless_tsn_configurato.Agent.Networks.Stored.{stored}
use wireless_tsn_configurato.Agent.Networks.Refined.{steps, steps_refine}
use wireless_tsn_configurato.Agent.Tsn.{
  Snapshot, Node, gcl_max, cleared, clamped, apply_snapshot, get_state, reset_state, restart,
}
use wireless_tsn_configurato.Agent.Tsn.Restarted.{snapshot_restored}
use wireless_tsn_configurato.Agent.Tsn.Streams.{
  Stream, IsSound, apply_stream, find_stream, finding, accepts, apply_stream_lem,
}

-- A store that is a map from keys to entries.
abbrev Store : Type 0
Store = CString → Option Item

abbrev memory : Nvs Store
memory = record {
  opens = λ h write. true;
  get = λ h k. h k;
  set = λ h k v j. if str_eq k j then some v else h j;
  erase_key = λ h k j. if str_eq k j then none else h j;
  commit = λ h. (true, h);
}

memory-ReadsBack : ReadsBack memory
memory-ReadsBack = record {
  writes = λ h. refl;
  reads = λ h k v e. refl;
  get_set = λ h k v j. refl;
  get_erase = λ h k j. refl;
  get_commit = λ h j. refl;
}

abbrev formatted : Store
formatted k = none

abbrev visits : List Op
visits =
    add (codes "home") (some (codes "secret")) ∷ add (codes "lab") none ∷ remove (codes "home") ∷ []

steps_refine_example :
    (stored memory memory-ReadsBack (steps memory memory-ReadsBack visits formatted)
      ≡ after_all visits (stored memory memory-ReadsBack formatted))
    × (length (stored memory memory-ReadsBack (steps memory memory-ReadsBack visits formatted))
        ≤ net_max)
unfolding stored
steps_refine_example = steps_refine memory memory-ReadsBack visits formatted (ground arith)

lab_left :
    net_get memory (steps memory memory-ReadsBack visits formatted) (pos 0) 33 65
    ≡ some (codes "lab", [], true)
unfolding net_get steps str_eq net_remove net_add strlcpy
lab_left = refl

abbrev gated : Snapshot
gated = record {
  priority = pos 5;
  traffic_class = pos 5;
  bandwidth_kbps = pos 0;
  latency_ms = pos 0;
  preemption = pos 1;
  vlan_id = pos 100;
  timesync_mode = pos 2;
  grandmaster = codes "cnc";
  tas_cycle_ns = pos 1000000;
  gcl_entries = pos 2;
  gates = pos 255 ∷ pos 1 ∷ [];
  durations = pos 400000 ∷ pos 600000 ∷ [];
}

abbrev booted : Node Store
booted = record { store = formatted; state = cleared; loaded = true }

gated_restored :
    (get_state memory (restart (apply_snapshot memory booted gated).0)
      ≡ (apply_snapshot memory booted gated).0.state)
    × (pos_part (apply_snapshot memory booted gated).0.state.gcl_entries ≤ gcl_max)
    × (get_state memory (restart (reset_state memory booted)) ≡ cleared)
gated_restored = snapshot_restored memory memory-ReadsBack booted gated

two_gates : (get_state memory (restart (apply_snapshot memory booted gated).0)).gcl_entries ≡ pos 2
unfolding get_state apply_snapshot str_eq clamped
two_gates = refl

abbrev video : Stream
video = record {
  stream_id = codes "video";
  name = codes "video";
  talker = codes "cam";
  listeners = codes "esp-1" ∷ [];
  listener_count = 1;
  vlan_id = pos 100;
  max_latency_ns = pos 0;
  max_interval_ns = pos 0;
  priority = pos 5;
  data_frame_prio = pos 5;
}

one_stream-IsSound : IsSound (video ∷ [])
one_stream-IsSound = record { bounded = ground arith; unique = (tt, tt) }

apply_stream_lem_example :
    IsSound (apply_stream (video ∷ []) (some video)).0
    × ((apply_stream (video ∷ []) (some video)).1
        ≡ (if accepts (video ∷ []) video then pos 0 else negsuc 0))
    × ((id : CString)
        → find_stream (apply_stream (video ∷ []) (some video)).0 (some id)
          ≡ finding (video ∷ []) video id)
apply_stream_lem_example = apply_stream_lem (video ∷ []) video one_stream-IsSound
