-- ===== src/Qos.antt =====
-- src/qos/qos.c: QoS parameters and their check.
pub mod Check
use wireless_tsn_configurato.Base.{ℕ, ◌||◌, if◌then◌else◌}
use wireless_tsn_configurato.Base.Int.{ℤ, pos, ltb_ℤ}
use wireless_tsn_configurato.Base.Text.{CString, codes, is_empty}
use wireless_tsn_configurato.Common.{Error, ok, invalid_arg}

-- The enums are C integers; `other` stands for a value that has no name.
pub data TrafficClass : Type 0 where
  best_effort audio_video controlled critical : TrafficClass
  other : ℤ → TrafficClass

pub data LatencyClass : Type 0 where
  priority soft_real_time hard_real_time : LatencyClass
  other : ℤ → LatencyClass

pub data FramePreemption : Type 0 where
  off express_queue on : FramePreemption
  other : ℤ → FramePreemption

-- The casts to `int`.
unfoldable pub traffic_class_int : TrafficClass → ℤ
traffic_class_int TrafficClass.best_effort = pos 0
traffic_class_int TrafficClass.audio_video = pos 1
traffic_class_int TrafficClass.controlled = pos 2
traffic_class_int TrafficClass.critical = pos 3
traffic_class_int (TrafficClass.other n) = n

unfoldable pub preemption_int : FramePreemption → ℤ
preemption_int FramePreemption.off = pos 0
preemption_int FramePreemption.express_queue = pos 1
preemption_int FramePreemption.on = pos 2
preemption_int (FramePreemption.other n) = n

-- `htsn_qos_config_model`
pub record ConfigModel : Type 0 where
  pub device_id : CString
  pub priority : ℤ
  pub traffic_class : TrafficClass
  pub bandwidth_kbps : ℤ
  pub latency_ms : ℤ
  pub latency_class : LatencyClass
  pub preemption : FramePreemption

-- `htsn_qos_validate`
unfoldable pub validate : ConfigModel → Error
validate cfg =
    if ltb_ℤ cfg.priority (pos 0) || ltb_ℤ (pos 7) cfg.priority
    then invalid_arg
    else if ltb_ℤ cfg.bandwidth_kbps (pos 0) || ltb_ℤ (pos 10000000) cfg.bandwidth_kbps
    then invalid_arg
    else if ltb_ℤ cfg.latency_ms (pos 0) || ltb_ℤ (pos 60000) cfg.latency_ms
    then invalid_arg
    else if is_empty cfg.device_id
    then invalid_arg
    else ok

-- `htsn_qos_tc_str`
unfoldable pub tc_str : TrafficClass → CString
tc_str TrafficClass.best_effort = codes "Best Effort"
tc_str TrafficClass.audio_video = codes "Audio/Video"
tc_str TrafficClass.controlled = codes "Controlled"
tc_str TrafficClass.critical = codes "Critical"
tc_str (TrafficClass.other n) = codes "Unknown"

-- `htsn_qos_latency_str`
unfoldable pub latency_str : LatencyClass → CString
latency_str LatencyClass.priority = codes "Priority"
latency_str LatencyClass.soft_real_time = codes "Soft Real-Time"
latency_str LatencyClass.hard_real_time = codes "Hard Real-Time"
latency_str (LatencyClass.other n) = codes "Unknown"

-- `htsn_preemption_str`
unfoldable pub preemption_str : FramePreemption → CString
preemption_str FramePreemption.off = codes "off"
preemption_str FramePreemption.express_queue = codes "express-queue"
preemption_str FramePreemption.on = codes "on"
preemption_str (FramePreemption.other n) = codes "off"
