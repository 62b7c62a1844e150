-- ===== src/Tests/Configured.antt =====
-- The theorems about the managers of QoS and of schedules at concrete inputs.
use wireless_tsn_configurato.Base.{ℕ, ◌≡◌, ◌↔◌, refl, some, [], ◌∷◌, arith}
use wireless_tsn_configurato.Base.Int.{pos, ◌+ℤ◌}
use wireless_tsn_configurato.Base.Text.{codes}
use wireless_tsn_configurato.Common.{ok}
use wireless_tsn_configurato.Mvc.Model
use wireless_tsn_configurato.Gcl.{gate_open, total_duration_ns, is_valid}
use wireless_tsn_configurato.Qos as qos_model
use wireless_tsn_configurato.Tas as tas_model
use wireless_tsn_configurato.Db.Qos as db_qos
use wireless_tsn_configurato.Managers.Qos as qos
use wireless_tsn_configurato.Managers.Tas as tas
use wireless_tsn_configurato.Managers.Tas.Reload.{validate-to_model}
use wireless_tsn_configurato.Tests.World.{Store, empty_store}
use wireless_tsn_configurato.Tests.Data.{bus}

abbrev quality : qos.Manager Store ℕ ℕ
quality = record { db = empty_store; model = record { name = codes "qos"; bus = some bus } }

abbrev schedules : tas.Manager Store ℕ ℕ
schedules = record { db = empty_store; model = record { name = codes "tas"; bus = some bus } }

abbrev voice : qos_model.ConfigModel
voice = record {
  device_id = codes "other";
  priority = pos 6;
  traffic_class = qos_model.TrafficClass.controlled;
  bandwidth_kbps = pos 1000;
  latency_ms = pos 10;
  latency_class = qos_model.LatencyClass.other (pos 0);
  preemption = qos_model.FramePreemption.other (pos 0);
}

abbrev line : tas_model.ScheduleModel
line = record {
  id = codes "line";
  name = codes "Line";
  cycle_time_ns = pos 1000;
  deploy_target = [];
  gcl = record {
    entries = record { gate_state = gate_open; duration_ns = pos 1000 } ∷ [];
    cycle_time_ns = pos 1000;
  };
}

line_ok : tas_model.validate line ≡ ok
unfolding tas_model.validate total_duration_ns is_valid ◌+ℤ◌
line_ok = refl

validate-to_model_example :
    (tas_model.validate (tas.to_model (tas.to_db_schedule_copy line)) ≡ ok)
    ↔ (line.gcl.cycle_time_ns ≡ line.cycle_time_ns)
validate-to_model_example = validate-to_model line (omega arith) line_ok
