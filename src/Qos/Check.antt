-- ===== src/Qos/Check.antt =====
-- When QoS parameters are accepted.
use wireless_tsn_configurato.Base.{◌≡◌, ◌↔◌, false, arith}
use wireless_tsn_configurato.Base.Int.{pos, ◌≤ℤ◌}
use wireless_tsn_configurato.Base.Text.{is_empty}
use wireless_tsn_configurato.Common.{ok}
use wireless_tsn_configurato.Qos.{ConfigModel, validate}

-- The ranges that an accepted configuration keeps.
pub record InRange (cfg : ConfigModel) : Type 0 where
  pub priority : (pos 0 ≤ℤ cfg.priority) × (cfg.priority ≤ℤ pos 7)
  pub bandwidth : (pos 0 ≤ℤ cfg.bandwidth_kbps) × (cfg.bandwidth_kbps ≤ℤ pos 10000000)
  pub latency : (pos 0 ≤ℤ cfg.latency_ms) × (cfg.latency_ms ≤ℤ pos 60000)
  pub named : is_empty cfg.device_id ≡ false

-- QoS parameters are accepted exactly when the priority is 0 to 7, the bandwidth 0 to 10 Gbit/s, the
-- latency 0 to 60 s and the device has an id.
pub validate-InRange : (cfg : ConfigModel) → (validate cfg ≡ ok) ↔ InRange cfg
unfolding validate
validate-InRange cfg = (λ (h : validate cfg ≡ ok). ground arith, λ (v : InRange cfg). ground arith)
