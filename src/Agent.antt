-- ===== src/Agent.antt =====
-- esp32-agent: the settings and the configuration of the agent on an ESP32.
pub mod Nvs
pub mod Networks
pub mod Tsn
