-- ===== src/Managers.antt =====
-- The managers: each keeps its data, writes it through to the database and publishes its changes. An
-- operation returns its result, the manager afterwards and the subscriber calls that its events make,
-- in order. The manager itself is never NULL; another pointer that may be is an option.
pub mod Tsn
pub mod Devices
pub mod Qos
pub mod Tas
pub mod Sensors
pub mod TimeSync
pub mod Vlan
pub mod Domains
