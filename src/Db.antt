-- ===== src/Db.antt =====
-- src/db: what the configurator asks of SQLite. The engine is not part of the repository, so it is a
-- parameter: a value of `Sqlite H`, with `H` the state of the open connection. The SQL texts are
-- those of the source. An operation that the source declares with a pointer to a value has the value
-- here: its callers pass addresses, and the connection is open.
pub mod Engine
pub mod Qos
pub mod Vlan
pub mod Tas
pub mod Trace
pub mod Versions
pub mod Sensors
pub mod TimeSync
pub mod Tsn
pub mod Domains
pub mod Devices
