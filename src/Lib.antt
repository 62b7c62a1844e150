-- ===== src/Lib.antt =====
-- Verification of the H-TSN configurator (src/).
--
-- The configurator is a program that keeps the devices, streams, QoS parameters, VLANs and schedules
-- of a time-sensitive network, stores them in SQLite, tells its views of changes over an event bus,
-- and sends the endpoints of a stream their configuration over MQTT. A bridge (rpi-tsn) speaks to the
-- STM32 endpoints (stm32-tsn) in checked frames, and the endpoints follow its clock over PTP. Paths
-- are those from the repository's root.
--
-- Parts and files. A function `htsn_x_y` of the C code is a definition `y` in the module of `x`; a
-- comment above each definition names it where the two differ.
--   * Common, Common/StrUtil: src/common. A C string is the list of its bytes without the NUL; a
--     buffer of n bytes holds a string shorter than n; NULL is `none`.
--   * Mvc/EventBus, Mvc/Model, Mvc/Controller: src/mvc. Callbacks are values of a type that is an
--     argument; what a publication runs is returned as a list of calls, in the order in which they
--     run. Each operation is one atomic step, as under the bus's mutex.
--   * Stream, Device, Qos, Vlan, Gcl, Tas: the plain models under src/stream, src/device, src/qos,
--     src/vlan and src/tas: their records, checks and names. A C enum has one constructor more, for
--     an integer that has no name.
--   * Db and its modules: src/db. SQLite is a record of operations (Db/Engine: what preparing,
--     stepping and reading a column give), an argument of every definition; what a theorem relies on
--     is stated as records of laws (ReadsBack, KeepsRows, KeepsStreams, IndexIsKeyword), each of
--     which holds of the small engine of Tests/World. A function is its statements and its bound
--     values in the order of the code.
--   * Mqtt: src/mqtt, publishing and subscribing; libmosquitto is a record of operations.
--   * Managers/Tsn, Managers/Devices: the tables of streams (src/stream/tsn_manager.c) and devices
--     (src/device/device_manager.c), over the models, the database, the bus and the client.
--     Managers/Qos, Managers/Tas, Managers/Vlan, Managers/Domains: the managers that keep nothing of
--     their own beside the database (qos_manager.c, tas_manager.c, vlan_manager.c,
--     domain_manager.c). Managers/TimeSync and Managers/Sensors: src/timesync and src/sensors, over
--     TimeSync, Sensor and their rows.
--   * Trace: src/trace/trace.c, the ring of the last 1024 entries. The time at a call, as a number
--     and as text, is an argument. Trace/Ring reads the ring backwards, Trace/History compares it
--     with a list.
--   * Telemetry: src/telemetry/htsn_telemetry.c, the handler of status messages over the device
--     manager and the time synchronisation manager, which share one connection.
--   * ConfigVersion: src/config_version/config_version_manager.c, snapshots as texts of tokens, the
--     return to one, and the comparison of two.
--   * Policy: rpi-ai/policy_engine.c, its rules as a step on the connection and the table of rules;
--     Policy/Topics handles the messages. Rule R2 has no code.
--   * Frame: rpi-tsn/htsn_frame.h, the frames between the CNC and an endpoint, with their checksum
--     bit by bit. A datagram is the list of its bytes.
--   * Endpoint: stm32-tsn/tsn/eth_proto.c, the endpoint's configuration, its commands and what it
--     sends, tagged or not, as functions on its static variables; Endpoint/Preempt is its
--     demonstration of frame preemption.
--   * Bridge: rpi-tsn/tsn_opcua_bridge.c, what the bridge between the OPC UA server and the endpoint
--     writes and sends: Bridge/Json reads the fields of a text, Bridge/Reports handles telemetry,
--     Bridge/Commands forwards commands and the configuration, Bridge/Loop is a turn of its loop. A
--     value of the server is its bits; what the nodes read as and what `sendto` does are arguments.
--     Bridge/Applied and Bridge/Servo set it against the endpoint, Bridge/Address follows a run.
--   * Agent: esp32-agent/components/htsn_agent, the configuration of the agent on an ESP32:
--     Agent/Networks is the list of saved networks of htsn_cfg.c, Agent/Tsn the applied configuration
--     of htsn_tsn.c and its copy in the store, Agent/Tsn/Streams the table of streams. The NVS library
--     is a record of operations (Agent/Nvs), with the law that what is set is read back.
--   * Ptp: stm32-tsn/tsn/ptp.c, the endpoint's PTP slave as a step on its static variables; what the
--     cycle counter and the two sockets give in one turn of its loop is an argument.
--   * Decimal: what `snprintf` prints for `%d`, and what `strtoll` and `atoi` read. Scanf: what
--     `sscanf` reads for the formats of the code. Base: the Boolean tests,
--     the integers over the native numbers, the search loops over arrays as functions on lists
--     (Base/Table), with their laws.
--
-- Bounds. Arrays are lists with the source's limits (512 streams, 512 devices, 64 subscriptions, 32
-- views, 128 gate entries, 8 features, 384 bytes of payload, 1024 trace entries, 1024 sensors, 64
-- rules, 16 gate entries of the bridge, and of the agent 10 networks, 32 gate entries and 8
-- streams); an `int` or `int64_t` is an unbounded ℤ, and where a sum could leave its type the range
-- is a theorem of its own; the unsigned arithmetic of the checksum and of the clock is written out
-- with its wrap-around. A double is its 64 bits; no arithmetic is done on it. Fuel stands in three
-- places: the decimal printer has n + 1 steps, more than n has digits; the folding of the checksum
-- of an IPv4 header has 3 turns, of which a sum below 2 ^ 32 takes two; and the parser of telemetry
-- has 512, the size of its buffer, of which each step takes a byte at least (a theorem says that it
-- ends).
--
-- Not modelled: the GTK views, logging, threads and sockets, plugin loading, the schema and its
-- migration, the language model bridge, the OPC UA server and its tools, of the firmware of the ESP32
-- agent all but its configuration, and of the STM32 endpoint all but its network layer, its frames and
-- its PTP slave.
pub mod Base
pub mod Common
pub mod Decimal
pub mod Mvc
pub mod Ptp
pub mod Qos
pub mod Vlan
pub mod Stream
pub mod Device
pub mod Db
pub mod Mqtt
pub mod Managers
pub mod Frame
pub mod Endpoint
pub mod Bridge
pub mod Agent
pub mod Gcl
pub mod Tas
pub mod Trace
pub mod Scanf
pub mod ConfigVersion
pub mod Policy
pub mod Sensor
pub mod Telemetry
pub mod TimeSync
pub mod Tests
