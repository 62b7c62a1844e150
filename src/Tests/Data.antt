-- ===== src/Tests/Data.antt =====
-- A talker, a listener, two streams between them, and the managers that know them.
use wireless_tsn_configurato.Base.{ℕ, List, true, false, some, [], ◌∷◌}
use wireless_tsn_configurato.Base.Int.{pos}
use wireless_tsn_configurato.Base.Text.{CString, codes}
use wireless_tsn_configurato.Device.{Status, Kind, Device}
use wireless_tsn_configurato.Stream as stream_model
use wireless_tsn_configurato.Stream.{Stream}
use wireless_tsn_configurato.Mvc.EventBus.{EventBus}
use wireless_tsn_configurato.Managers.Tsn as tsn
use wireless_tsn_configurato.Managers.Devices as devices
use wireless_tsn_configurato.Tests.World.{Store, empty_store}

-- One subscriber, number 7, to everything.
abbrev pub bus : EventBus ℕ ℕ
bus = record { subs = record { topic = codes "*"; cb = 7; userdata = 0 } ∷ [] }

abbrev pub motor : Stream
motor = record {
  stream_id = codes "motor";
  name = codes "Motor";
  talker = codes "pi";
  vlan_id = pos 100;
  max_latency_ns = pos 500000;
  max_interval_ns = pos 1000000;
  priority = pos 6;
  data_frame_prio = pos 6;
  status = stream_model.Status.configured;
  comment = [];
  listeners = codes "stm" ∷ [] ∷ [];
  listener_all = false;
}

abbrev pub camera : Stream
camera = record motor { stream_id = codes "camera"; listeners = []; listener_all = true }

-- Nobody listens.
abbrev pub silent : Stream
silent = record motor { stream_id = codes "silent"; listeners = [] }

abbrev pub stm : Device
stm = record {
  id = codes "stm";
  ip = codes "10.0.0.2";
  mac = [];
  firmware = codes "1.0";
  last_seen = pos 90;
  status = Status.online;
  kind = Kind.stm32;
  tsn_features = [];
  name = codes "Board";
  domain = codes "default";
  heartbeat_at = pos 80;
}

abbrev pub pi : Device
pi = record stm { id = codes "pi"; kind = Kind.raspberrypi; last_seen = pos 0 }

abbrev pub streams : tsn.Manager Store (List CString) ℕ ℕ
streams = record {
  db = empty_store;
  mqtt = some (record { client = some [] });
  model = record { name = codes "tsn"; bus = some bus };
  streams = camera ∷ motor ∷ [];
}

abbrev pub table : devices.Manager Store ℕ ℕ
table = record {
  db = empty_store;
  model = record { name = codes "device"; bus = some bus };
  devices = stm ∷ [];
}
