-- ===== src/ConfigVersion/Statements.antt =====
-- src/config_version/config_version_manager.c: the statements and formats of restoring.
use wireless_tsn_configurato.Base.{List, [], ◌∷◌, String}
use wireless_tsn_configurato.Base.Text.{codes}
use wireless_tsn_configurato.Scanf.{Item, lit, field, word, int, long}

unfoldable pub qos_sql : String
qos_sql =
    "INSERT OR REPLACE INTO qos_configs(device_id,priority,traffic_class,bandwidth_kbps,latency_ms,preemption) VALUES(?,?,?,?,?,?);"

unfoldable pub vlan_sql : String
vlan_sql = "INSERT OR REPLACE INTO vlan_groups(id,name,vlan_id) VALUES(?,?,?);"

unfoldable pub member_sql : String
member_sql = "INSERT OR IGNORE INTO vlan_members(group_id,device_id) VALUES(?,?);"

unfoldable pub stream_sql : String
stream_sql =
    "INSERT OR REPLACE INTO tsn_streams(stream_id,name,talker,vlan_id,max_latency_ns,max_interval_ns,priority,data_frame_prio,status,comment) VALUES(?,?,?,?,?,?,?,?,?,'');"

unfoldable pub stream_member_sql : String
stream_member_sql =
    "INSERT OR IGNORE INTO tsn_stream_members(stream_id,role,device_id) VALUES(?,?,?);"

unfoldable pub tas_sql : String
tas_sql =
    "INSERT OR REPLACE INTO tas_schedules(id,name,cycle_time_ns,deploy_target) VALUES(?,?,?,?);"

unfoldable pub gcl_sql : String
gcl_sql =
    "INSERT OR REPLACE INTO gcl_entries(schedule_id,index,gate_state,duration_ns) VALUES(?,?,?,?);"

-- The tables that are cleared: those of one device, or all.
unfoldable pub device_clears : List String
device_clears =
    "DELETE FROM qos_configs WHERE device_id=?;" ∷ "DELETE FROM vlan_members WHERE device_id=?;"
    ∷ "DELETE FROM tsn_stream_members WHERE device_id=?;" ∷ []

unfoldable pub all_clears : List String
all_clears =
    "DELETE FROM qos_configs;" ∷ "DELETE FROM vlan_members;" ∷ "DELETE FROM vlan_groups;"
    ∷ "DELETE FROM tsn_streams;" ∷ "DELETE FROM tsn_stream_members;" ∷ "DELETE FROM tas_schedules;"
    ∷ "DELETE FROM gcl_entries;" ∷ []

-- The formats of `sscanf`.
unfoldable pub bare_qos_format : List Item
bare_qos_format =
    lit (codes "qos:p=")
    ∷ int
    ∷ lit (codes ":bw=")
    ∷ int
    ∷ lit (codes ":lat=")
    ∷ int
    ∷ lit (codes ":pre=")
    ∷ int
    ∷ []

unfoldable pub qos_format : List Item
qos_format =
    lit (codes "qos:")
    ∷ field
    ∷ lit (codes ":p=")
    ∷ int
    ∷ lit (codes ":bw=")
    ∷ int
    ∷ lit (codes ":lat=")
    ∷ int
    ∷ lit (codes ":pre=")
    ∷ int
    ∷ []

unfoldable pub stream_format : List Item
stream_format =
    lit (codes "stream:")
    ∷ field
    ∷ lit (codes ":")
    ∷ field
    ∷ lit (codes ":vlan=")
    ∷ int
    ∷ lit (codes ":prio=")
    ∷ int
    ∷ lit (codes ":lat=")
    ∷ long
    ∷ lit (codes ":iv=")
    ∷ long
    ∷ lit (codes ":st=")
    ∷ int
    ∷ []

unfoldable pub tas_format : List Item
tas_format =
    lit (codes "tas:") ∷ field ∷ lit (codes ":cycle=") ∷ long ∷ lit (codes ":tgt=") ∷ word ∷ []

unfoldable pub gcl_format : List Item
gcl_format =
    lit (codes "gcl:")
    ∷ field
    ∷ lit (codes ":")
    ∷ int
    ∷ lit (codes ":")
    ∷ int
    ∷ lit (codes ":")
    ∷ long
    ∷ []
