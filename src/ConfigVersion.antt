-- ===== src/ConfigVersion.antt =====
-- src/config_version/config_version_manager.c: the rows of a snapshot.
pub mod Statements
pub mod Restore
pub mod Manager
pub mod Diff
pub mod Rows
pub mod Tokens
pub mod Snapshot
use wireless_tsn_configurato.Base.{
  ℕ, zero, suc, ◌+◌, ◌-◌, Bool, List, [], ◌∷◌, ◌++◌, map, String, if◌then◌else◌, length, take,
}
use wireless_tsn_configurato.Base.Int.{ℤ, pos}
use wireless_tsn_configurato.Base.Text.{CString, codes, is_empty}
use wireless_tsn_configurato.Decimal.{show_ℤ}
use wireless_tsn_configurato.Gcl.{GclEntry}
use wireless_tsn_configurato.Device.{Device, kind_str}
use wireless_tsn_configurato.Stream.{Stream, status_int}
use wireless_tsn_configurato.Db.Engine.{Value, text, Sqlite, text_column, int_column}
use wireless_tsn_configurato.Db.Devices as db_devices
use wireless_tsn_configurato.Db.Vlan as db_vlan
use wireless_tsn_configurato.Db.Vlan.{Group, Member}
use wireless_tsn_configurato.Db.Tsn as db_tsn
use wireless_tsn_configurato.Db.Tas as db_tas
use wireless_tsn_configurato.Db.Tas.{Schedule}

-- `CFG_PAYLOAD_MAX`
abbrev pub payload_max : ℕ
payload_max = 65536

-- `append_field`, at a capacity of `payload_max`: what does not fit is cut off.
unfoldable pub append_field : CString → CString → CString
append_field buf s = buf ++ take (payload_max - length buf - 1) s

unfoldable pub append_fields : CString → List CString → CString
unfolding append_field
append_fields buf [] = buf
append_fields buf (s ∷ ss) = append_fields (append_field buf s) ss

abbrev pub spaced : CString → CString
spaced s = s ++ (b' ' ∷ [])

-- `"qos:%s:p=%d:bw=%d:lat=%d:pre=%d "` without its space.
unfoldable pub qos_token : CString → ℤ → ℤ → ℤ → ℤ → CString
qos_token id p bw lat pre =
    codes "qos:"
    ++ (id
        ++ (codes ":p="
            ++ (show_ℤ p
                ++ (codes ":bw="
                    ++ (show_ℤ bw
                        ++ (codes ":lat=" ++ (show_ℤ lat ++ (codes ":pre=" ++ show_ℤ pre))))))))

-- Two texts behind a tag, as for the members of groups and streams.
unfoldable pub pair_token : CString → CString → CString → CString
pair_token tag a b = tag ++ (a ++ (codes ":" ++ b))

-- `collect_vlan`, `collect_vlan_member`, `collect_device`
unfoldable pub vlan_fields : Group → List CString
vlan_fields g = spaced (pair_token (codes "vlan:") g.id (show_ℤ g.vlan_id)) ∷ []

unfoldable pub member_fields : Member → List CString
member_fields m = spaced (pair_token (codes "vmem:") m.group_id m.device_id) ∷ []

unfoldable pub device_fields : Device → List CString
device_fields d =
    spaced (
      codes "device:"
      ++ (d.id
          ++ (codes ":kind="
              ++ (kind_str d.kind
                  ++ (codes ":domain="
                      ++ (if is_empty d.domain then codes "default" else d.domain))))))
    ∷ []

-- `collect_stream`
unfoldable pub stream_fields : Stream → List CString
stream_fields s =
    spaced (
      codes "stream:"
      ++ (s.stream_id
          ++ (codes ":"
              ++ (s.talker
                  ++ (codes ":vlan="
                      ++ (show_ℤ s.vlan_id
                          ++ (codes ":prio="
                              ++ (show_ℤ s.priority
                                  ++ (codes ":lat="
                                      ++ (show_ℤ s.max_latency_ns
                                          ++ (codes ":iv="
                                              ++ (show_ℤ s.max_interval_ns
                                                  ++ (codes ":st="
                                                      ++ show_ℤ (status_int s.status))))))))))))))
    ∷ (map (λ l. spaced (pair_token (codes "streammem:") s.stream_id l)) s.listeners
        ++ (if s.listener_all
            then spaced (pair_token (codes "streammem:") s.stream_id (codes "*")) ∷ []
            else []))

-- `collect_tas`, its loop over the entries from the index `i`.
unfoldable pub gcl_fields : CString → ℕ → List GclEntry → List CString
gcl_fields id i [] = []
gcl_fields id i (e ∷ es) =
    spaced (
      codes "gcl:"
      ++ (id
          ++ (codes ":"
              ++ (show_ℤ (pos i)
                  ++ (codes ":"
                      ++ (show_ℤ (pos e.gate_state) ++ (codes ":" ++ show_ℤ e.duration_ns)))))))
    ∷ gcl_fields id (suc i) es

unfoldable pub tas_fields : Schedule → List CString
unfolding gcl_fields
tas_fields s =
    spaced (
      codes "tas:"
      ++ (s.id
          ++ (codes ":cycle=" ++ (show_ℤ s.cycle_time_ns ++ (codes ":tgt=" ++ s.deploy_target)))))
    ∷ gcl_fields s.id 0 s.entries

unfoldable pub all_qos_sql : String
all_qos_sql = "SELECT device_id,priority,bandwidth_kbps,latency_ms,preemption FROM qos_configs;"

unfoldable pub device_qos_sql : String
device_qos_sql =
    "SELECT priority,bandwidth_kbps,latency_ms,preemption FROM qos_configs WHERE device_id=?;"

unfoldable pub device_groups_sql : String
device_groups_sql = "SELECT group_id FROM vlan_members WHERE device_id=?;"

unfoldable pub device_streams_sql : String
device_streams_sql = "SELECT stream_id FROM tsn_stream_members WHERE device_id=?;"

abbrev each_field : {A : Type 0} → (A → List CString) → List A → List CString
each_field f [] = []
each_field f (x ∷ xs) = f x ++ each_field f xs

module _ {H : Type 0} (sql : Sqlite H) where
  -- The rows of a statement, none where it does not prepare.
  unfoldable pub rows_of : H → String → List Value → List (List Value)
  rows_of h statement values = if sql.prepares h statement then sql.rows h statement values else []

  -- `serialize_global`
  unfoldable pub serialize_global : H → CString
  unfolding append_fields vlan_fields member_fields device_fields stream_fields tas_fields qos_token
      rows_of
  serialize_global h = append_fields [] (
      each_field device_fields (db_devices.all sql h)
      ++ (each_field vlan_fields (db_vlan.groups sql h)
          ++ (each_field member_fields (db_vlan.members sql h)
              ++ (each_field stream_fields (db_tsn.all sql h)
                  ++ (each_field tas_fields (db_tas.all sql h)
                      ++ (map
                            (λ row. spaced (
                              qos_token (text_column sql row 0) (int_column sql row 1)
                                (int_column sql row 2) (int_column sql row 3)
                                (int_column sql row 4)))
                            (rows_of h all_qos_sql [])
                          ++ (codes "pre:preemption:emac=:pmac= " ∷ [])))))))

  -- `serialize_device`
  unfoldable pub serialize_device : H → CString → CString
  unfolding append_fields qos_token rows_of
  serialize_device h device_id = append_fields [] (
      map
        (λ row. spaced (
          qos_token device_id (int_column sql row 0) (int_column sql row 1) (int_column sql row 2)
            (int_column sql row 3)))
        (rows_of h device_qos_sql (text device_id ∷ []))
      ++ (map (λ row. spaced (pair_token (codes "vmem:") (text_column sql row 0) device_id))
            (rows_of h device_groups_sql (text device_id ∷ []))
          ++ map (λ row. spaced (pair_token (codes "streammem:") (text_column sql row 0) device_id))
              (rows_of h device_streams_sql (text device_id ∷ []))))

  -- `serialize_scope`; an empty id stands for NULL too.
  unfoldable pub serialize_scope : H → CString → CString
  unfolding serialize_global serialize_device
  serialize_scope h device_id =
      if is_empty device_id then serialize_global h else serialize_device h device_id
