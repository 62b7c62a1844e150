-- ===== src/Db/Tsn.antt =====
-- src/db/db_tsn.c
pub mod Members
use wireless_tsn_configurato.Base.{
  ℕ, Bool, true, false, not, Option, none, some, List, [], ◌∷◌, ◌++◌, map, String, if◌then◌else◌,
  leb, length,
}
use wireless_tsn_configurato.Base.Int.{ℤ}
use wireless_tsn_configurato.Base.Text.{CString, codes, is_empty, str_eq}
use wireless_tsn_configurato.Common.{Error, ok, db_error, not_found, max_str, max_devices}
use wireless_tsn_configurato.Common.StrUtil.{copied}
use wireless_tsn_configurato.Stream.{Status, Stream, all_listeners, status_int, int_status}
use wireless_tsn_configurato.Db.Engine.{
  Value, int, text, Sqlite, command, step_each, copy_column, int_column, text_column, first_row,
}

unfoldable pub save_sql : String
save_sql =
    "INSERT INTO tsn_streams (stream_id,name,talker,vlan_id,max_latency_ns, max_interval_ns,priority,data_frame_prio,status,comment) VALUES (?,?,?,?,?,?,?,?,?,?) ON CONFLICT(stream_id) DO UPDATE SET name=excluded.name, talker=excluded.talker, vlan_id=excluded.vlan_id, max_latency_ns=excluded.max_latency_ns, max_interval_ns=excluded.max_interval_ns, priority=excluded.priority, data_frame_prio=excluded.data_frame_prio, status=excluded.status, comment=excluded.comment;"

unfoldable pub clear_sql : String
clear_sql = "DELETE FROM tsn_stream_members WHERE stream_id=?;"

unfoldable pub member_sql : String
member_sql = "INSERT INTO tsn_stream_members (stream_id,role,device_id) VALUES (?,?,?);"

unfoldable pub load_sql : String
load_sql =
    "SELECT stream_id,name,talker,vlan_id,max_latency_ns,max_interval_ns, priority,data_frame_prio,status,comment FROM tsn_streams WHERE stream_id=?;"

unfoldable pub members_sql : String
members_sql = "SELECT role,device_id FROM tsn_stream_members WHERE stream_id=?;"

unfoldable pub ids_sql : String
ids_sql = "SELECT stream_id FROM tsn_streams;"

unfoldable pub delete_sql : String
delete_sql = "DELETE FROM tsn_streams WHERE stream_id=?;"

unfoldable pub status_sql : String
status_sql = "UPDATE tsn_streams SET status=? WHERE stream_id=?;"

-- The parameters of the row of a stream.
unfoldable pub bound : Stream → List Value
bound s =
    text s.stream_id
    ∷ text s.name
    ∷ text s.talker
    ∷ int s.vlan_id
    ∷ int s.max_latency_ns
    ∷ int s.max_interval_ns
    ∷ int s.priority
    ∷ int s.data_frame_prio
    ∷ int (status_int s.status)
    ∷ text s.comment
    ∷ []

unfoldable pub listener_rows : CString → List CString → List (List Value)
listener_rows id [] = []
listener_rows id (l ∷ ls) =
    if is_empty l
    then listener_rows id ls
    else (text id ∷ text (codes "listener") ∷ text l ∷ []) ∷ listener_rows id ls

-- The members that are written: the talker, the wildcard if it is set, the listeners with a name.
unfoldable pub member_rows : Stream → List (List Value)
unfolding listener_rows
member_rows s =
    (text s.stream_id ∷ text (codes "talker") ∷ text s.talker ∷ [])
    ∷ ((if s.listener_all
          then (text s.stream_id ∷ text (codes "listener") ∷ text all_listeners ∷ []) ∷ []
          else [])
        ++ listener_rows s.stream_id s.listeners)

-- The loop of `htsn_db_tsn_load` over the members: the listeners and the wildcard so far.
unfoldable pub take_member : CString → CString → List CString × Bool → List CString × Bool
take_member role dev (listeners, all) =
    if str_eq role (codes "listener")
    then (if str_eq dev all_listeners
        then (listeners, true)
        else if leb max_devices (length listeners)
        then (listeners, all)
        else (listeners ++ (copied max_str dev ∷ []), all))
    else (listeners, all)

module _ {H : Type 0} (sql : Sqlite H) where
  -- `htsn_db_tsn_save`
  unfoldable pub save : H → Stream → Error × H
  save h s =
      if sql.prepares h save_sql
      then (let h' = (sql.step h save_sql (bound s)).1 in
          if sql.prepares h' clear_sql
          then (let h'' = (sql.step h' clear_sql (text s.stream_id ∷ [])).1 in
              if sql.prepares h'' member_sql
              then (ok, step_each sql h'' member_sql (member_rows s))
              else (db_error, h''))
          else (db_error, h'))
      else (db_error, h)

  unfoldable pub take_members : List (List Value) → List CString × Bool → List CString × Bool
  take_members [] got = got
  take_members (row ∷ rows) got =
      take_members rows (take_member (text_column sql row 0) (text_column sql row 1) got)

  unfoldable pub from_row : List Value → List CString × Bool → Stream
  from_row row (listeners, all) = record {
    stream_id = copy_column sql max_str row 0;
    name = copy_column sql max_str row 1;
    talker = copy_column sql max_str row 2;
    vlan_id = int_column sql row 3;
    max_latency_ns = int_column sql row 4;
    max_interval_ns = int_column sql row 5;
    priority = int_column sql row 6;
    data_frame_prio = int_column sql row 7;
    status = int_status (int_column sql row 8);
    comment = copy_column sql max_str row 9;
    listeners = listeners;
    listener_all = all;
  }

  -- `htsn_db_tsn_load`: the result and, with `ok`, what `*out` is set to.
  unfoldable pub load : H → CString → Error × Option Stream
  load h stream_id =
      if sql.prepares h load_sql
      then elim (first_row (sql.rows h load_sql (text stream_id ∷ []))) [
        | none ↦ (not_found, none)
        | some row ↦
            if sql.prepares h members_sql
            then (
              ok,
              some (
                  from_row row
                    (take_members (sql.rows h members_sql (text stream_id ∷ [])) ([], false))),
            )
            else (db_error, none)
      ]
      else (db_error, none)

  unfoldable pub load_each : H → List CString → List Stream
  load_each h [] = []
  load_each h (id ∷ ids) = elim (load h id).1 [
    | none ↦ load_each h ids
    | some s ↦ s ∷ load_each h ids
  ]

  -- `htsn_db_tsn_for_each`: the streams that the callback is offered, in order.
  unfoldable pub all : H → List Stream
  all h =
      if sql.prepares h ids_sql
      then load_each h (map (λ row. text_column sql row 0) (sql.rows h ids_sql []))
      else []

  -- `htsn_db_tsn_delete`
  unfoldable pub delete : H → CString → Error × H
  delete h stream_id =
      if sql.prepares h delete_sql
      then command sql (sql.step h delete_sql (text stream_id ∷ [])).1 clear_sql
          (text stream_id ∷ [])
      else (db_error, h)

  -- `htsn_db_tsn_set_status`
  unfoldable pub set_status : H → CString → Status → Error × H
  set_status h stream_id st = command sql h status_sql (int (status_int st) ∷ text stream_id ∷ [])
