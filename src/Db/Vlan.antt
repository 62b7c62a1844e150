-- ===== src/Db/Vlan.antt =====
-- src/db/db_vlan.c
use wireless_tsn_configurato.Base.{List, [], ◌∷◌, map, String, if◌then◌else◌}
use wireless_tsn_configurato.Base.Int.{ℤ}
use wireless_tsn_configurato.Base.Text.{CString}
use wireless_tsn_configurato.Common.{Error, max_str}
use wireless_tsn_configurato.Db.Engine.{
  Value, int, text, Sqlite, command, checked, copy_column, int_column,
}

-- `htsn_vlan_group`
pub record Group : Type 0 where
  pub id : CString
  pub name : CString
  pub vlan_id : ℤ

-- `htsn_vlan_member`
pub record Member : Type 0 where
  pub group_id : CString
  pub device_id : CString

unfoldable pub group_save_sql : String
group_save_sql =
    "INSERT INTO vlan_groups (id,name,vlan_id) VALUES (?,?,?) ON CONFLICT(id) DO UPDATE SET name=excluded.name, vlan_id=excluded.vlan_id;"

unfoldable pub group_delete_sql : String
group_delete_sql = "DELETE FROM vlan_groups WHERE id=?;"

unfoldable pub groups_sql : String
groups_sql = "SELECT id,name,vlan_id FROM vlan_groups;"

unfoldable pub member_add_sql : String
member_add_sql = "INSERT OR IGNORE INTO vlan_members (group_id,device_id) VALUES (?,?);"

unfoldable pub member_remove_sql : String
member_remove_sql = "DELETE FROM vlan_members WHERE group_id=? AND device_id=?;"

unfoldable pub group_members_sql : String
group_members_sql = "SELECT group_id,device_id FROM vlan_members WHERE group_id=?;"

unfoldable pub members_sql : String
members_sql = "SELECT group_id,device_id FROM vlan_members;"

unfoldable pub bound : Group → List Value
bound g = text g.id ∷ text g.name ∷ int g.vlan_id ∷ []

module _ {H : Type 0} (sql : Sqlite H) where
  -- `row_to_group`
  unfoldable pub row_to_group : List Value → Group
  row_to_group row = record {
    id = copy_column sql max_str row 0;
    name = copy_column sql max_str row 1;
    vlan_id = int_column sql row 2;
  }

  row_to_member : List Value → Member
  row_to_member row = record {
    group_id = copy_column sql max_str row 0;
    device_id = copy_column sql max_str row 1;
  }

  -- `htsn_db_vlan_group_save`
  unfoldable pub group_save : H → Group → Error × H
  group_save h g = checked sql h group_save_sql (bound g)

  -- `htsn_db_vlan_group_delete`
  unfoldable pub group_delete : H → CString → Error × H
  group_delete h id = command sql h group_delete_sql (text id ∷ [])

  -- `htsn_db_vlan_group_for_each`: the groups that the callback is offered, in order; it stops at the
  -- first for which the callback is not 0.
  unfoldable pub groups : H → List Group
  groups h = if sql.prepares h groups_sql then map row_to_group (sql.rows h groups_sql []) else []

  -- `htsn_db_vlan_member_add`
  unfoldable pub member_add : H → Member → Error × H
  member_add h m = command sql h member_add_sql (text m.group_id ∷ text m.device_id ∷ [])

  -- `htsn_db_vlan_member_remove`
  unfoldable pub member_remove : H → CString → CString → Error × H
  member_remove h group_id device_id =
      command sql h member_remove_sql (text group_id ∷ text device_id ∷ [])

  -- `htsn_db_vlan_member_for_each_group`: the members that the callback is offered.
  unfoldable pub group_members : H → CString → List Member
  unfolding row_to_member
  group_members h group_id =
      if sql.prepares h group_members_sql
      then map row_to_member (sql.rows h group_members_sql (text group_id ∷ []))
      else []

  -- `htsn_db_vlan_member_for_each_all`: the members that the callback is offered.
  unfoldable pub members : H → List Member
  unfolding row_to_member
  members h =
      if sql.prepares h members_sql then map row_to_member (sql.rows h members_sql []) else []
