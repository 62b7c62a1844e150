-- ===== src/Db/Domains.antt =====
-- src/db/db_domains.c
use wireless_tsn_configurato.Base.{List, [], ◌∷◌, map, String, if◌then◌else◌}
use wireless_tsn_configurato.Base.Text.{CString}
use wireless_tsn_configurato.Common.{Error, max_str}
use wireless_tsn_configurato.Db.Engine.{Value, text, Sqlite, command, checked, copy_column}

-- `htsn_domain`
pub record Domain : Type 0 where
  pub id : CString
  pub name : CString
  pub description : CString

unfoldable pub save_sql : String
save_sql =
    "INSERT INTO domains (id,name,description) VALUES (?,?,?) ON CONFLICT(id) DO UPDATE SET name=excluded.name, description=excluded.description;"

unfoldable pub delete_sql : String
delete_sql = "DELETE FROM domains WHERE id=?;"

unfoldable pub all_sql : String
all_sql = "SELECT id,name,description FROM domains;"

module _ {H : Type 0} (sql : Sqlite H) where
  -- `htsn_db_domain_save`
  unfoldable pub save : H → Domain → Error × H
  save h d = checked sql h save_sql (text d.id ∷ text d.name ∷ text d.description ∷ [])

  -- `htsn_db_domain_delete`
  unfoldable pub delete : H → CString → Error × H
  delete h id = command sql h delete_sql (text id ∷ [])

  from_row : List Value → Domain
  from_row row = record {
    id = copy_column sql max_str row 0;
    name = copy_column sql max_str row 1;
    description = copy_column sql max_str row 2;
  }

  -- `htsn_db_domain_for_each`: the domains that the callback is called with, in order.
  unfoldable pub all : H → List Domain
  unfolding from_row
  all h = if sql.prepares h all_sql then map from_row (sql.rows h all_sql []) else []
