-- ===== src/Managers/Domains.antt =====
-- src/domain/domain_manager.c. The database is never NULL; the bus is held by the model.

use wireless_tsn_configurato.Base.{Option, none, some, List, [], ◌∷◌, String, if◌then◌else◌}
use wireless_tsn_configurato.Base.Text.{CString, codes, str_eq}
use wireless_tsn_configurato.Common.{Error, ok, invalid_arg}
use wireless_tsn_configurato.Mvc.EventBus.{EventBus, Call}
use wireless_tsn_configurato.Mvc.Model
use wireless_tsn_configurato.Mvc.Model.{Model}
use wireless_tsn_configurato.Db.Engine.{Sqlite, text, attempt, command}
use wireless_tsn_configurato.Db.Domains as db_domains
use wireless_tsn_configurato.Db.Domains.{Domain}

-- `struct htsn_domain_manager`
pub record Manager (H C U : Type 0) : Type 0 where
  pub db : H
  pub model : Model C U

unfoldable pub rehome_sql : String
rehome_sql = "UPDATE devices SET domain='default' WHERE domain=?;"

unfoldable pub assign_sql : String
assign_sql = "UPDATE devices SET domain=? WHERE id=?;"

-- The domain that `htsn_domain_manager_create` writes.
abbrev pub default_domain : Domain
default_domain = record {
  id = codes "default";
  name = codes "Default";
  description = codes "Global default domain";
}

module _ {H C U : Type 0} where
  unfoldable pub changed : Manager H C U → List (Call C U (Option Domain))
  changed m = Model.notify m.model (some (codes "changed"))

module _ {H C U : Type 0} (sql : Sqlite H) where
  -- `htsn_domain_manager_create`; without a bus it returns NULL.
  unfoldable pub create : H → Option (EventBus C U) → Option (Manager H C U)
  create db none = none
  create db (some bus) = some (record {
    db = (db_domains.save sql db default_domain).1;
    model = Model.init (codes "domain") (some bus);
  })

  -- `htsn_domain_manager_save`
  unfoldable pub save :
      Manager H C U → Option Domain → Error × Manager H C U × List (Call C U (Option Domain))
  save m none = (invalid_arg, m, [])
  save m (some d) = (ok, record m { db = (db_domains.save sql m.db d).1 }, changed m)

  -- `htsn_domain_manager_delete`
  unfoldable pub delete :
      Manager H C U → Option CString → Error × Manager H C U × List (Call C U (Option Domain))
  delete m none = (invalid_arg, m, [])
  delete m (some id) = if str_eq id (codes "default") then (invalid_arg, m, []) else (
    ok,
    record m { db = attempt sql (db_domains.delete sql m.db id).1 rehome_sql (text id ∷ []) },
    changed m,
  )

  -- `htsn_domain_manager_assign_device`
  unfoldable pub assign_device :
      Manager H C U
      → Option CString
      → Option CString
      → Error × Manager H C U × List (Call C U (Option Domain))
  assign_device m none domain_id = (invalid_arg, m, [])
  assign_device m (some device_id) none = (invalid_arg, m, [])
  assign_device m (some device_id) (some domain_id) =
      elim (command sql m.db assign_sql (text domain_id ∷ text device_id ∷ [])).0 [
        | ok ↦ (
          ok,
          record m { db = (command sql m.db assign_sql (text domain_id ∷ text device_id ∷ [])).1 },
          changed m,
        )
        | e ↦ (e, m, [])
      ]
