-- ===== src/ConfigVersion/Manager.antt =====
-- src/config_version/config_version_manager.c: snapshots and the return to one.
use wireless_tsn_configurato.Base.{Bool, Option, none, some, List, [], if◌then◌else◌}
use wireless_tsn_configurato.Base.Int.{ℤ}
use wireless_tsn_configurato.Base.Text.{CString, codes}
use wireless_tsn_configurato.Common.{Error, ok, invalid_arg, no_memory, not_found, is_ok}
use wireless_tsn_configurato.Mvc.EventBus.{EventBus, Call}
use wireless_tsn_configurato.Mvc.Model
use wireless_tsn_configurato.Mvc.Model.{Model}
use wireless_tsn_configurato.Db.Engine.{Sqlite, or_empty}
use wireless_tsn_configurato.Db.Versions as db_versions
use wireless_tsn_configurato.Db.Versions.{Version}
use wireless_tsn_configurato.ConfigVersion.{serialize_scope}
use wireless_tsn_configurato.ConfigVersion.Restore.{restore_payload}

-- `struct htsn_config_version_manager`
pub record Manager (H C U : Type 0) : Type 0 where
  pub db : H
  pub model : Model C U

module _ {H C U : Type 0} where
  -- `htsn_cfg_ver_manager_create`; without a bus it returns NULL.
  unfoldable pub create : H → Option (EventBus C U) → Option (Manager H C U)
  create db none = none
  create db (some bus) =
      some (record { db = db; model = Model.init (codes "config_version") (some bus) })

module _ {H C U : Type 0} (sql : Sqlite H) where
  -- `htsn_cfg_ver_snapshot`; what adding the version returns is not looked at.
  unfoldable pub snapshot :
      ℤ
      → Bool
      → Manager H C U
      → Option CString
      → Option CString
      → Error × Manager H C U × List (Call C U (Option Version))
  snapshot now heap m none device_id = (invalid_arg, m, [])
  snapshot now heap m (some name) device_id =
      let scope = or_empty device_id in
      if heap
      then (
        ok,
        record m {
          db = (db_versions.add sql now m.db name scope (serialize_scope sql m.db scope)).1;
        },
        Model.notify m.model (some (codes "changed")),
      )
      else (no_memory, m, [])

  -- `htsn_cfg_ver_rollback`
  unfoldable pub rollback :
      Bool → Manager H C U → ℤ → Error × Manager H C U × List (Call C U (Option Version))
  rollback heap m id = elim (db_versions.get sql m.db id).1 [
    | none ↦ (not_found, m, [])
    | some v ↦
        let (result, h) = restore_payload sql heap m.db v.payload v.device_id in
        (
          result,
          record m { db = h },
          if is_ok result then Model.notify m.model (some (codes "changed")) else [],
        )
  ]

  -- `htsn_cfg_ver_count`; `htsn_cfg_ver_for_each` calls back for `db_versions.all sql m.db`.
  unfoldable pub count : Manager H C U → ℤ
  count m = db_versions.count sql m.db
