-- ===== src/Managers/Vlan.antt =====
-- src/vlan/vlan_manager.c, without the import and export of files. The database is never NULL; the
-- bus is held by the model.
use wireless_tsn_configurato.Base.{Option, none, some, List, []}
use wireless_tsn_configurato.Base.Text.{CString, codes}
use wireless_tsn_configurato.Common.{Error, ok, invalid_arg, max_str}
use wireless_tsn_configurato.Common.StrUtil.{copied}
use wireless_tsn_configurato.Mvc.EventBus.{EventBus, Call}
use wireless_tsn_configurato.Mvc.Model
use wireless_tsn_configurato.Mvc.Model.{Model}
use wireless_tsn_configurato.Vlan.{GroupModel, validate_group}
use wireless_tsn_configurato.Db.Engine.{Sqlite}
use wireless_tsn_configurato.Db.Vlan as db_vlan
use wireless_tsn_configurato.Db.Vlan.{Group}

-- `struct htsn_vlan_manager`
pub record Manager (H C U : Type 0) : Type 0 where
  pub db : H
  pub model : Model C U

module _ {H C U : Type 0} where
  -- `htsn_vlan_manager_create`; without a bus it returns NULL.
  unfoldable pub create : H → Option (EventBus C U) → Option (Manager H C U)
  create db none = none
  create db (some bus) = some (record { db = db; model = Model.init (codes "vlan") (some bus) })

  unfoldable pub notify : Manager H C U → CString → List (Call C U (Option Group))
  notify m event = Model.notify m.model (some event)

module _ {H C U : Type 0} (sql : Sqlite H) where
  -- `htsn_vlan_manager_create_group`; what saving returns is not looked at.
  unfoldable pub create_group :
      Manager H C U → Option GroupModel → Error × Manager H C U × List (Call C U (Option Group))
  create_group m none = (invalid_arg, m, [])
  create_group m (some g) = elim (validate_group g) [
    | ok ↦ (
      ok,
      record m {
        db =
            (db_vlan.group_save sql m.db (record {
              id = copied max_str g.id;
              name = copied max_str g.name;
              vlan_id = g.vlan_id;
            })).1;
      },
      notify m (codes "group_changed"),
    )
    | e ↦ (e, m, [])
  ]

  -- `htsn_vlan_manager_delete_group`
  unfoldable pub delete_group :
      Manager H C U → Option CString → Error × Manager H C U × List (Call C U (Option Group))
  delete_group m none = (invalid_arg, m, [])
  delete_group m (some id) =
      (ok, record m { db = (db_vlan.group_delete sql m.db id).1 }, notify m (codes "group_changed"))

  -- `htsn_vlan_manager_add_member`
  unfoldable pub add_member :
      Manager H C U
      → Option CString
      → Option CString
      → Error × Manager H C U × List (Call C U (Option Group))
  add_member m none device_id = (invalid_arg, m, [])
  add_member m (some group_id) none = (invalid_arg, m, [])
  add_member m (some group_id) (some device_id) = (
    ok,
    record m {
      db =
          (db_vlan.member_add sql m.db (record {
            group_id = copied max_str group_id;
            device_id = copied max_str device_id;
          })).1;
    },
    notify m (codes "member_changed"),
  )

  -- `htsn_vlan_manager_remove_member`
  unfoldable pub remove_member :
      Manager H C U
      → Option CString
      → Option CString
      → Error × Manager H C U × List (Call C U (Option Group))
  remove_member m none device_id = (invalid_arg, m, [])
  remove_member m (some group_id) none = (invalid_arg, m, [])
  remove_member m (some group_id) (some device_id) = (
    ok,
    record m { db = (db_vlan.member_remove sql m.db group_id device_id).1 },
    notify m (codes "member_changed"),
  )
