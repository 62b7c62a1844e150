-- ===== src/Managers/Tas.antt =====
-- src/tas/tas_manager.c. The database is never NULL; the bus is held by the model.
pub mod Reload
use wireless_tsn_configurato.Base.{Option, none, some, List, []}
use wireless_tsn_configurato.Base.Text.{CString, codes}
use wireless_tsn_configurato.Common.{Error, ok, invalid_arg, max_str}
use wireless_tsn_configurato.Common.StrUtil.{copied}
use wireless_tsn_configurato.Mvc.EventBus.{EventBus, Call}
use wireless_tsn_configurato.Mvc.Model
use wireless_tsn_configurato.Mvc.Model.{Model}
use wireless_tsn_configurato.Tas.{ScheduleModel, validate}
use wireless_tsn_configurato.Db.Engine.{Sqlite}
use wireless_tsn_configurato.Db.Tas as db_tas
use wireless_tsn_configurato.Db.Tas.{Schedule}

-- `struct htsn_tas_manager`
pub record Manager (H C U : Type 0) : Type 0 where
  pub db : H
  pub model : Model C U

-- `to_model`; loading has cut the entries to 128, as many as the array has.
unfoldable pub to_model : Schedule → ScheduleModel
to_model src = record {
  id = copied max_str src.id;
  name = copied max_str src.name;
  cycle_time_ns = src.cycle_time_ns;
  deploy_target = copied max_str src.deploy_target;
  gcl = record { entries = src.entries; cycle_time_ns = src.cycle_time_ns };
}

-- `to_db_schedule_copy`
unfoldable pub to_db_schedule_copy : ScheduleModel → Schedule
to_db_schedule_copy src = record {
  id = copied max_str src.id;
  name = copied max_str src.name;
  cycle_time_ns = src.cycle_time_ns;
  deploy_target = copied max_str src.deploy_target;
  entries = src.gcl.entries;
}

module _ {H C U : Type 0} where
  -- `htsn_tas_manager_create`; without a bus it returns NULL.
  unfoldable pub create : H → Option (EventBus C U) → Option (Manager H C U)
  create db none = none
  create db (some bus) = some (record { db = db; model = Model.init (codes "tas") (some bus) })

module _ {H C U : Type 0} (sql : Sqlite H) where
  -- `htsn_tas_manager_save`; what saving returns is not looked at.
  unfoldable pub save :
      Manager H C U
      → Option ScheduleModel
      → Error × Manager H C U × List (Call C U (Option ScheduleModel))
  save m none = (invalid_arg, m, [])
  save m (some s) = elim (validate s) [
    | ok ↦ (
      ok,
      record m { db = (db_tas.save sql m.db (to_db_schedule_copy s)).1 },
      Model.notify m.model (some (codes "schedule_changed")),
    )
    | _ ↦ (invalid_arg, m, [])
  ]

  -- `htsn_tas_manager_load`: the result and, with `ok`, what `*out` is set to.
  unfoldable pub load : Manager H C U → Option CString → Error × Option ScheduleModel
  load m none = (invalid_arg, none)
  load m (some id) = elim (db_tas.load sql m.db id).1 [
    | none ↦ ((db_tas.load sql m.db id).0, none)
    | some s ↦ (ok, some (to_model s))
  ]

  -- `htsn_tas_manager_delete`
  unfoldable pub delete :
      Manager H C U
      → Option CString
      → Error × Manager H C U × List (Call C U (Option ScheduleModel))
  delete m none = (invalid_arg, m, [])
  delete m (some id) = (
    ok,
    record m { db = (db_tas.delete sql m.db id).1 },
    Model.notify m.model (some (codes "schedule_changed")),
  )

  -- `htsn_tas_manager_deploy`
  unfoldable pub deploy :
      Manager H C U → Option CString → Error × List (Call C U (Option ScheduleModel))
  deploy m none = (invalid_arg, [])
  deploy m (some id) = elim (load m (some id)).1 [
    | none ↦ ((load m (some id)).0, [])
    | some s ↦ (ok, Model.notify_data m.model (some (codes "deployed")) (some s))
  ]
