-- ===== src/Managers/Qos.antt =====
-- src/qos/qos_manager.c. The database is never NULL; the bus is held by the model.
pub mod Configured
use wireless_tsn_configurato.Base.{Option, none, some, List, []}
use wireless_tsn_configurato.Base.Text.{CString, codes}
use wireless_tsn_configurato.Common.{Error, ok, invalid_arg, max_str}
use wireless_tsn_configurato.Common.StrUtil.{copied}
use wireless_tsn_configurato.Mvc.EventBus.{EventBus, Call}
use wireless_tsn_configurato.Mvc.Model
use wireless_tsn_configurato.Mvc.Model.{Model}
use wireless_tsn_configurato.Qos.{ConfigModel, validate, traffic_class_int, preemption_int}
use wireless_tsn_configurato.Db.Engine.{Sqlite}
use wireless_tsn_configurato.Db.Qos as db_qos
use wireless_tsn_configurato.Db.Qos.{QosConfig}

-- `struct htsn_qos_manager`
pub record Manager (H C U : Type 0) : Type 0 where
  pub db : H
  pub model : Model C U

-- The row that `htsn_qos_manager_configure` fills in.
unfoldable pub row : CString → ConfigModel → QosConfig
row device_id cfg = record {
  device_id = copied max_str device_id;
  priority = cfg.priority;
  traffic_class = traffic_class_int cfg.traffic_class;
  bandwidth_kbps = cfg.bandwidth_kbps;
  latency_ms = cfg.latency_ms;
  preemption = preemption_int cfg.preemption;
}

module _ {H C U : Type 0} where
  -- `htsn_qos_manager_create`; without a bus it returns NULL.
  unfoldable pub create : H → Option (EventBus C U) → Option (Manager H C U)
  create db none = none
  create db (some bus) = some (record { db = db; model = Model.init (codes "qos") (some bus) })

module _ {H C U : Type 0} (sql : Sqlite H) where
  -- `htsn_qos_manager_configure`; what saving returns is not looked at.
  unfoldable pub configure :
      Manager H C U
      → Option CString
      → Option ConfigModel
      → Error × Manager H C U × List (Call C U (Option QosConfig))
  configure m none cfg = (invalid_arg, m, [])
  configure m (some device_id) none = (invalid_arg, m, [])
  configure m (some device_id) (some cfg) = elim (validate cfg) [
    | ok ↦ (
      ok,
      record m { db = (db_qos.save sql m.db (row device_id cfg)).1 },
      Model.notify m.model (some (codes "changed")),
    )
    | e ↦ (e, m, [])
  ]

  -- `htsn_qos_manager_load_for_device`: the result and, with `ok`, what `*out` is set to.
  unfoldable pub load_for_device : Manager H C U → Option CString → Error × Option QosConfig
  load_for_device m none = (invalid_arg, none)
  load_for_device m (some device_id) = db_qos.load sql m.db device_id

  -- `htsn_qos_manager_remove`
  unfoldable pub remove :
      Manager H C U → Option CString → Error × Manager H C U × List (Call C U (Option QosConfig))
  remove m none = (invalid_arg, m, [])
  remove m (some device_id) = (
    ok,
    record m { db = (db_qos.delete sql m.db device_id).1 },
    Model.notify m.model (some (codes "changed")),
  )
