-- ===== src/Managers/Qos/Configured.antt =====
-- QoS parameters configured for a device and loaded for it.
use wireless_tsn_configurato.Base.{◌<◌, ◌≡◌, ◌∙◌, ap, some, length}
use wireless_tsn_configurato.Base.Text.{CString, codes}
use wireless_tsn_configurato.Common.{ok, max_str}
use wireless_tsn_configurato.Common.StrUtil.Copy.{copied_of_lt}
use wireless_tsn_configurato.Mvc.Model
use wireless_tsn_configurato.Qos.{ConfigModel, validate, traffic_class_int, preemption_int}
use wireless_tsn_configurato.Db.Engine.{Sqlite, ReadsBack}
use wireless_tsn_configurato.Db.Qos as db_qos
use wireless_tsn_configurato.Db.Qos.{QosConfig}
use wireless_tsn_configurato.Db.Qos.RoundTrip.{KeepsRows, load-save_qos}
use wireless_tsn_configurato.Managers.Qos.{Manager, row, configure}

-- The parameters that are asked for: those of the values, for the device and not for the id inside
-- of them.
abbrev pub asked : CString → ConfigModel → QosConfig
asked id cfg = record {
  device_id = id;
  priority = cfg.priority;
  traffic_class = traffic_class_int cfg.traffic_class;
  bandwidth_kbps = cfg.bandwidth_kbps;
  latency_ms = cfg.latency_ms;
  preemption = preemption_int cfg.preemption;
}

row-asked : (id : CString) (cfg : ConfigModel) → length id < max_str → row id cfg ≡ asked id cfg
unfolding row
row-asked id cfg fits =
    ap
      (λ i. record {
        device_id = i;
        priority = cfg.priority;
        traffic_class = traffic_class_int cfg.traffic_class;
        bandwidth_kbps = cfg.bandwidth_kbps;
        latency_ms = cfg.latency_ms;
        preemption = preemption_int cfg.preemption;
      })
      (copied_of_lt max_str id fits)

module _ {H C U : Type 0} (sql : Sqlite H) (m : Manager H C U) (id : CString)
    (cfg : ConfigModel) where
  taken :
      validate cfg ≡ ok
      → configure sql m (some id) (some cfg) ≡ (
        ok,
        record m { db = (db_qos.save sql m.db (row id cfg)).1 },
        Model.notify m.model (some (codes "changed")),
      )
  unfolding configure
  taken p = rw (p, configure)

  stored :
      (keeps : KeepsRows sql) (reads : ReadsBack sql)
      → length id < max_str
      → (db_qos.save sql m.db (asked id cfg)).0 ≡ ok
      → db_qos.load sql (db_qos.save sql m.db (row id cfg)).1 id ≡ (ok, some (asked id cfg))
  stored keeps reads fits done =
      ap (λ r. db_qos.load sql (db_qos.save sql m.db r).1 id) (row-asked id cfg fits)
      ∙ load-save_qos sql reads keeps m.db (asked id cfg) fits done
