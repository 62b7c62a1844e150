-- ===== src/Managers/Tas/Reload.antt =====
-- What becomes of a schedule on its way through the manager and the database.
use wireless_tsn_configurato.Base.{◌<◌, ◌≡◌, ◌↔◌, sym, ◌∙◌, length}
use wireless_tsn_configurato.Common.{ok, max_str}
use wireless_tsn_configurato.Common.StrUtil.Copy.{copied_of_lt}
use wireless_tsn_configurato.Gcl.{total_duration_ns}
use wireless_tsn_configurato.Tas.{ScheduleModel, validate}
use wireless_tsn_configurato.Tas.Check.{validate_iff}
use wireless_tsn_configurato.Managers.Tas.{to_model, to_db_schedule_copy}

-- A schedule that was accepted, and whose name fits its buffer, turned into its row and back, is
-- accepted again exactly when the cycle of its gate control list is the cycle of the schedule: the
-- row keeps one of the two.
pub validate-to_model :
    (s : ScheduleModel)
    → length s.name < max_str
    → validate s ≡ ok
    → (validate (to_model (to_db_schedule_copy s)) ≡ ok) ↔ (s.gcl.cycle_time_ns ≡ s.cycle_time_ns)
unfolding to_model to_db_schedule_copy total_duration_ns
validate-to_model s fits valid =
    let (positive, named, some_entry, fills) = (validate_iff s).0 valid in
    let again = validate_iff (to_model (to_db_schedule_copy s)) in
    (
      λ (h : validate (to_model (to_db_schedule_copy s)) ≡ ok). sym fills ∙ (again.0 h).3,
      λ (e : s.gcl.cycle_time_ns ≡ s.cycle_time_ns). again.1 (
        positive,
        rw (copied_of_lt max_str s.name fits, copied_of_lt max_str s.name fits) named,
        some_entry,
        fills ∙ e,
      ),
    )
