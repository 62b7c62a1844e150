-- ===== src/Tas.antt =====
-- src/tas/tas.c: the check of a schedule, and the helper that opens the gate for a whole cycle.
pub mod Check
use wireless_tsn_configurato.Base.{ℕ, Bool, not, if◌then◌else◌, []}
use wireless_tsn_configurato.Base.Int.{ℤ, pos, leb_ℤ}
use wireless_tsn_configurato.Base.Text.{CString, is_empty}
use wireless_tsn_configurato.Common.{Error, ok, invalid_arg}
use wireless_tsn_configurato.Gcl.{Gcl, gate_open, add_entry, is_valid}

-- `htsn_tas_schedule_model`
pub record ScheduleModel : Type 0 where
  pub id : CString
  pub name : CString
  pub cycle_time_ns : ℤ
  pub deploy_target : CString
  pub gcl : Gcl

-- `htsn_tas_validate`
unfoldable pub validate : ScheduleModel → Error
validate s =
    if leb_ℤ s.cycle_time_ns (pos 0)
    then invalid_arg
    else if not (is_valid s.gcl)
    then invalid_arg
    else if is_empty s.name
    then invalid_arg
    else ok

-- `htsn_tas_generate_helper`
unfoldable pub generate_helper : ScheduleModel → Error × ScheduleModel
generate_helper s = if leb_ℤ s.cycle_time_ns (pos 0) then (invalid_arg, s) else (
  ok,
  record s {
    gcl =
        (add_entry (record { entries = []; cycle_time_ns = s.cycle_time_ns }) gate_open
          s.cycle_time_ns).1;
  },
)
