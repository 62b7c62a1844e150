-- ===== src/Gcl.antt =====
-- src/tas/gcl.c: gate control lists. `entries[0 .. entry_count)` is a list; times are exact integers
-- (a sum that leaves `int64_t` is undefined in C and has no counterpart here).
pub mod Sum
use wireless_tsn_configurato.Base.{
  ℕ, Bool, false, ◌||◌, List, [], ◌∷◌, ◌++◌, leb, if◌then◌else◌, length, ◌==◌,
}
use wireless_tsn_configurato.Base.Int.{ℤ, pos, ◌+ℤ◌, ltb_ℤ, leb_ℤ, eqb_ℤ}
use wireless_tsn_configurato.Common.{Error, ok, invalid_arg}

abbrev pub gate_open : ℕ
gate_open = 1

abbrev pub max_entries : ℕ
max_entries = 128

-- `htsn_gcl_entry`; the gate state is an `unsigned char`.
pub record GclEntry : Type 0 where
  pub gate_state : ℕ
  pub duration_ns : ℤ

-- `htsn_gcl`
pub record Gcl : Type 0 where
  pub entries : List GclEntry
  pub cycle_time_ns : ℤ

-- `htsn_gcl_init`
unfoldable pub init : Gcl → ℤ → Error × Gcl
init gcl cycle_time_ns =
    if leb_ℤ cycle_time_ns (pos 0)
    then (invalid_arg, gcl)
    else (ok, record { entries = []; cycle_time_ns = cycle_time_ns })

-- `htsn_gcl_add_entry`
unfoldable pub add_entry : Gcl → ℕ → ℤ → Error × Gcl
add_entry gcl gate_state duration_ns =
    if ltb_ℤ duration_ns (pos 0) || leb max_entries (length gcl.entries)
    then (invalid_arg, gcl)
    else (
      ok,
      record gcl {
        entries =
            gcl.entries ++ (record { gate_state = gate_state; duration_ns = duration_ns } ∷ []);
      },
    )

-- `htsn_gcl_reset`
unfoldable pub reset : Gcl → Gcl
reset gcl = record gcl { entries = [] }

-- The loop of `htsn_gcl_total_duration_ns`.
unfoldable pub sum_from : ℤ → List GclEntry → ℤ
sum_from total [] = total
sum_from total (e ∷ es) = sum_from (total +ℤ e.duration_ns) es

-- `htsn_gcl_total_duration_ns`
unfoldable pub total_duration_ns : Gcl → ℤ
unfolding sum_from
total_duration_ns gcl = sum_from (pos 0) gcl.entries

-- `htsn_gcl_is_valid`
unfoldable pub is_valid : Gcl → Bool
is_valid gcl =
    if length gcl.entries == 0 then false else eqb_ℤ (total_duration_ns gcl) gcl.cycle_time_ns
