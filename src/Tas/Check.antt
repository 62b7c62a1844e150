-- ===== src/Tas/Check.antt =====
-- When a schedule is accepted.
use wireless_tsn_configurato.Base.{
  ◌<◌, ◌≡◌, ◌⊎◌, ◌∷◌, ◌↔◌, refl, true, false, [], arith, Bool-cases, inl, inr, length,
}
use wireless_tsn_configurato.Base.Int.{ℤ, pos, leb_ℤ, eq_of_parts, int_laws}
use wireless_tsn_configurato.Base.Text.{is_empty}
use wireless_tsn_configurato.Common.{ok, invalid_arg}
use wireless_tsn_configurato.Gcl.{total_duration_ns, is_valid, add_entry, gate_open, Gcl}
use wireless_tsn_configurato.Tas.{ScheduleModel, validate, generate_helper}

-- A schedule is accepted exactly when its cycle is positive, it has a name, and its list has an
-- entry and lasts as long as the cycle that the list itself carries.
pub validate_iff :
    (s : ScheduleModel)
    → (validate s ≡ ok) ↔ (
        (leb_ℤ s.cycle_time_ns (pos 0) ≡ false)
        × (is_empty s.name ≡ false)
        × (0 < length s.gcl.entries)
        × (total_duration_ns s.gcl ≡ s.gcl.cycle_time_ns))
unfolding validate is_valid
validate_iff s = (
  λ (h : validate s ≡ ok).
      ground (arith, eq_of_parts (total_duration_ns s.gcl) s.gcl.cycle_time_ns),
  λ h. ground arith,
)

abbrev single : ℤ → Gcl
single cycle = record {
  entries = record { gate_state = gate_open; duration_ns = cycle } ∷ [];
  cycle_time_ns = cycle;
}

opened :
    (cycle : ℤ)
    → leb_ℤ cycle (pos 0) ≡ false
    → (add_entry (record { entries = []; cycle_time_ns = cycle }) gate_open cycle).1 ≡ single cycle
unfolding add_entry
opened cycle h = ground arith

total_duration-single : (cycle : ℤ) → total_duration_ns (single cycle) ≡ cycle
unfolding total_duration_ns
total_duration-single cycle = omega int_laws

-- What the helper makes of a named schedule with a positive cycle is accepted, and its one entry
-- keeps gate 0 open for the whole cycle; a cycle of 0 or less is refused and changes nothing.
pub validate-generate_helper :
    (s : ScheduleModel)
    → is_empty s.name ≡ false
    → let (result, s') = generate_helper s in
      ((leb_ℤ s.cycle_time_ns (pos 0) ≡ true) × (result ≡ invalid_arg) × (s' ≡ s))
      ⊎ ((leb_ℤ s.cycle_time_ns (pos 0) ≡ false)
          × (result ≡ ok)
          × (validate s' ≡ ok)
          × (s'.cycle_time_ns ≡ s.cycle_time_ns)
          × (total_duration_ns s'.gcl ≡ s.cycle_time_ns))
unfolding generate_helper
validate-generate_helper s named = elim (Bool-cases (leb_ℤ s.cycle_time_ns (pos 0))) [
  | inl p ↦ rw p (inl (refl, refl, refl))
  | inr p ↦
      rw (p, opened s.cycle_time_ns p)
        (inr (refl, refl, accepted p, refl, total_duration-single s.cycle_time_ns))
]
  where
    accepted :
        leb_ℤ s.cycle_time_ns (pos 0) ≡ false
        → validate (record s { gcl = single s.cycle_time_ns }) ≡ ok
    accepted p =
        (validate_iff (record s { gcl = single s.cycle_time_ns })).1
          (p, named, omega arith, total_duration-single s.cycle_time_ns)
