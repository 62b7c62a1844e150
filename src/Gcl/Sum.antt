-- ===== src/Gcl/Sum.antt =====
-- The length of a gate control list, in entries and in time.
use wireless_tsn_configurato.Base.{
  ℕ, ◌+◌, ◌≤◌, ◌<◌, ◌≡◌, refl, false, List, [], ◌∷◌, ◌++◌, arith, length, length-append, All,
  All-append, All-take, take, length-take, ◌-◌, ◌*◌, ◌^◌, Bool-cases, inl, inr, ◌||◌, leb, ◌⊎◌,
}
use wireless_tsn_configurato.Base.Int.{ℤ, pos, negsuc, ◌+ℤ◌, ◌≤ℤ◌, ltb_ℤ, pos_part, +ℤ_parts}
use wireless_tsn_configurato.Common.{ok, invalid_arg}
use wireless_tsn_configurato.Gcl.{
  max_entries, GclEntry, Gcl, add_entry, sum_from, total_duration_ns,
}

sum_from-append :
    (t : ℤ) (es : List GclEntry) (e : GclEntry)
    → sum_from t (es ++ e ∷ []) ≡ sum_from t es +ℤ e.duration_ns
unfolding sum_from
sum_from-append t [] e = refl
sum_from-append t (d ∷ es) e = sum_from-append (t +ℤ d.duration_ns) es e

-- No entry lasts a negative time, and the array is not overrun.
pub record IsSound (gcl : Gcl) : Type 0 where
  pub bounded : length gcl.entries ≤ max_entries
  pub durations : All (λ e. pos 0 ≤ℤ e.duration_ns) gcl.entries

-- `htsn_gcl_add_entry` on every branch: a negative duration or a full list is refused and changes
-- nothing; anything else lengthens the list by one entry and the total by its duration. The list
-- stays within its array, with no negative duration.
pub add_entry_lem :
    (gcl : Gcl) (gate_state : ℕ) (duration_ns : ℤ)
    → IsSound gcl
    → let (result, gcl') = add_entry gcl gate_state duration_ns in
      IsSound gcl'
      × (((result ≡ invalid_arg)
            × (gcl' ≡ gcl)
            × ((duration_ns ≤ℤ negsuc 0) ⊎ (max_entries ≤ length gcl.entries)))
          ⊎ ((result ≡ ok)
              × (pos 0 ≤ℤ duration_ns)
              × (length gcl.entries < max_entries)
              × (length gcl'.entries ≡ length gcl.entries + 1)
              × (total_duration_ns gcl' ≡ total_duration_ns gcl +ℤ duration_ns)))
unfolding add_entry total_duration_ns
add_entry_lem gcl gate_state duration_ns v =
    elim (Bool-cases (ltb_ℤ duration_ns (pos 0) || leb max_entries (length gcl.entries))) [
      | inl refused ↦ rw refused (v, inl (refl, refl, ground arith))
      | inr taken ↦ rw taken (
        record {
          bounded = omega (arith, length-append gcl.entries (new ∷ []), room taken);
          durations = All-append _ gcl.entries (new ∷ []) v.durations (later taken, tt);
        },
        inr (
          refl,
          later taken,
          room taken,
          omega (arith, length-append gcl.entries (new ∷ [])),
          sum_from-append (pos 0) gcl.entries new,
        ),
      )
    ]
  where
    new : GclEntry
    new = record { gate_state = gate_state; duration_ns = duration_ns }

    room :
        (ltb_ℤ duration_ns (pos 0) || leb max_entries (length gcl.entries)) ≡ false
        → length gcl.entries < max_entries
    room h = ground arith

    later :
        (ltb_ℤ duration_ns (pos 0) || leb max_entries (length gcl.entries)) ≡ false
        → pos 0 ≤ℤ duration_ns
    later h = ground arith

sum_from-nonneg :
    (t : ℤ) (es : List GclEntry) → All (λ e. pos 0 ≤ℤ e.duration_ns) es → t ≤ℤ sum_from t es
unfolding sum_from
sum_from-nonneg t [] h = omega arith
sum_from-nonneg t (e ∷ es) h =
    omega (arith, sum_from-nonneg (t +ℤ e.duration_ns) es h.1, +ℤ_parts t e.duration_ns, h.0)

sum_from-bound :
    (b : ℕ) (t : ℤ) (es : List GclEntry)
    → All (λ e. e.duration_ns ≤ℤ pos b) es
    → pos_part (sum_from t es) ≤ pos_part t + length es * b
unfolding sum_from
sum_from-bound b t [] h = omega arith
sum_from-bound b t (e ∷ es) h =
    ground (arith, sum_from-bound b (t +ℤ e.duration_ns) es h.1, +ℤ_parts t e.duration_ns, h.0)

-- Durations of at most 2^56 - 1 ns (over two years) keep each partial sum within `int64_t`: the
-- total of any first part of the list is at least 0 and below 2^63.
pub total_duration-in_range :
    (gcl : Gcl) (n : ℕ)
    → IsSound gcl
    → All (λ e. e.duration_ns ≤ℤ pos (2 ^ 56 - 1)) gcl.entries
    → let part = total_duration_ns (record gcl { entries = take n gcl.entries }) in
      (pos 0 ≤ℤ part) × (pos_part part < 2 ^ 63)
unfolding total_duration_ns
total_duration-in_range gcl n v small =
    let bound =
      sum_from-bound (2 ^ 56 - 1) (pos 0) (take n gcl.entries) (All-take _ n gcl.entries small) in
    (
      sum_from-nonneg (pos 0) (take n gcl.entries) (All-take _ n gcl.entries v.durations),
      omega (arith, bound, v.bounded, length-take n gcl.entries),
    )
