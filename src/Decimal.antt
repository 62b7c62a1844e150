-- ===== src/Decimal.antt =====
-- What `printf` writes for `%d` and `%lld`: decimal digits, behind a minus sign for a negative number.
pub mod Read
pub mod Scan
use wireless_tsn_configurato.Base.{ℕ, zero, suc, ◌+◌, ◌/◌, ◌%◌, [], ◌∷◌, ltb, if◌then◌else◌}
use wireless_tsn_configurato.Base.Int.{ℤ, pos, negsuc}
use wireless_tsn_configurato.Base.Text.{CString}

-- The digits in front of `acc`; `fuel` above the number of digits suffices.
unfoldable pub digits_onto : ℕ → ℕ → CString → CString
digits_onto zero n acc = acc
digits_onto (suc fuel) n acc =
    let more = digits_onto fuel (n / 10) ((n % 10 + b'0') ∷ acc) in
    if ltb n 10 then (n + b'0') ∷ acc else more

unfoldable pub show_ℕ : ℕ → CString
unfolding digits_onto
show_ℕ n = digits_onto (suc n) n []

unfoldable pub show_ℤ : ℤ → CString
unfolding show_ℕ
show_ℤ (pos n) = show_ℕ n
show_ℤ (negsuc n) = b'-' ∷ show_ℕ (suc n)
