-- ===== src/Base/Table/Keys.antt =====
use mathlib.Core.Path.{◌≡◌}
use mathlib.Core.Logic.{◌↔◌}
use mathlib.Core.Bool.{Bool, true, false, ◌&&◌, ◌||◌}
use mathlib.Core.Option.{Option, none, some}
use mathlib.Core.List.{List, [], ◌∷◌}
use native.Mathlib.Omega.{arith}
use wireless_tsn_configurato.Base.Tests.{if◌then◌else◌}
use wireless_tsn_configurato.Base.Text.{CString, str_eq, str_eq_iff}

-- The comparison that a search loop makes.
pub record Eq (K : Type 0) : Type 0 where
  pub beq : K → K → Bool
  pub beq_iff : (a b : K) → (beq a b ≡ true) ↔ (a ≡ b)

instance abbrev pub text_eq : Eq CString
text_eq = record { beq = str_eq; beq_iff = str_eq_iff }

-- Two texts compared one after the other.
abbrev pub pair_beq : CString × CString → CString × CString → Bool
pair_beq (a, b) (c, d) = str_eq a c && str_eq b d

pub pair_beq_iff : (p q : CString × CString) → (pair_beq p q ≡ true) ↔ (p ≡ q)
pair_beq_iff (a, b) (c, d) = ground (arith, str_eq_iff a c, str_eq_iff b d)

instance abbrev pub pair_eq : Eq (CString × CString)
pair_eq = record { beq = pair_beq; beq_iff = pair_beq_iff }

module _ {A K : Type 0} ⦃e : Eq K⦄ (key : A → K) where
  unfoldable pub find : K → List A → Option A
  find k [] = none
  find k (x ∷ xs) = if e.beq (key x) k then some x else find k xs

  -- Whether the search loop stops at an entry.
  unfoldable pub has : K → List A → Bool
  has k [] = false
  has k (y ∷ ys) = e.beq (key y) k || has k ys

  -- `entries[i] = x; break;` at the first entry with the key of `x`, if there is one.
  unfoldable pub overwrite : A → List A → List A
  overwrite x [] = []
  overwrite x (y ∷ ys) = if e.beq (key y) (key x) then x ∷ ys else y ∷ overwrite x ys

  -- The `memmove` that closes the gap of the first entry with the key.
  unfoldable pub erase : K → List A → List A
  erase k [] = []
  erase k (y ∷ ys) = if e.beq (key y) k then ys else y ∷ erase k ys

  -- The first entry with the key is changed where it stands.
  unfoldable pub modify : K → (A → A) → List A → List A
  modify k f [] = []
  modify k f (y ∷ ys) = if e.beq (key y) k then f y ∷ ys else y ∷ modify k f ys

  abbrev pub Fresh : K → List A → Type 0
  Fresh k [] = Unit
  Fresh k (y ∷ ys) = (e.beq (key y) k ≡ false) × Fresh k ys

  -- No two entries have one key.
  abbrev pub Unique : List A → Type 0
  Unique [] = Unit
  Unique (y ∷ ys) = Fresh (key y) ys × Unique ys
