-- ===== src/Base/Table/Shape.antt =====
-- What the writes to a table keep: the keys apart, the number of entries, a property of each entry.
use Prim.Native.Nat.{◌+◌}
use mathlib.Core.Path.{◌≡◌, refl, subst}
use mathlib.Core.Logic.{inl, inr}
use mathlib.Core.Bool.{true}
use mathlib.Core.Option.{none, some}
use mathlib.Core.List.{List, [], ◌∷◌}
use native.Mathlib.Omega.{arith}
use wireless_tsn_configurato.Base.Tests.{if◌then◌else◌, Bool-cases}
use wireless_tsn_configurato.Base.Lists.{length, All}
use wireless_tsn_configurato.Base.Table.Keys.{
  Eq, find, has, overwrite, erase, modify, Fresh, Unique,
}
use wireless_tsn_configurato.Base.Table.Laws.{Fresh-overwrite}

module _ {A K : Type 0} ⦃e : Eq K⦄ (key : A → K) where
  pub Unique-overwrite : (x : A) (xs : List A) → Unique key xs → Unique key (overwrite key x xs)
  unfolding overwrite
  Unique-overwrite x [] u = tt
  Unique-overwrite x (y ∷ ys) u = elim (Bool-cases (e.beq (key y) (key x))) [
    | inl same ↦ rw same (subst (λ k. Fresh key k ys) ((e.beq_iff (key y) (key x)).0 same) u.0, u.1)
    | inr other ↦ rw other (Fresh-overwrite key (key y) x ys u.0, Unique-overwrite x ys u.1)
  ]

  pub Fresh-erase : (k j : K) (xs : List A) → Fresh key k xs → Fresh key k (erase key j xs)
  unfolding erase
  Fresh-erase k j [] h = tt
  Fresh-erase k j (y ∷ ys) h = ground (arith, Fresh-erase k j ys h.1)

  pub Unique-erase : (j : K) (xs : List A) → Unique key xs → Unique key (erase key j xs)
  unfolding erase
  Unique-erase j [] u = tt
  Unique-erase j (y ∷ ys) u = ground (arith, Unique-erase j ys u.1, Fresh-erase (key y) j ys u.0)

  pub length-overwrite : (x : A) (xs : List A) → length (overwrite key x xs) ≡ length xs
  unfolding overwrite
  length-overwrite x [] = refl
  length-overwrite x (y ∷ ys) = ground (arith, length-overwrite x ys)

  pub length-erase :
      (k : K) (xs : List A) → has key k xs ≡ true → length (erase key k xs) + 1 ≡ length xs
  unfolding erase has
  length-erase k [] h = cc
  length-erase k (y ∷ ys) h = ground (arith, length-erase k ys)

  pub length-modify : (k : K) (f : A → A) (xs : List A) → length (modify key k f xs) ≡ length xs
  unfolding modify
  length-modify k f [] = refl
  length-modify k f (y ∷ ys) = ground (arith, length-modify k f ys)

  module _ (k : K) (f : A → A) (keeps : (x : A) → key (f x) ≡ key x) where
    pub find-modify :
        (j : K) (xs : List A)
        → find key j (modify key k f xs) ≡ (
            if e.beq k j
            then elim (find key j xs) [ none ↦ none | some x ↦ some (f x) ]
            else find key j xs)
    unfolding find modify
    find-modify j [] = ground arith
    find-modify j (y ∷ ys) =
        ground (
          arith,
          find-modify j ys,
          keeps y,
          e.beq_iff (key y) k,
          e.beq_iff k j,
          e.beq_iff (key y) j,
        )

    pub Fresh-modify : (j : K) (xs : List A) → Fresh key j xs → Fresh key j (modify key k f xs)
    unfolding modify
    Fresh-modify j [] h = tt
    Fresh-modify j (y ∷ ys) h = ground (arith, keeps y, Fresh-modify j ys h.1)

    pub Unique-modify : (xs : List A) → Unique key xs → Unique key (modify key k f xs)
    unfolding modify
    Unique-modify [] u = tt
    Unique-modify (y ∷ ys) u =
        ground (arith, keeps y, Unique-modify ys u.1, Fresh-modify (key y) ys u.0)

module _ {A K : Type 0} ⦃e : Eq K⦄ (key : A → K) (P : A → Type 0) where
  pub All-overwrite : (x : A) (xs : List A) → P x → All P xs → All P (overwrite key x xs)
  unfolding overwrite
  All-overwrite x [] p h = tt
  All-overwrite x (y ∷ ys) p h = ground (arith, All-overwrite x ys p h.1)

  pub All-erase : (k : K) (xs : List A) → All P xs → All P (erase key k xs)
  unfolding erase
  All-erase k [] h = tt
  All-erase k (y ∷ ys) h = ground (arith, All-erase k ys h.1)

  pub All-find : (k : K) (xs : List A) (x : A) → All P xs → find key k xs ≡ some x → P x
  unfolding find
  All-find k [] x h q = cc
  All-find k (y ∷ ys) x h q = ground (arith, All-find k ys x h.1)
