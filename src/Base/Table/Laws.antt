-- ===== src/Base/Table/Laws.antt =====
-- The search loops as a map from keys to entries.
use mathlib.Core.Path.{◌≡◌, refl}
use mathlib.Core.Bool.{true, false}
use mathlib.Core.Option.{none, some}
use mathlib.Core.List.{List, [], ◌∷◌, ◌++◌}
use native.Mathlib.Omega.{arith}
use wireless_tsn_configurato.Base.Tests.{if◌then◌else◌}
use wireless_tsn_configurato.Base.Table.Keys.{Eq, find, has, overwrite, erase, Fresh, Unique}

module _ {A K : Type 0} ⦃e : Eq K⦄ (key : A → K) where
  pub beq_refl : (k : K) → e.beq k k ≡ true
  beq_refl k = (e.beq_iff k k).1 refl

  pub find_of_not_has : (k : K) (xs : List A) → has key k xs ≡ false → find key k xs ≡ none
  unfolding find has
  find_of_not_has k [] h = refl
  find_of_not_has k (y ∷ ys) h = ground (arith, find_of_not_has k ys)

  pub has_of_find : (k : K) (xs : List A) (x : A) → find key k xs ≡ some x → has key k xs ≡ true
  unfolding find has
  has_of_find k [] x h = cc
  has_of_find k (y ∷ ys) x h = ground (arith, has_of_find k ys x)

  pub key_of_find : (k : K) (xs : List A) (x : A) → find key k xs ≡ some x → key x ≡ k
  unfolding find
  key_of_find k [] x h = cc
  key_of_find k (y ∷ ys) x h = ground (arith, e.beq_iff (key y) k, key_of_find k ys x)

  -- What is found once an entry of a new key stands at the end.
  pub find-append_new :
      (k : K) (x : A) (xs : List A)
      → has key (key x) xs ≡ false
      → find key k (xs ++ x ∷ []) ≡ (if e.beq (key x) k then some x else find key k xs)
  unfolding find has
  find-append_new k x [] h = refl
  find-append_new k x (y ∷ ys) h = ground (
    arith,
    find-append_new k x ys,
    e.beq_iff (key y) (key x),
    e.beq_iff (key x) k,
    e.beq_iff (key y) k,
  )

  -- What is found once the entry of a key is written over.
  pub find-overwrite :
      (k : K) (x : A) (xs : List A)
      → has key (key x) xs ≡ true
      → find key k (overwrite key x xs) ≡ (if e.beq (key x) k then some x else find key k xs)
  unfolding find has overwrite
  find-overwrite k x [] h = cc
  find-overwrite k x (y ∷ ys) h = ground (
    arith,
    find-overwrite k x ys,
    e.beq_iff (key y) (key x),
    e.beq_iff (key x) k,
    e.beq_iff (key y) k,
  )

  pub find_of_Fresh : (k : K) (xs : List A) → Fresh key k xs → find key k xs ≡ none
  unfolding find
  find_of_Fresh k [] h = refl
  find_of_Fresh k (y ∷ ys) h = ground (arith, find_of_Fresh k ys h.1)

  -- What is found once the entry of a key is gone.
  pub find-erase :
      (k j : K) (xs : List A)
      → Unique key xs
      → find key k (erase key j xs) ≡ (if e.beq j k then none else find key k xs)
  unfolding find erase
  find-erase k j [] u = ground arith
  find-erase k j (y ∷ ys) u = ground (
    arith,
    find-erase k j ys u.1,
    find_of_Fresh (key y) ys u.0,
    e.beq_iff j k,
    e.beq_iff (key y) j,
    e.beq_iff (key y) k,
  )

  pub Fresh-append_new :
      (k : K) (x : A) (xs : List A)
      → Fresh key k xs
      → e.beq (key x) k ≡ false
      → Fresh key k (xs ++ x ∷ [])
  Fresh-append_new k x [] h n = (n, tt)
  Fresh-append_new k x (y ∷ ys) h n = (h.0, Fresh-append_new k x ys h.1 n)

  pub Unique-append_new :
      (x : A) (xs : List A) → Unique key xs → has key (key x) xs ≡ false → Unique key (xs ++ x ∷ [])
  unfolding has
  Unique-append_new x [] u h = (tt, tt)
  Unique-append_new x (y ∷ ys) u h = (
    Fresh-append_new (key y) x ys u.0
        (ground (arith, e.beq_iff (key x) (key y), e.beq_iff (key y) (key x))),
    Unique-append_new x ys u.1 (ground arith),
  )

  pub Fresh-overwrite :
      (k : K) (x : A) (xs : List A) → Fresh key k xs → Fresh key k (overwrite key x xs)
  unfolding overwrite
  Fresh-overwrite k x [] h = tt
  Fresh-overwrite k x (y ∷ ys) h = ground (
    arith,
    Fresh-overwrite k x ys h.1,
    e.beq_iff (key y) (key x),
    e.beq_iff (key x) k,
    e.beq_iff (key y) k,
  )
