-- ===== src/Agent/Networks/Lists.antt =====
-- Lists of networks as they are moved in their buffer.
use wireless_tsn_configurato.Base.{
  ℕ, zero, suc, ◌+◌, ◌-◌, ◌≤◌, ◌≡◌, ◌∙◌, refl, ap, none, some, List, [], ◌∷◌, ◌++◌, arith,
  if◌then◌else◌, length, take, drop, replicate, set, Bool-cases, inl, inr, length-append,
}
use wireless_tsn_configurato.Base.Text.{CString, str_eq}
use wireless_tsn_configurato.Agent.Nvs.{Network}
use wireless_tsn_configurato.Agent.Networks.{net_max, replace_pass, others, or_empty}
use wireless_tsn_configurato.Agent.Networks.Spec.{
  listed, with_pass, entry, without, added, Op, add, remove, clear, after,
}

pub take-append_le {ℓ} :
    {A : Type ℓ} (n : ℕ) (xs ys : List A)
    → length xs ≤ n
    → take n (xs ++ ys) ≡ xs ++ take (n - length xs) ys
take-append_le n [] ys h = ap (λ k. take k ys) (omega arith)
take-append_le zero (x ∷ xs) ys h = absurd (omega arith)
take-append_le (suc n) (x ∷ xs) ys h =
    ap (◌∷◌ x) (take-append_le n xs ys (omega arith) ∙ ap (λ k. xs ++ take k ys) (omega arith))

pub take-replicate {ℓ} :
    {A : Type ℓ} (k n : ℕ) (a : A) → k ≤ n → take k (replicate n a) ≡ replicate k a
take-replicate zero n a h = refl
take-replicate (suc k) zero a h = absurd (omega arith)
take-replicate (suc k) (suc n) a h = ap (◌∷◌ a) (take-replicate k n a (omega arith))

pub set-append {ℓ} :
    {A : Type ℓ} (xs : List A) (y z : A) (ys : List A)
    → set (xs ++ y ∷ ys) (length xs) z ≡ xs ++ z ∷ ys
set-append [] y z ys = refl
set-append (x ∷ xs) y z ys = ap (◌∷◌ x) (set-append xs y z ys)

pub length-drop_one {ℓ} : {A : Type ℓ} (xs : List A) → length (drop 1 xs) ≡ length xs - 1
length-drop_one [] = refl
length-drop_one (x ∷ xs) = omega arith

pub take_one_more {ℓ} :
    {A : Type ℓ} (xs : List A) (z : A) (ys : List A)
    → take (length xs + 1) (xs ++ z ∷ ys) ≡ xs ++ z ∷ []
take_one_more [] z ys = refl
take_one_more (x ∷ xs) z ys =
    let next : suc (length xs) + 1 ≡ suc (length xs + 1) = omega arith in
    ap (λ n. take n (x ∷ (xs ++ z ∷ ys))) next ∙ ap (◌∷◌ x) (take_one_more xs z ys)

pub nil_of_length {ℓ} : {A : Type ℓ} (xs : List A) → length xs ≡ 0 → xs ≡ []
nil_of_length [] h = refl
nil_of_length (x ∷ xs) h = absurd (omega arith)

pub drop_last {ℓ} :
    {A : Type ℓ} (k : ℕ) (xs : List A) → length xs ≡ suc k → (d : A) × (drop k xs ≡ d ∷ [])
drop_last k [] h = absurd (omega arith)
drop_last zero (x ∷ []) h = (x, refl)
drop_last zero (x ∷ y ∷ xs) h = absurd (omega arith)
drop_last (suc k) (x ∷ xs) h = drop_last k xs (omega arith)

-- A full list moved up by one, with a new entry in the last place.
pub evicted :
    (ns : List Network) (z : Network)
    → length ns ≡ net_max
    → set (drop 1 ns ++ drop (net_max - 1) ns) (net_max - 1) z ≡ drop 1 ns ++ z ∷ []
evicted ns z full =
    let (d, last) = drop_last 9 ns full in
    let nine : 9 ≡ length (drop 1 ns) = omega (arith, length-drop_one ns, full) in
    ap (λ ys. set (drop 1 ns ++ ys) 9 z) last
    ∙ (ap (λ k. set (drop 1 ns ++ d ∷ []) k z) nine ∙ set-append (drop 1 ns) d z [])

module _ (ssid pass : CString) where
  pub length-with_pass : (ns : List Network) → length (with_pass ssid pass ns) ≡ length ns
  unfolding with_pass
  length-with_pass [] = refl
  length-with_pass (e ∷ ns) = ground (arith, length-with_pass ns)

  pub replace-listed :
      (ns tail : List Network)
      → replace_pass (length ns) ssid pass (ns ++ tail)
        ≡ (if listed ssid ns then some (with_pass ssid pass ns ++ tail) else none)
  unfolding replace_pass listed with_pass
  replace-listed [] tail = refl
  replace-listed (e ∷ ns) tail = elim (Bool-cases (str_eq e.ssid ssid)) [
    | inl same ↦ rw same refl
    | inr other ↦
        rw (other, replace-listed ns tail)
          (elim (Bool-cases (listed ssid ns)) [ inl l ↦ rw l refl | inr l ↦ rw l refl ])
  ]

pub others-without : (ssid : CString) (ns : List Network) → others ssid ns ≡ without ssid ns
unfolding others without
others-without ssid [] = refl
others-without ssid (e ∷ ns) = ground (arith, others-without ssid ns)

length-without : (ssid : CString) (ns : List Network) → length (without ssid ns) ≤ length ns
unfolding without
length-without ssid [] = omega arith
length-without ssid (e ∷ ns) = ground (arith, length-without ssid ns)

length-added :
    (ssid pass : CString) (ns : List Network)
    → length ns ≤ net_max
    → length (added ssid pass ns) ≤ net_max
unfolding added
length-added ssid pass ns h = ground (
  arith,
  h,
  length-with_pass ssid pass ns,
  length-append ns (entry ssid pass ∷ []),
  length-append (drop 1 ns) (entry ssid pass ∷ []),
  length-drop_one ns,
)

pub length-after :
    (op : Op) (ns : List Network) → length ns ≤ net_max → length (after op ns) ≤ net_max
unfolding after
length-after (add ssid pass) ns h = ground (arith, length-added ssid (or_empty pass) ns h)
length-after (remove ssid) ns h = ground (arith, length-without ssid ns)
length-after clear ns h = omega arith
