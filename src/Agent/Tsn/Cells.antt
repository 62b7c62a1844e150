-- ===== src/Agent/Tsn/Cells.antt =====
-- The arrays and the entries of esp32-agent/components/htsn_agent/htsn_cfg.c that are copied and set one
-- after the other.
use wireless_tsn_configurato.Base.{
  ℕ, zero, suc, ◌≤◌, ◌<◌, ◌≡◌, ◌∙◌, refl, sym, ap, true, false, ◌&&◌, Option, some, List, [], ◌∷◌,
  ◌++◌, arith, is_some, if◌then◌else◌, length, take, replicate, Bool-cases, inl, inr,
}
use wireless_tsn_configurato.Base.Int.{ℤ, pos, ltb_ℤ}
use wireless_tsn_configurato.Base.Text.{CString, str_eq}
use wireless_tsn_configurato.Agent.Nvs.{Item, ints, longs}
use wireless_tsn_configurato.Agent.Tsn.{gcl_max, cells, over, blobs, key_gates, key_durs}

pub length-cells : (r n : ℕ) (xs : List ℤ) → length (cells r n xs) ≡ r
unfolding cells
length-cells zero n xs = refl
length-cells (suc r) zero xs = ap suc (length-cells r zero xs)
length-cells (suc r) (suc n) [] = ap suc (length-cells r n [])
length-cells (suc r) (suc n) (x ∷ xs) = ap suc (length-cells r n xs)

pub no_cells : (r : ℕ) (xs : List ℤ) → cells r zero xs ≡ replicate r (pos 0)
unfolding cells
no_cells zero xs = refl
no_cells (suc r) xs = ap (◌∷◌ (pos 0)) (no_cells r xs)

-- Cells are copied once.
pub cells-cells : (r n : ℕ) (xs : List ℤ) → cells r n (cells r n xs) ≡ cells r n xs
unfolding cells
cells-cells zero n xs = refl
cells-cells (suc r) zero xs = ap (◌∷◌ (pos 0)) (no_cells r _ ∙ sym (no_cells r xs))
cells-cells (suc r) (suc n) [] = ap (◌∷◌ (pos 0)) (cells-cells r n [])
cells-cells (suc r) (suc n) (x ∷ xs) = ap (◌∷◌ x) (cells-cells r n xs)

pub over-zeros :
    (r n : ℕ) (xs : List ℤ)
    → n ≤ r
    → over (take n (cells r n xs)) (replicate r (pos 0)) ≡ cells r n xs
unfolding cells
over-zeros r zero xs h = sym (no_cells r xs)
over-zeros zero (suc n) xs h = absurd (omega arith)
over-zeros (suc r) (suc n) [] h = ap (◌∷◌ (pos 0)) (over-zeros r n [] (omega arith))
over-zeros (suc r) (suc n) (x ∷ xs) h = ap (◌∷◌ x) (over-zeros r n xs (omega arith))

-- The entry that a key has behind the setting of these.
unfoldable pub found : CString → List (CString × Item) → Option Item → Option Item
found j [] old = old
found j ((k, v) ∷ more) old = found j more (if str_eq k j then some v else old)

pub found-append :
    (j : CString) (xs ys : List (CString × Item)) (old : Option Item)
    → found j (xs ++ ys) old ≡ found j ys (found j xs old)
unfolding found
found-append j [] ys old = refl
found-append j ((k, v) ∷ xs) ys old = found-append j xs ys (if str_eq k j then some v else old)

-- The blobs change no other entry.
pub found-blobs :
    (n : ℤ) (g d : Option (List ℤ)) (j : CString) (old : Option Item)
    → str_eq key_gates j ≡ false
    → str_eq key_durs j ≡ false
    → found j (blobs n g d) old ≡ old
unfolding found blobs
found-blobs n g d j old eg ed = elim (Bool-cases (ltb_ℤ (pos 0) n && is_some g && is_some d)) [
  | inl b ↦ rw (b, blobs) (rw (eg, ed) refl)
  | inr b ↦ rw (b, blobs) refl
]

pub blobs_of :
    (n : ℕ) (g d : List ℤ)
    → 0 < n
    → blobs (pos n) (some g) (some d)
      ≡ ((key_gates, ints (cells gcl_max n g)) ∷ (key_durs, longs (cells gcl_max n d)) ∷ [])
unfolding blobs
blobs_of n g d low =
    let some_left : ltb_ℤ (pos 0) (pos n) ≡ true = ground (arith, low) in rw (some_left, blobs) refl
