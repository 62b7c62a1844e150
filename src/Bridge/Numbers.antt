-- ===== src/Bridge/Numbers.antt =====
-- The bytes of a number, written and read back.
use wireless_tsn_configurato.Base.{
  ℕ, zero, suc, ◌+◌, ◌^◌, ◌<◌, ◌≡◌, ◌∙◌, refl, ap, List, [], ◌∷◌, ◌++◌, arith, length, get_or,
}
use wireless_tsn_configurato.Base.Int.{ℤ}
use wireless_tsn_configurato.Endpoint.{bytes32}
use wireless_tsn_configurato.Bridge.{cast, le_bytes, read_le}

pub cast-lt : (m : ℕ) (n : ℤ) → 0 < m → cast m n < m
cast-lt m n h = grind arith

pub get_or-append : (xs ys : List ℕ) (j d : ℕ) → get_or (xs ++ ys) (length xs + j) d ≡ get_or ys j d
get_or-append [] ys j d = ap (λ n. get_or ys n d) (omega arith)
get_or-append (x ∷ xs) ys j d =
    ap (λ n. get_or (x ∷ (xs ++ ys)) n d)
      (let e : suc (length xs) + j ≡ suc (length xs + j) = omega arith in e)
    ∙ get_or-append xs ys j d

-- Behind a list the bytes are read as by themselves.
pub read_le-append :
    (k : ℕ) (xs ys : List ℕ) (j : ℕ) → read_le k (xs ++ ys) (length xs + j) ≡ read_le k ys j
unfolding read_le
read_le-append zero xs ys j = refl
read_le-append (suc k) xs ys j =
    let next : length xs + j + 1 ≡ length xs + (j + 1) = omega arith in
    omega (
      arith,
      get_or-append xs ys j 0,
      ap (read_le k (xs ++ ys)) next,
      read_le-append k xs ys (j + 1),
    )

pub read_le-bytes32 : (n : ℕ) → n < 2 ^ 32 → read_le 4 (bytes32 n) 0 ≡ n
unfolding read_le bytes32
read_le-bytes32 n h = omega arith

-- Eight bytes as `read_le` adds them up.
pub eight_bytes : (n : ℕ) → n < 2 ^ 64 → (rest : List ℕ) → read_le 8 (le_bytes 8 n ++ rest) 0 ≡ n
unfolding read_le le_bytes
eight_bytes n h rest = omega arith
