-- ===== src/Bridge/Json.antt =====
-- rpi-tsn/tsn_opcua_bridge.c: the extractors of a field from a JSON text.
use wireless_tsn_configurato.Base.{
  ℕ, zero, suc, Bool, false, ◌||◌, ◌==◌, Option, none, some, List, [], ◌∷◌, ◌++◌, if◌then◌else◌,
  length, take, drop,
}
use wireless_tsn_configurato.Base.Int.{ℤ}
use wireless_tsn_configurato.Base.Text.{CString}
use wireless_tsn_configurato.Common.StrUtil.{trim_start, starts_with}
use wireless_tsn_configurato.Decimal.Scan.{strtoll, skip_spaces}
use wireless_tsn_configurato.Policy.Topics.{strstr}
use wireless_tsn_configurato.Scanf.{behind_number}

-- The pattern `"key":` in its buffer of 64 bytes.
unfoldable pub pattern_of : CString → CString
pattern_of key = take 63 (b'"' ∷ (key ++ (b'"' ∷ b':' ∷ [])))

-- `jfind`
unfoldable pub jfind : CString → CString → Option CString
unfolding pattern_of strstr trim_start
jfind buf key = elim (strstr buf (pattern_of key)) [
  | none ↦ none
  | some p ↦ some (trim_start (drop (length (pattern_of key)) p))
]

-- `jint`
unfoldable pub jint : CString → CString → ℤ → ℤ
unfolding jfind
jint buf key def = elim (jfind buf key) [ none ↦ def | some p ↦ strtoll p ]

-- `jbool`
unfoldable pub is_truth : CString → Bool
is_truth [] = false
is_truth (c ∷ p) = c == b't' || c == b'1' || c == b'T' || c == b'y'

unfoldable pub jbool : CString → CString → Bool → Bool
unfolding jfind is_truth
jbool buf key def = elim (jfind buf key) [ none ↦ def | some p ↦ is_truth p ]

-- `while (*p == ' ' || *p == ',') p++`
unfoldable pub skip_commas : CString → CString
skip_commas [] = []
skip_commas (c ∷ s) = let rest = skip_commas s in if c == b' ' || c == b',' then rest else c ∷ s

-- The loop of `jintarr`, with so many cells left; `end == p` where there is no number.
unfoldable pub ints_from : ℕ → CString → List ℤ
unfolding skip_commas trim_start
ints_from zero p = []
ints_from (suc n) p =
    let q = trim_start p in
    let more : List ℤ = elim (behind_number (skip_spaces q)) [
      | none ↦ []
      | some rest ↦ strtoll q ∷ ints_from n (skip_commas rest)
    ] in
    if starts_with q (b']' ∷ []) then [] else more

-- `jintarr`
unfoldable pub jintarr : CString → CString → ℕ → List ℤ
unfolding jfind ints_from
jintarr buf key maxn = elim (jfind buf key) [
  | none ↦ []
  | some p ↦ elim p [ [] ↦ [] | c ∷ q ↦ if c == b'[' then ints_from maxn q else [] ]
]
