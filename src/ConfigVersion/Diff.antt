-- ===== src/ConfigVersion/Diff.antt =====
-- htsn_cfg_ver_diff of src/config_version/config_version_manager.c. The text that is built is none
-- once a row would be written outside of the buffer: then `out_size - off` has wrapped.
pub mod InBounds
use wireless_tsn_configurato.Base.{
  ℕ, suc, ◌-◌, ◌/◌, Bool, false, ◌||◌, Option, none, some, List, [], ◌∷◌, ◌++◌, ltb, if◌then◌else◌,
  length, take, ◌==◌,
}
use wireless_tsn_configurato.Base.Int.{ℤ}
use wireless_tsn_configurato.Base.Text.{CString, codes, str_eq}
use wireless_tsn_configurato.Common.{Error, ok, invalid_arg}
use wireless_tsn_configurato.Decimal.{show_ℤ}
use wireless_tsn_configurato.Db.Engine.{Sqlite}
use wireless_tsn_configurato.Db.Versions as db_versions
use wireless_tsn_configurato.ConfigVersion.Restore.{tokens}
use wireless_tsn_configurato.ConfigVersion.Manager.{Manager}

-- The rows of one version: at most 1024.
abbrev pub max_rows : ℕ
max_rows = 1024

-- Whether the inner loop finds the row.
unfoldable pub listed : CString → List CString → Bool
listed row [] = false
listed row (r ∷ rs) = str_eq row r || listed row rs

-- `snprintf(out + off, out_size - off, …)`, `off` the length of the text so far.
unfoldable pub emit : ℕ → CString → CString → Option CString
emit out_size text line = if ltb out_size (length text) then none else some (text ++ line)

-- One of the two loops: the text, and how many rows are shown.
unfoldable pub show_missing :
    ℕ → CString → ℕ → List CString → List CString → CString → ℕ → Option (CString × ℕ)
unfolding listed emit
show_missing out_size sign most [] others text shown = some (text, shown)
show_missing out_size sign most (r ∷ rs) others text shown =
    let skipped = show_missing out_size sign most rs others text shown in
    let line = sign ++ (r ++ (10 ∷ [])) in
    let written = show_missing out_size sign most rs others (text ++ line) (suc shown) in
    if ltb shown most
    then (if listed r others
        then skipped
        else elim (emit out_size text line) [ none ↦ none | some t ↦ written ])
    else some (text, shown)

-- The rows of a payload.
abbrev pub rows_of : CString → List CString
rows_of payload = take max_rows (tokens payload)

-- The text for two payloads that differ, before it is cut to the buffer.
unfoldable pub compared : ℕ → List CString → List CString → Option (CString × ℕ)
unfolding show_missing
compared out_size old new =
    let maxl = out_size / 22 in
    elim (show_missing out_size (codes "- ") (maxl / 2) old new [] 0) [
      | none ↦ none
      | some (text, shown) ↦ show_missing out_size (codes "+ ") maxl new old text shown
    ]

module _ {H : Type 0} (sql : Sqlite H) where
  -- The payload of a version; the structs are cleared first, so that of a missing one is empty.
  unfoldable pub payload_of : H → ℤ → CString
  payload_of h id = elim (db_versions.get sql h id).1 [ none ↦ [] | some v ↦ v.payload ]

  -- `htsn_cfg_ver_diff`: the result and what `out` holds, none if it is written out of bounds.
  unfoldable pub diff : {C U : Type 0} → Manager H C U → ℤ → ℤ → ℕ → Error × Option CString
  unfolding compared payload_of
  diff m id_a id_b out_size =
      let a = payload_of m.db id_a in
      let b = payload_of m.db id_b in
      let cut = take (out_size - 1) in
      if out_size == 0
      then (invalid_arg, some [])
      else if str_eq a b
      then (ok, some (cut (codes "no differences")))
      else elim (compared out_size (rows_of a) (rows_of b)) [
        | none ↦ (ok, none)
        | some ([], shown) ↦ (
          ok,
          some (
              cut (
                codes "versions differ (v"
                ++ (show_ℤ id_a ++ (codes " vs v" ++ (show_ℤ id_b ++ codes ")"))))),
        )
        | some (c ∷ t, shown) ↦ (ok, some (cut (c ∷ t)))
      ]
