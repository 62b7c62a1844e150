-- ===== src/Tests/Versions.antt =====
-- The theorems about configuration versions at concrete inputs.
use wireless_tsn_configurato.Base.{
  ℕ, ◌≡◌, ◌≤◌, ◌*◌, refl, true, none, some, [], ◌∷◌, arith, length, replicate,
}
use wireless_tsn_configurato.Base.Int.{pos, negsuc}
use wireless_tsn_configurato.Base.Text.{CString, codes, str_eq}
use wireless_tsn_configurato.Common.StrUtil.{starts_with}
use wireless_tsn_configurato.Db.Engine.{text, int, Sqlite, attempt}
use wireless_tsn_configurato.ConfigVersion.{qos_token}
use wireless_tsn_configurato.ConfigVersion.Restore.{restore_token}
use wireless_tsn_configurato.ConfigVersion.Statements.{qos_sql}
use wireless_tsn_configurato.ConfigVersion.Rows.{IsId, restore_token-qos_token}
use wireless_tsn_configurato.ConfigVersion.Diff.{listed, emit, show_missing, compared}
use wireless_tsn_configurato.ConfigVersion.Diff.InBounds.{compared-in_bounds}
use wireless_tsn_configurato.Tests.World.{Store, empty_store, engine}

stm-IsId : IsId (codes "stm")
unfolding starts_with
stm-IsId = record {
  named = refl;
  short = omega arith;
  no_colon = ((λ e. omega (arith, e)), ((λ e. omega (arith, e)), ((λ e. omega (arith, e)), tt)));
  no_key = refl;
}

restore_token-qos_token_example :
    restore_token engine [] empty_store
      (qos_token (codes "stm") (pos 6) (pos 1000) (negsuc 0) (pos 1))
    ≡ attempt engine empty_store qos_sql (
        text (codes "stm")
        ∷ int (pos 6)
        ∷ int (pos 6)
        ∷ int (pos 1000)
        ∷ int (negsuc 0)
        ∷ int (pos 1)
        ∷ [])
restore_token-qos_token_example =
    restore_token-qos_token engine [] empty_store (codes "stm") (pos 6) (pos 1000) (negsuc 0)
      (pos 1) stm-IsId (omega arith, omega arith) (omega arith, omega arith)
      (omega arith, omega arith) (omega arith, omega arith)

-- An engine whose every select gives one row.
abbrev roster : Sqlite Store
roster = record engine {
  prepares = λ h s. true;
  rows = λ h s vs. (text (codes "lab") ∷ int (pos 5) ∷ int (pos 10) ∷ int (pos 1) ∷ []) ∷ [];
}

compared-in_bounds_example :
    (t : CString) × (n : ℕ) × (compared 100 (codes "vlan:a:1" ∷ []) (codes "vlan:a:2" ∷ [])
      ≡ some (t, n))
    × (length t ≤ 22 * n)
compared-in_bounds_example =
    compared-in_bounds 100 (codes "vlan:a:1" ∷ []) (codes "vlan:a:2" ∷ []) (omega arith, tt)
      (omega arith, tt)

-- Two rows of 70 bytes in a buffer of 66: the second is written outside of it.
wide_rows_overrun : compared 66 (replicate 70 1 ∷ []) (replicate 70 2 ∷ []) ≡ none
unfolding compared show_missing listed emit str_eq
wide_rows_overrun = refl
