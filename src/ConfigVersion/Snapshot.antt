-- ===== src/ConfigVersion/Snapshot.antt =====
-- The snapshot of one device (serialize_device of src/config_version/config_version_manager.c) as the
-- database gives it back.
use wireless_tsn_configurato.Base.{
  ◌≡◌, ◌≢◌, Bool, false, ◌||◌, ◌==◌, List, [], ◌∷◌, ◌++◌, map, arith, All, All-append,
}
use wireless_tsn_configurato.Base.Text.{CString, codes}
use wireless_tsn_configurato.Db.Engine.{Value, text, Sqlite, text_column, int_column}
use wireless_tsn_configurato.ConfigVersion.{
  qos_token, pair_token, rows_of, device_qos_sql, device_groups_sql, device_streams_sql,
}

-- A text without a space.
abbrev pub NoSpace : CString → Type 0
NoSpace = All (λ c. c ≢ b' ')

has_space : CString → Bool
has_space [] = false
has_space (c ∷ s) = c == b' ' || has_space s

NoSpace_of : (s : CString) → has_space s ≡ false → NoSpace s
unfolding has_space
NoSpace_of [] h = tt
NoSpace_of (c ∷ s) h = ((λ e. ground (arith, e, h)), NoSpace_of s (ground (arith, h)))

-- Two texts without a space, the first a literal.
behind : (l s : CString) → has_space l ≡ false → NoSpace s → NoSpace (l ++ s)
behind l s h k = All-append (λ c. c ≢ b' ') l s (NoSpace_of l h) k

module _ {H : Type 0} (sql : Sqlite H) (h : H) (id : CString) where
  -- The QoS parameters of a device, the groups it is in and the streams it listens to.
  abbrev pub qos_tokens : List CString
  qos_tokens =
      map
        (λ row.
          qos_token id (int_column sql row 0) (int_column sql row 1) (int_column sql row 2)
            (int_column sql row 3))
        (rows_of sql h device_qos_sql (text id ∷ []))

  abbrev pub group_tokens : List CString
  group_tokens =
      map (λ row. pair_token (codes "vmem:") (text_column sql row 0) id)
        (rows_of sql h device_groups_sql (text id ∷ []))

  abbrev pub stream_tokens : List CString
  stream_tokens =
      map (λ row. pair_token (codes "streammem:") (text_column sql row 0) id)
        (rows_of sql h device_streams_sql (text id ∷ []))

  -- The first column of each row has no space.
  abbrev pub FirstNoSpace : List (List Value) → Type 0
  FirstNoSpace = All (λ row. NoSpace (text_column sql row 0))
