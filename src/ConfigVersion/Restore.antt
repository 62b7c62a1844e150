-- ===== src/ConfigVersion/Restore.antt =====
-- src/config_version/config_version_manager.c: restoring the tables from a payload.
use wireless_tsn_configurato.Base.{
  ℕ, get_or, Bool, ◌&&◌, not, List, [], ◌∷◌, String, ◌==◌, leb, if◌then◌else◌, length,
}
use wireless_tsn_configurato.Base.Int.{ℤ, pos, ltb_ℤ}
use wireless_tsn_configurato.Base.Text.{CString, codes, is_empty}
use wireless_tsn_configurato.Common.{Error, ok, no_memory}
use wireless_tsn_configurato.Common.StrUtil.{copied, starts_with}
use wireless_tsn_configurato.Scanf.{lit, field, int, Got, got_text, got_int, sscanf}
use wireless_tsn_configurato.Db.Engine.{Value, text, Sqlite, attempt}
use wireless_tsn_configurato.Db.Engine as engine
use wireless_tsn_configurato.ConfigVersion.{payload_max}
use wireless_tsn_configurato.ConfigVersion.Statements.{
  qos_sql, vlan_sql, member_sql, stream_sql, stream_member_sql, tas_sql, gcl_sql, device_clears,
  all_clears, bare_qos_format, qos_format, stream_format, tas_format, gcl_format,
}

-- `strtok_r(buf, " ", …)`: the text before the first space, and the tokens behind it.
abbrev pub cons_token : CString → List CString → List CString
cons_token [] ts = ts
cons_token (c ∷ w) ts = (c ∷ w) ∷ ts

unfoldable pub split : CString → CString × List CString
split [] = ([], [])
split (c ∷ s) = let (w, ts) = split s in if c == b' ' then ([], cons_token w ts) else (c ∷ w, ts)

unfoldable pub tokens : CString → List CString
unfolding split
tokens s = let (w, ts) = split s in cons_token w ts

-- What a variable holds that the `i`-th conversion writes: its first value, where that is not
-- reached.
abbrev pub int_of : Got → ℤ
int_of (got_int n) = n
int_of (got_text s) = pos 0

abbrev pub text_of : Got → CString
text_of (got_text s) = s
text_of (got_int n) = []

abbrev pub int_at : List Got → ℕ → ℤ
int_at gs i = int_of (get_or gs i (got_int (pos 0)))

abbrev pub text_at : List Got → ℕ → CString
text_at gs i = text_of (get_or gs i (got_text []))

-- The rows that the branches of the loop bind.
unfoldable pub qos_row : CString → ℤ → ℤ → ℤ → ℤ → List Value
qos_row dev p bw lat pre =
    text dev ∷ engine.int p ∷ engine.int p ∷ engine.int bw ∷ engine.int lat ∷ engine.int pre ∷ []

unfoldable pub stream_row : List Got → List Value
stream_row g =
    text (text_at g 0)
    ∷ text (text_at g 0)
    ∷ text (text_at g 1)
    ∷ engine.int (int_at g 2)
    ∷ engine.int (int_at g 4)
    ∷ engine.int (int_at g 5)
    ∷ engine.int (int_at g 3)
    ∷ engine.int (int_at g 3)
    ∷ engine.int (int_at g 6)
    ∷ []

abbrev pub qos_device : CString → CString
qos_device device_id = if is_empty device_id then codes "default" else device_id

module _ {H : Type 0} (sql : Sqlite H) where
  -- One branch of the loop: the statement, where the token has as many conversions as it must.
  abbrev insert_if : Bool → H → String → List Value → H
  insert_if b h statement values = if b then attempt sql h statement values else h

  -- The body of the loop of `restore_payload` at a token.
  unfoldable pub restore_token : CString → H → CString → H
  unfolding qos_row stream_row
  restore_token device_id h tok =
      if starts_with tok (codes "qos:p=")
      then (let g = sscanf bare_qos_format tok in
          insert_if (leb 1 (length g)) h qos_sql
            (qos_row (qos_device device_id) (int_at g 0) (int_at g 1) (int_at g 2) (int_at g 3)))
      else if starts_with tok (codes "qos:")
      then (let g = sscanf qos_format tok in
          insert_if (length g == 5) h qos_sql
            (qos_row (text_at g 0) (int_at g 1) (int_at g 2) (int_at g 3) (int_at g 4)))
      else if starts_with tok (codes "vlan:")
      then (let g = sscanf (lit (codes "vlan:") ∷ field ∷ lit (codes ":") ∷ int ∷ []) tok in
          insert_if (length g == 2 && (not (is_empty (text_at g 0)) && ltb_ℤ (pos 0) (int_at g 1)))
            h vlan_sql (text (text_at g 0) ∷ text (text_at g 0) ∷ engine.int (int_at g 1) ∷ []))
      else if starts_with tok (codes "vmem:")
      then (let g = sscanf (lit (codes "vmem:") ∷ field ∷ lit (codes ":") ∷ field ∷ []) tok in
          insert_if (length g == 2) h member_sql (text (text_at g 0) ∷ text (text_at g 1) ∷ []))
      else if starts_with tok (codes "stream:")
      then (let g = sscanf stream_format tok in
          insert_if (leb 4 (length g)) h stream_sql (stream_row g))
      else if starts_with tok (codes "streammem:")
      then (let g = sscanf (lit (codes "streammem:") ∷ field ∷ lit (codes ":") ∷ field ∷ []) tok in
          insert_if (length g == 2) h stream_member_sql
            (text (text_at g 0) ∷ text (codes "listener") ∷ text (text_at g 1) ∷ []))
      else if starts_with tok (codes "tas:")
      then (let g = sscanf tas_format tok in
          insert_if (leb 2 (length g)) h tas_sql (
            text (text_at g 0)
            ∷ text (text_at g 0)
            ∷ engine.int (int_at g 1)
            ∷ text (text_at g 2)
            ∷ []))
      else if starts_with tok (codes "gcl:")
      then (let g = sscanf gcl_format tok in
          insert_if (length g == 4) h gcl_sql (
            text (text_at g 0)
            ∷ engine.int (int_at g 1)
            ∷ engine.int (int_at g 2)
            ∷ engine.int (int_at g 3)
            ∷ []))
      else h

  unfoldable pub restore_tokens : CString → H → List CString → H
  unfolding restore_token
  restore_tokens device_id h [] = h
  restore_tokens device_id h (t ∷ ts) = restore_tokens device_id (restore_token device_id h t) ts

  unfoldable pub clear_each : H → List String → List Value → H
  clear_each h [] values = h
  clear_each h (s ∷ ss) values = clear_each (attempt sql h s values) ss values

  -- The clearing at the start of `restore_payload`.
  unfoldable pub clear_tables : H → CString → H
  unfolding clear_each
  clear_tables h device_id =
      if is_empty device_id
      then clear_each h all_clears []
      else clear_each h device_clears (text device_id ∷ [])

  -- `restore_payload`; `heap` says whether `malloc` gives the buffer.
  unfoldable pub restore_payload : Bool → H → CString → CString → Error × H
  unfolding restore_tokens clear_tables tokens
  restore_payload heap h payload device_id =
      let cleared = clear_tables h device_id in
      if heap
      then (ok, restore_tokens device_id cleared (tokens (copied payload_max payload)))
      else (no_memory, cleared)
