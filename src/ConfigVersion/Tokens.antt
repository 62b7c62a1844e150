-- ===== src/ConfigVersion/Tokens.antt =====
-- The payload of src/config_version/config_version_manager.c as a list of tokens.
use mathlib.Core.List.{append_assoc, append-nil}
use wireless_tsn_configurato.Base.{
  ◌+◌, ◌-◌, ◌<◌, ◌≡◌, ◌≢◌, ◌∙◌, refl, sym, ap, false, List, [], ◌∷◌, ◌++◌, map, arith, ◌==◌, length,
  length-append, take, take_of_le, length-take, min, All,
}
use wireless_tsn_configurato.Base.Text.{CString, is_empty}
use wireless_tsn_configurato.Common.StrUtil.{copied}
use wireless_tsn_configurato.Common.StrUtil.Copy.{copied_of_lt}
use wireless_tsn_configurato.Db.Versions.{payload_size}
use wireless_tsn_configurato.ConfigVersion.{payload_max, append_field, append_fields, spaced}
use wireless_tsn_configurato.ConfigVersion.Restore.{split, cons_token, tokens}

abbrev pub joined : List CString → CString
joined [] = []
joined (s ∷ ss) = s ++ joined ss

-- What fits the buffer is appended whole.
append_fields-joined :
    (buf : CString) (ss : List CString)
    → length buf + length (joined ss) < payload_max
    → append_fields buf ss ≡ buf ++ joined ss
unfolding append_fields append_field
append_fields-joined buf [] h = sym (append-nil buf)
append_fields-joined buf (s ∷ ss) h =
    let whole : take (payload_max - length buf - 1) s ≡ s =
      take_of_le (payload_max - length buf - 1) s (omega (arith, length-append s (joined ss))) in
    rw whole (
      append_fields-joined (buf ++ s) ss
        (omega (arith, length-append s (joined ss), length-append buf s))
      ∙ append_assoc buf s (joined ss))

-- A token: not empty, and without a space.
abbrev pub IsToken : CString → Type 0
IsToken t = (is_empty t ≡ false) × All (λ c. c ≢ b' ') t

split-append :
    (t rest : CString) → All (λ c. c ≢ b' ') t → split (t ++ (b' ' ∷ rest)) ≡ (t, tokens rest)
unfolding split tokens
split-append [] rest h = refl
split-append (c ∷ t) rest h =
    let stays : (c == b' ') ≡ false = ground arith in rw (split-append t rest h.1) (rw stays refl)

cons_token_lem : (t : CString) (ts : List CString) → is_empty t ≡ false → cons_token t ts ≡ t ∷ ts
cons_token_lem [] ts h = cc
cons_token_lem (c ∷ t) ts h = refl

tokens-spaced : (t rest : CString) → IsToken t → tokens (spaced t ++ rest) ≡ t ∷ tokens rest
unfolding tokens
tokens-spaced t rest h =
    ap tokens (append_assoc t (b' ' ∷ []) rest)
    ∙ (ap (λ p. cons_token p.0 p.1) (split-append t rest h.1) ∙ cons_token_lem t (tokens rest) h.0)

tokens-joined : (ts : List CString) → All IsToken ts → tokens (joined (map spaced ts)) ≡ ts
unfolding tokens split
tokens-joined [] h = refl
tokens-joined (t ∷ ts) h =
    tokens-spaced t (joined (map spaced ts)) h.0 ∙ ap (λ us. t ∷ us) (tokens-joined ts h.1)

tokens-append_fields :
    (ts : List CString)
    → All IsToken ts
    → length (joined (map spaced ts)) < payload_size
    → tokens (copied payload_size (append_fields [] (map spaced ts))) ≡ ts
tokens-append_fields ts h fits =
    ap (λ s. tokens (copied payload_size s)) (append_fields-joined [] (map spaced ts) (omega arith))
    ∙ (ap tokens (copied_of_lt payload_size (joined (map spaced ts)) fits) ∙ tokens-joined ts h)

-- What does not fit the buffer fills it.
length-append_fields :
    (buf : CString) (ss : List CString)
    → length buf < payload_max
    → length (append_fields buf ss) ≡ min (payload_max - 1) (length buf + length (joined ss))
unfolding append_fields append_field
length-append_fields buf [] h = omega arith
length-append_fields buf (s ∷ ss) h =
    let kept = take (payload_max - length buf - 1) s in
    let grown = length-append buf kept in
    let size = length-take (payload_max - length buf - 1) s in
    omega (
      arith,
      grown,
      size,
      length-append s (joined ss),
      length-append_fields (buf ++ kept) ss (omega (arith, grown, size)),
    )

-- Tokens whose snapshot is short are read back.
pub tokens_read_back :
    (ts : List CString)
    → All IsToken ts
    → length (append_fields [] (map spaced ts)) < payload_size
    → tokens (copied payload_size (append_fields [] (map spaced ts))) ≡ ts
tokens_read_back ts h short =
    tokens-append_fields ts h
      (omega (arith, length-append_fields [] (map spaced ts) (omega arith), short))
