-- ===== src/ConfigVersion/Rows.antt =====
-- The rows of src/config_version/config_version_manager.c as a snapshot writes them and as restoring
-- reads them.
use mathlib.Core.List.{append-nil}
use wireless_tsn_configurato.Base.{
  ℕ, ◌≤◌, ◌≡◌, ◌≢◌, ◌∙◌, refl, sym, ap, true, false, List, [], ◌∷◌, ◌++◌, arith, length, All,
}
use wireless_tsn_configurato.Base.Int.{ℤ}
use wireless_tsn_configurato.Base.Text.{CString, codes, is_empty}
use wireless_tsn_configurato.Common.StrUtil.{starts_with}
use wireless_tsn_configurato.Decimal.{show_ℤ}
use wireless_tsn_configurato.Scanf.{Item, lit, int, got_text, got_int, starts_with_digit, sscanf}
use wireless_tsn_configurato.Scanf.Printed.{IsInt32, sscanf-lit, sscanf-int, sscanf-field}
use wireless_tsn_configurato.Db.Engine.{Sqlite, text, attempt}
use wireless_tsn_configurato.Db.Engine as engine
use wireless_tsn_configurato.ConfigVersion.{qos_token}
use wireless_tsn_configurato.ConfigVersion.Statements.{qos_format, qos_sql}
use wireless_tsn_configurato.ConfigVersion.Restore.{qos_row, restore_token}

-- A number behind a literal text, with more of the format and of the token to come.
int_item :
    (l : CString) (n : ℤ) (items : List Item) (c : ℕ) (rest : CString)
    → IsInt32 n
    → starts_with_digit (c ∷ rest) ≡ false
    → sscanf (lit l ∷ int ∷ items) (l ++ (show_ℤ n ++ (c ∷ rest)))
      ≡ got_int n ∷ sscanf items (c ∷ rest)
int_item l n items c rest h ends =
    sscanf-lit (int ∷ items) (show_ℤ n ++ (c ∷ rest)) l ∙ sscanf-int items (c ∷ rest) n h ends

last_int :
    (l : CString) (n : ℤ) → IsInt32 n → sscanf (lit l ∷ int ∷ []) (l ++ show_ℤ n) ≡ got_int n ∷ []
unfolding sscanf
last_int l n h =
    ap (λ s. sscanf (lit l ∷ int ∷ []) (l ++ s)) (sym (append-nil (show_ℤ n)))
    ∙ (sscanf-lit (int ∷ []) (show_ℤ n ++ []) l ∙ sscanf-int [] [] n h refl)

-- The ids that a token can carry.
pub record IsId (id : CString) : Type 0 where
  pub named : is_empty id ≡ false
  pub short : length id ≤ 255
  pub no_colon : All (λ c. c ≢ b':') id
  pub no_key : starts_with id (codes "p=") ≡ false

-- What is read of the token of a device's QoS parameters is what was printed.
pub sscanf-qos_token :
    (id : CString) (p bw lat pre : ℤ)
    → IsId id
    → IsInt32 p
    → IsInt32 bw
    → IsInt32 lat
    → IsInt32 pre
    → sscanf qos_format (qos_token id p bw lat pre)
      ≡ got_text id ∷ got_int p ∷ got_int bw ∷ got_int lat ∷ got_int pre ∷ []
unfolding qos_format qos_token
sscanf-qos_token [] p bw lat pre i hp hbw hlat hpre = absurd (empty_named i.named)
  where
    empty_named : true ≡ false → ⊥
    empty_named e = cc
sscanf-qos_token (c ∷ w) p bw lat pre i hp hbw hlat hpre =
    sscanf-lit _ _ (codes "qos:")
    ∙ (sscanf-field _ _ c w i.no_colon i.short
        ∙ ap (λ gs. got_text (c ∷ w) ∷ gs)
            (int_item (codes ":p=") p _ _ _ hp refl
              ∙ ap (λ gs. got_int p ∷ gs)
                  (int_item (codes ":bw=") bw _ _ _ hbw refl
                    ∙ ap (λ gs. got_int bw ∷ gs)
                        (int_item (codes ":lat=") lat _ _ _ hlat refl
                          ∙ ap (λ gs. got_int lat ∷ gs) (last_int (codes ":pre=") pre hpre)))))

key_free :
    (id rest : CString)
    → is_empty id ≡ false
    → starts_with id (codes "p=") ≡ false
    → starts_with (id ++ (b':' ∷ rest)) (codes "p=") ≡ false
unfolding starts_with
key_free [] rest n h = cc
key_free (c ∷ []) rest n h = ground arith
key_free (c ∷ d ∷ t) rest n h = h

-- The token is not one without a device.
bare :
    (id : CString) (p bw lat pre : ℤ)
    → IsId id
    → starts_with (qos_token id p bw lat pre) (codes "qos:p=") ≡ false
unfolding qos_token starts_with
bare id p bw lat pre i = key_free id _ i.named i.no_key

tag :
    (id : CString) (p bw lat pre : ℤ)
    → starts_with (qos_token id p bw lat pre) (codes "qos:") ≡ true
unfolding qos_token starts_with
tag id p bw lat pre = refl

module _ {H : Type 0} (sql : Sqlite H) (device_id : CString) (h : H) where
  qos_branch :
      (tok : CString) (id : CString) (p bw lat pre : ℤ)
      → starts_with tok (codes "qos:p=") ≡ false
      → starts_with tok (codes "qos:") ≡ true
      → sscanf qos_format tok
        ≡ got_text id ∷ got_int p ∷ got_int bw ∷ got_int lat ∷ got_int pre ∷ []
      → restore_token sql device_id h tok ≡ attempt sql h qos_sql (qos_row id p bw lat pre)
  unfolding restore_token
  qos_branch tok id p bw lat pre bare tag read = rw (bare, restore_token) (rw tag (rw read refl))

  -- For an id that is not empty, fits 255 bytes, has no colon and does not begin with "p=", and for
  -- parameters of 32 bits: restoring the token that a snapshot writes for QoS parameters saves these
  -- parameters for the device, but with the priority in place of the traffic class too.
  pub restore_token-qos_token :
      (id : CString) (p bw lat pre : ℤ)
      → IsId id
      → IsInt32 p
      → IsInt32 bw
      → IsInt32 lat
      → IsInt32 pre
      → restore_token sql device_id h (qos_token id p bw lat pre)
        ≡ attempt sql h qos_sql (
            text id
            ∷ engine.int p
            ∷ engine.int p
            ∷ engine.int bw
            ∷ engine.int lat
            ∷ engine.int pre
            ∷ [])
  unfolding qos_row
  restore_token-qos_token id p bw lat pre i hp hbw hlat hpre =
      qos_branch (qos_token id p bw lat pre) id p bw lat pre (bare id p bw lat pre i)
        (tag id p bw lat pre) (sscanf-qos_token id p bw lat pre i hp hbw hlat hpre)
