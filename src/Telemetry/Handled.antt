-- ===== src/Telemetry/Handled.antt =====
-- Which messages the handler of src/telemetry/htsn_telemetry.c acts upon, and for which device.
use mathlib.Core.List.{append_assoc}
use wireless_tsn_configurato.Base.{
  ℕ, zero, suc, ◌-◌, ◌≤◌, ◌<◌, ◌≡◌, ◌≢◌, ◌∙◌, refl, ap, sym, Option, none, some, [], ◌∷◌, ◌++◌,
  arith, ◌==◌, length, length-append, false, ◌||◌, All, All-append,
}
use wireless_tsn_configurato.Base.Int.{ℤ}
use wireless_tsn_configurato.Base.Text.{CString, codes, str_eq}
use wireless_tsn_configurato.Common.{max_str}
use wireless_tsn_configurato.Common.StrUtil.{starts_with}
use wireless_tsn_configurato.Common.StrUtil.Copy.{copied_of_lt}
use wireless_tsn_configurato.Db.Engine.{Sqlite}
use wireless_tsn_configurato.Telemetry.{
  Parsed, is_mark, unread, behind, skip_blanks, take_id, field, scan, parse_payload, Telemetry,
  on_message,
}

module _ {H C U : Type 0} (sql : Sqlite H) where
  -- A message on "tsn/status/" with anything behind it, a device's id say, is not acted upon:
  -- nothing is recorded or published.
  pub on_message-suffix :
      (now : ℤ) (t : Telemetry H C U) (c : ℕ) (s payload : CString)
      → on_message sql now t (some (codes "tsn/status/" ++ (c ∷ s))) payload
        ≡ some (t, record { status = []; device = [] })
  unfolding on_message str_eq
  on_message-suffix now t c s payload = refl

abbrev NoEnd : ℕ → Type 0
NoEnd c = (c ≢ b',') × (c ≢ b'}')

-- A quote, and the payload of an object whose one key is an id.
abbrev pub quote : CString
quote = b'"' ∷ []

abbrev pub id_payload : CString → CString
id_payload name =
    b'{' ∷ b'"' ∷ b'i' ∷ b'd' ∷ b'"' ∷ b':' ∷ (quote ++ (name ++ (quote ++ codes "}")))

take_id-append :
    (cap : ℕ) (s : CString)
    → All NoEnd s
    → length s ≤ cap
    → take_id cap (s ++ codes "}") ≡ (s, codes "}")
unfolding take_id
take_id-append zero [] n h = refl
take_id-append (suc cap) [] n h = refl
take_id-append zero (c ∷ s) n h = absurd (omega arith)
take_id-append (suc cap) (c ∷ s) n h =
    let stays : ((c == b',') || (c == b'}')) ≡ false = ground arith in
    rw (take_id-append cap s n.1 (omega arith)) (rw stays)

-- A key behind whose value no comma follows is the last.
scan-last :
    (fuel c : ℕ) (p q : CString) (st st' : Parsed)
    → is_mark c ≡ false
    → field (c ∷ p) st ≡ some (q, st')
    → behind b',' q ≡ none
    → scan (suc fuel) (c ∷ p) st ≡ some st'
unfolding scan
scan-last fuel c p q st st' key f last = rw key (rw f (rw last refl))

field-id :
    (w : CString)
    → All NoEnd w
    → length w ≤ 254
    → field (b'i' ∷ b'd' ∷ b'"' ∷ b':' ∷ ((b'"' ∷ w) ++ codes "}")) unread
      ≡ some (codes "}", record unread { id = b'"' ∷ w })
unfolding field behind skip_blanks starts_with str_eq take_id
field-id w plain short =
    let read : CString × CString → Option (CString × Parsed) =
      λ x. some (x.1, record unread { id = b'"' ∷ x.0 }) in
    ap read (take_id-append (max_str - 2) w plain short)

-- What the loop makes of a quoted id.
scan-id :
    (w : CString)
    → All NoEnd w
    → length w ≤ 254
    → scan 512 (b'{' ∷ b'"' ∷ b'i' ∷ b'd' ∷ b'"' ∷ b':' ∷ ((b'"' ∷ w) ++ codes "}")) unread
      ≡ some (record unread { id = b'"' ∷ w })
unfolding scan behind
scan-id w plain short =
    scan-last 509 b'i' (b'd' ∷ b'"' ∷ b':' ∷ ((b'"' ∷ w) ++ codes "}")) (codes "}") unread
      (record unread { id = b'"' ∷ w }) refl (field-id w plain short) refl

-- The id of a JSON object is read with its quotes: for a name of at most 253 bytes without a comma
-- or a closing brace, {"id":"name"} reports on the device "name", quotes included.
pub parse_payload-id_payload :
    (name : CString)
    → All NoEnd name
    → length name ≤ 253
    → parse_payload (id_payload name) ≡ some (record unread { id = quote ++ (name ++ quote) })
unfolding parse_payload
parse_payload-id_payload name plain short =
    let w = name ++ quote in
    let whole : id_payload name
        ≡ b'{' ∷ b'"' ∷ b'i' ∷ b'd' ∷ b'"' ∷ b':' ∷ ((b'"' ∷ w) ++ codes "}") =
      ap (λ s. b'{' ∷ b'"' ∷ b'i' ∷ b'd' ∷ b'"' ∷ b':' ∷ b'"' ∷ s)
        (sym (append_assoc name quote (codes "}"))) in
    let size : length (id_payload name) < 512 =
      omega (arith, length-append name (quote ++ codes "}")) in
    ap (λ s. scan 512 s unread) (copied_of_lt 512 (id_payload name) size ∙ whole)
    ∙ scan-id w
        (All-append NoEnd name quote plain (((λ e. omega (arith, e)), (λ e. omega (arith, e))), tt))
        (omega (arith, length-append name quote))
