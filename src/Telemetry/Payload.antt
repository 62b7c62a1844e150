-- ===== src/Telemetry/Payload.antt =====
-- The parser of payloads in src/telemetry/htsn_telemetry.c: it ends, and what it never reads.
use wireless_tsn_configurato.Base.{
  ℕ, zero, suc, ◌-◌, ◌≤◌, ◌<◌, ◌≡◌, ◌∙◌, refl, Option, none, some, [], ◌∷◌, ◌>>=◌, arith,
  Bool-cases, inl, inr, Option-cases, if◌then◌else◌, length, true,
}
use wireless_tsn_configurato.Base.Int.{pos}
use wireless_tsn_configurato.Base.Text.{CString, codes, str_eq, str_eq_sound}
use wireless_tsn_configurato.Common.{max_str}
use wireless_tsn_configurato.Common.StrUtil.{copied, starts_with}
use wireless_tsn_configurato.Common.StrUtil.Copy.{length-copied}
use wireless_tsn_configurato.Decimal.Scan.{strtoll, atoi}
use wireless_tsn_configurato.Telemetry.{
  heartbeat, sync_report, Parsed, unread, behind, skip_blanks, take_id, field, is_mark, scan,
  parse_payload,
}

length-behind : (c : ℕ) (s r : CString) → behind c s ≡ some r → length r < length s
unfolding behind
length-behind c [] r e = cc
length-behind c (d ∷ s) r e = ground (arith, length-behind c s r)

length-skip_blanks : (s : CString) → length (skip_blanks s) ≤ length s
unfolding skip_blanks
length-skip_blanks [] = omega arith
length-skip_blanks (c ∷ s) = ground (arith, length-skip_blanks s)

length-take_id : (cap : ℕ) (s : CString) → length (take_id cap s).1 ≤ length s
unfolding take_id
length-take_id zero s = omega arith
length-take_id (suc cap) [] = omega arith
length-take_id (suc cap) (c ∷ s) = ground (arith, length-take_id cap s)

-- A field leaves no more to read than there was, and the jitter as it was.
abbrev Kept : CString → Parsed → Option (CString × Parsed) → Type 0
Kept p st none = Unit
Kept p st (some (q, st')) = (length q ≤ length p) × (st'.jitter_ns ≡ st.jitter_ns)

value-Kept :
    (p : CString) (st : Parsed) (f : CString → CString × Parsed)
    → ((v : CString) → Kept v st (some (f v)))
    → Kept p st (behind b':' p >>= (λ v. some (f v)))
value-Kept p st f h = elim (Option-cases (behind b':' p)) [
  | inl e ↦ rw e tt
  | inr (v, e) ↦ rw e (omega (arith, h v, length-behind b':' p v e), (h v).1)
]

no_colon : (p : CString) → str_eq p (codes "jitter_ns") ≡ true → behind b':' p ≡ none
unfolding behind
no_colon p h = rw (str_eq_sound p (codes "jitter_ns") h) refl

-- The keys behind the jitter.
abbrev other_field : CString → Parsed → Option (CString × Parsed)
other_field p st =
    if starts_with p (codes "loss")
    then behind b':' p >>= (λ v. some (v, record st { loss = atoi v }))
    else if starts_with p (codes "heartbeat")
    then some (p, record st { kind = heartbeat })
    else if starts_with p (codes "id")
    then behind b':' p >>= (λ v.
      let (id, rest) = take_id (max_str - 1) (skip_blanks v) in some (rest, record st { id = id }))
    else some (p, st)

other-Kept : (p : CString) (st : Parsed) → Kept p st (other_field p st)
other-Kept p st = elim (Bool-cases (starts_with p (codes "loss"))) [
  | inl h ↦
      rw h (value-Kept p st (λ v. (v, record st { loss = atoi v })) (λ v. (omega arith, refl)))
  | inr h ↦ rw h (elim (Bool-cases (starts_with p (codes "heartbeat"))) [
    | inl k ↦ rw k (omega arith, refl)
    | inr k ↦ rw k (elim (Bool-cases (starts_with p (codes "id"))) [
      | inl i ↦ rw i (
          value-Kept p st
            (λ v.
              let (id, rest) = take_id (max_str - 1) (skip_blanks v) in
              (rest, record st { id = id }))
            (λ v. (
              omega (arith, length-take_id (max_str - 1) (skip_blanks v), length-skip_blanks v),
              refl,
            )))
      | inr i ↦ rw i (omega arith, refl)
    ])
  ])
]

field-Kept : (p : CString) (st : Parsed) → Kept p st (field p st)
unfolding field
field-Kept p st = elim (Bool-cases (starts_with p (codes "offset_ns"))) [
  | inl h ↦ rw h (
      value-Kept p st (λ v. (v, record st { offset_ns = strtoll v; kind = sync_report }))
        (λ v. (omega arith, refl)))
  | inr h ↦ rw h (elim (Bool-cases (str_eq p (codes "jitter_ns"))) [
    | inl k ↦ rw k (rw (no_colon p k) tt)
    | inr k ↦ rw k (other-Kept p st)
  ])
]

-- The loop ends, and the jitter is what it was.
abbrev Ends : Parsed → Option Parsed → Type 0
Ends st o = (r : Parsed) × (o ≡ some r) × (r.jitter_ns ≡ st.jitter_ns)

-- What the loop does behind a field.
resume-Ends :
    (fuel : ℕ) (p : CString) (st : Parsed) (o : Option (CString × Parsed))
    → ((q : CString) (st' : Parsed) → length q ≤ fuel → Ends st' (scan fuel q st'))
    → Kept p st o
    → length p ≤ suc fuel
    → Ends st (elim o [
      | none ↦ some st
      | some (q, st') ↦ elim (behind b',' q) [ none ↦ some st' | some r ↦ scan fuel r st' ]
    ])
resume-Ends fuel p st none ih k h = (st, refl, refl)
resume-Ends fuel p st (some (q, st')) ih k h = elim (Option-cases (behind b',' q)) [
  | inl e ↦ rw e (st', refl, k.1)
  | inr (r, e) ↦
      let (out, f, same) = ih r st' (omega (arith, k.0, length-behind b',' q r e)) in
      rw e (out, f, same ∙ k.1)
]

scan-Ends : (fuel : ℕ) (p : CString) (st : Parsed) → length p ≤ fuel → Ends st (scan fuel p st)
unfolding scan
scan-Ends zero [] st h = (st, refl, refl)
scan-Ends (suc fuel) [] st h = (st, refl, refl)
scan-Ends zero (c ∷ p) st h = absurd (omega arith)
scan-Ends (suc fuel) (c ∷ p) st h = elim (Bool-cases (is_mark c)) [
  | inl mark ↦ rw mark (scan-Ends fuel p st (omega arith))
  | inr key ↦ rw key (
      resume-Ends fuel (c ∷ p) st (field (c ∷ p) st) (scan-Ends fuel) (field-Kept (c ∷ p) st)
        (omega arith))
]

-- The parser ends on every payload, within the fuel that its buffer of 512 bytes gives; and the
-- jitter that it reports is 0, whatever the payload says.
pub parse_payload_lem :
    (payload : CString) → (r : Parsed) × (parse_payload payload ≡ some r) × (r.jitter_ns ≡ pos 0)
unfolding parse_payload
parse_payload_lem payload =
    scan-Ends 512 (copied 512 payload) unread
      (omega (arith, length-copied 512 payload (omega arith)))
