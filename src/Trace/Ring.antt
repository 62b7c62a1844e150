-- ===== src/Trace/Ring.antt =====
-- The ring of src/trace/trace.c read backwards from its head.
use wireless_tsn_configurato.Base.{
  ℕ, zero, suc, ◌+◌, ◌-◌, ◌%◌, ◌≤◌, ◌<◌, ◌≡◌, ap, refl, some, List, [], ◌∷◌, arith, ltb,
  if◌then◌else◌, Bool-cases, ltb→lt, inl, inr, take_of_le, length, get_elem?, get_or, set, take,
  get_or-set_self, get_or-set_ne,
}
use wireless_tsn_configurato.Trace.{trace_max}

-- The slot before another.
abbrev pub before : ℕ → ℕ
before h = (h + trace_max - 1) % trace_max

module _ {A : Type 0} (d : A) where
  -- The `n` entries written before slot `h`, the newest first.
  abbrev pub newest : List A → ℕ → ℕ → List A
  newest slots h zero = []
  newest slots h (suc n) = get_or slots (before h) d ∷ newest slots (before h) n

  pub length-newest : (slots : List A) (h n : ℕ) → length (newest slots h n) ≡ n
  length-newest slots h zero = refl
  length-newest slots h (suc n) = ap suc (length-newest slots (before h) n)

  get_elem?_of_lt :
      (slots : List A) (i : ℕ) → i < length slots → get_elem? slots i ≡ some (get_or slots i d)
  get_elem?_of_lt [] i h = absurd (omega arith)
  get_elem?_of_lt (x ∷ xs) zero h = refl
  get_elem?_of_lt (x ∷ xs) (suc i) h = get_elem?_of_lt xs i (omega arith)

  before-before :
      (h i : ℕ)
      → h < trace_max
      → suc i < trace_max
      → (before h + trace_max - 1 - i) % trace_max ≡ (h + trace_max - 1 - suc i) % trace_max
  before-before h i p q = omega arith

  -- The index that `htsn_trace_entry_at` computes is the place in the list.
  pub get_elem?-newest :
      (slots : List A) (h n i : ℕ)
      → length slots ≡ trace_max
      → h < trace_max
      → n ≤ trace_max
      → i < n
      → get_elem? slots ((h + trace_max - 1 - i) % trace_max) ≡ get_elem? (newest slots h n) i
  get_elem?-newest slots h zero i e hh hn hi = absurd (omega arith)
  get_elem?-newest slots h (suc n) zero e hh hn hi =
      let start : (h + trace_max - 1 - 0) % trace_max ≡ before h = omega arith in
      rw start (get_elem?_of_lt slots (before h) (omega arith))
  get_elem?-newest slots h (suc n) (suc i) e hh hn hi =
      rw (← before-before h i hh (omega arith))
        (get_elem?-newest slots (before h) n i e (omega arith) (omega arith) (omega arith))

  -- Writing a slot leaves the entries alone that end before it.
  newest-set :
      (slots : List A) (x : A) (h j k n : ℕ)
      → h < trace_max
      → k + n < trace_max
      → j ≡ (h + trace_max - k) % trace_max
      → newest (set slots h x) j n ≡ newest slots j n
  newest-set slots x h j k zero hh hk e = refl
  newest-set slots x h j k (suc n) hh hk e = rw (
    get_or-set_ne slots h (before j) x d (omega arith),
    newest-set slots x h (before j) (suc k) n hh (omega arith) (omega arith),
  )

  -- A write at the head is the newest entry.
  pub newest-push :
      (slots : List A) (x : A) (h n : ℕ)
      → length slots ≡ trace_max
      → h < trace_max
      → n < trace_max
      → newest (set slots h x) ((h + 1) % trace_max) (suc n) ≡ x ∷ newest slots h n
  newest-push slots x h n e hh hn =
      let back : before ((h + 1) % trace_max) ≡ h = omega arith in
      rw (
        back,
        get_or-set_self slots h x d (omega arith),
        newest-set slots x h h 0 n hh (omega arith) (omega arith),
      )

  pub take-newest :
      (slots : List A) (h k n : ℕ) → k ≤ n → take k (newest slots h n) ≡ newest slots h k
  take-newest slots h zero n p = refl
  take-newest slots h (suc k) zero p = absurd (omega arith)
  take-newest slots h (suc k) (suc n) p =
      ap (λ es. get_or slots (before h) d ∷ es) (take-newest slots (before h) k n (omega arith))

  -- A write at the head, with the count that the ring then has; `k` is one less than its slots.
  pub newest-grown :
      (slots : List A) (x : A) (h k n : ℕ)
      → length slots ≡ trace_max
      → h < trace_max
      → suc k ≡ trace_max
      → n ≤ trace_max
      → newest (set slots h x) ((h + 1) % trace_max) (if ltb n trace_max then n + 1 else n)
        ≡ x ∷ take k (newest slots h n)
  newest-grown slots x h k n e hh hk hn = elim (Bool-cases (ltb n trace_max)) [
    | inl room ↦
        let more : n + 1 ≡ suc n = omega arith in
        let below : n < trace_max = ltb→lt n trace_max room in
        rw (
          room,
          more,
          take_of_le k (newest slots h n) (omega (arith, length-newest slots h n)),
          newest-push slots x h n e hh (omega arith),
        )
    | inr full ↦
        let whole : n ≡ suc k = ground arith in
        rw (
          full,
          whole,
          take-newest slots h k (suc k) (omega arith),
          newest-push slots x h k e hh (omega arith),
        )
  ]
