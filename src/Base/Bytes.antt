-- ===== src/Base/Bytes.antt =====
-- Facts about every byte, by evaluation over the 256 values.
use Prim.Native.Nat.{ℕ, zero, suc, ◌<◌}
use mathlib.Core.Path.{◌≡◌, refl}
use mathlib.Core.Bool.{Bool, true, false}
use wireless_tsn_configurato.Base.Tests.{if◌then◌else◌}
use native.Mathlib.Omega.{arith}

-- A test passes at every number under a limit.
unfoldable pub passes_under : (ℕ → Bool) → ℕ → Bool
passes_under test zero = true
passes_under test (suc top) = if test top then passes_under test top else false

pub passes_under_at :
    (test : ℕ → Bool) (limit : ℕ)
    → passes_under test limit ≡ true
    → (c : ℕ) → c < limit
    → test c ≡ true
unfolding passes_under
passes_under_at test zero passed c under = absurd (omega arith)
passes_under_at test (suc top) passed c under = ground (
  arith,
  λ (rest : passes_under test top ≡ true) (below : c < top). passes_under_at test top rest c below,
)

-- Two Boolean tests agree.
abbrev pub agree : Bool → Bool → Bool
agree true b = b
agree false true = false
agree false false = true

pub agree_sound : (a b : Bool) → agree a b ≡ true → a ≡ b
agree_sound true true h = refl
agree_sound true false h = cc
agree_sound false true h = cc
agree_sound false false h = refl
