-- ===== src/Ingestion/Jobs/Backoff.antt =====
-- The retry policy: doubling delays under a ceiling.
use eka_knowledge_assistant.Prelude.{
  ℕ, zero, suc, ◌+◌, ◌-◌, ◌*◌, ◌^◌, ◌≤◌, ◌<◌, min, ◌≡◌, refl, ap, ◌∙◌, arith,
}
use eka_knowledge_assistant.Ingestion.Jobs.{
  compute_backoff_seconds, base_backoff_seconds, max_backoff_seconds,
}
use native.Mathlib.Nat.{pow-suc, pow-le-pow_right}
use native.Mathlib.Numerals.{towards_suc}

backoff-suc :
    (n : ℕ)
    → compute_backoff_seconds (n + 1) ≡ min (base_backoff_seconds * 2 ^ n) max_backoff_seconds
unfolding compute_backoff_seconds
backoff-suc n = rw (n_sub) (ground arith)
  where
    n_sub : n + 1 - 1 ≡ n
    n_sub = omega arith

double : (n : ℕ) → 2 ^ (n + 1) ≡ 2 * 2 ^ n
double n = simp towards_suc (omega (arith, pow-suc 2 n))

-- The first delay is the base, each further one is twice the last under the ceiling, and there is
-- none before the first attempt.
pub backoff_doubles :
    (n : ℕ)
    → (compute_backoff_seconds 0 ≡ 0)
      × (compute_backoff_seconds 1 ≡ base_backoff_seconds)
      × (compute_backoff_seconds (n + 2)
          ≡ min (2 * compute_backoff_seconds (n + 1)) max_backoff_seconds)
backoff_doubles n =
    (unfold compute_backoff_seconds in refl, unfold compute_backoff_seconds in refl, next)
  where
    two : n + 2 ≡ n + 1 + 1
    two = omega arith

    next :
        compute_backoff_seconds (n + 2)
        ≡ min (2 * compute_backoff_seconds (n + 1)) max_backoff_seconds
    next = rw two (rw (backoff-suc (n + 1)) (rw (backoff-suc n) (rw (double n) (omega arith))))

backoff_at :
    (n : ℕ)
    → compute_backoff_seconds (suc n) ≡ min (base_backoff_seconds * 2 ^ n) max_backoff_seconds
backoff_at n = ap compute_backoff_seconds (omega arith) ∙ backoff-suc n

backoff_zero : compute_backoff_seconds 0 ≡ 0
unfolding compute_backoff_seconds
backoff_zero = refl

two_pos : 0 < 2
two_pos = omega arith

-- The delay never falls from one attempt to the next, never passes the ceiling, and is the ceiling
-- from the eleventh attempt on.
pub backoff_bounds :
    (a b : ℕ)
    → a ≤ b
    → (compute_backoff_seconds a ≤ compute_backoff_seconds b)
      × (compute_backoff_seconds b ≤ max_backoff_seconds)
      × (11 ≤ a → compute_backoff_seconds a ≡ max_backoff_seconds)
backoff_bounds zero zero h = omega (arith, backoff_zero)
backoff_bounds zero (suc b) h = omega (arith, backoff_zero, backoff_at b)
backoff_bounds (suc a) zero h = absurd (omega arith)
backoff_bounds (suc a) (suc b) h = (
  omega (arith, backoff_at a, backoff_at b, pow-le-pow_right two_pos {i = a} {j = b} (omega arith)),
  omega (arith, backoff_at b),
  λ far. omega (arith, backoff_at a, pow-le-pow_right two_pos {i = 10} {j = a} (omega arith)),
)
