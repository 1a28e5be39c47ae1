-- ===== src/Prelude/Effects.antt =====
-- Exceptions as values (shared/domain/errors.py and the ones that Python and SQLAlchemy raise),
-- fallible results, and actions that read and write a state. What an action wrote before it
-- raised stays written, so the state comes back beside the exception too.
use Prim.Native.String.{String}
use mathlib.Core.Logic.{◌⊎◌, inl, inr}
use mathlib.Core.Path.{◌≡◌, refl}

-- A subclass of DomainError with its message; then the exceptions of Python and of the database.
pub data Exception : Type 0 where
  validation_error invariant_violation state_transition_error : String → Exception
  not_found_error conflict_error authentication_error : String → Exception
  content_missing_error : String → Exception
  value_error key_error : Exception
  integrity_error data_error multiple_results_found : Exception
  other_exception : String → Exception

pub data Result {ℓ} (A : Type ℓ) : Type ℓ where
  ok : A → Result A
  err : Exception → Result A

abbrev pub Action : Type 0 → Type 0 → Type 0
Action S A = S → Result A × S

abbrev pub and_then : {S A B : Type 0} → Result A → (A → Action S B) → Action S B
and_then (ok a) f s = f a s
and_then (err e) f s = (err e, s)

abbrev pub map_result {ℓ κ} : {A : Type ℓ} {B : Type κ} → (A → B) → Result A → Result B
map_result f (ok a) = ok (f a)
map_result f (err e) = err e

abbrev pub bind_result {ℓ κ} : {A : Type ℓ} {B : Type κ} → Result A → (A → Result B) → Result B
bind_result (ok a) f = f a
bind_result (err e) f = err e

infixl 5 ◌>>=◌ ◌>>◌
abbrev pub ◌>>=◌ : {S A B : Type 0} → Action S A → (A → Action S B) → Action S B
m >>= f = λ s. and_then (m s).0 f (m s).1

abbrev pub ◌>>◌ : {S A B : Type 0} → Action S A → Action S B → Action S B
m >> n = m >>= λ _. n

module _ {S : Type 0} where
  abbrev pub pure : {A : Type 0} → A → Action S A
  pure a s = (ok a, s)

  abbrev pub raise : {A : Type 0} → Exception → Action S A
  raise e s = (err e, s)

  abbrev pub lift : {A : Type 0} → Result A → Action S A
  lift r s = (r, s)

  abbrev pub gets : {A : Type 0} → (S → A) → Action S A
  gets f s = (ok (f s), s)

  abbrev pub modify : (S → S) → Action S (Unit {0})
  modify f s = (ok tt, f s)

-- What a successful chain says of its parts.
pub bind_result-eq-ok {ℓ κ} :
    {A : Type ℓ} {B : Type κ} (m : Result A) (f : A → Result B) {b : B}
    → bind_result m f ≡ ok b
    → (a : A) × (m ≡ ok a) × (f a ≡ ok b)
bind_result-eq-ok (ok a) f h = (a, refl, h)
bind_result-eq-ok (err e) f h = cc

pub map_result-eq-ok {ℓ κ} :
    {A : Type ℓ} {B : Type κ} (f : A → B) (m : Result A) {b : B}
    → map_result f m ≡ ok b
    → (a : A) × (m ≡ ok a) × (b ≡ f a)
map_result-eq-ok f (ok a) h = (a, refl, cc)
map_result-eq-ok f (err e) h = cc

pub Result-cases {ℓ} :
    {A : Type ℓ} (r : Result A) → ((a : A) × (r ≡ ok a)) ⊎ ((e : Exception) × (r ≡ err e))
Result-cases (ok a) = inl (a, refl)
Result-cases (err e) = inr (e, refl)
