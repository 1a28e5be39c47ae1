-- ===== src/Prelude/Lists.antt =====
-- Lists measured, cut and filtered by native numbers and Boolean tests, under the library's names.
use Prim.Native.Nat.{ℕ, zero, suc, ◌+◌, ◌-◌, min}
use mathlib.Core.Path.{◌∙◌, ◌≡◌, refl, ap}
use mathlib.Core.Bool.{◌&&◌, Bool, true, false}
use mathlib.Core.List.{cons≢nil, List, [], ◌∷◌, ◌++◌, map}
use mathlib.Core.Option.{Option, none, some}
use native.Mathlib.Omega.{arith}
use eka_knowledge_assistant.Prelude.Tests.{if◌then◌else◌, Bool-cases}
use mathlib.Core.Logic.{inl, inr}

module _ {ℓ} {A : Type ℓ} where
  abbrev pub length : List A → ℕ
  length [] = 0
  length (x ∷ xs) = suc (length xs)

  abbrev pub is_empty : List A → Bool
  is_empty [] = true
  is_empty (x ∷ xs) = false

  abbrev pub take : ℕ → List A → List A
  take zero xs = []
  take (suc n) [] = []
  take (suc n) (x ∷ xs) = x ∷ take n xs

  abbrev pub drop : ℕ → List A → List A
  drop zero xs = xs
  drop (suc n) [] = []
  drop (suc n) (x ∷ xs) = drop n xs

  abbrev pub get_elem? : List A → ℕ → Option A
  get_elem? [] i = none
  get_elem? (x ∷ xs) zero = some x
  get_elem? (x ∷ xs) (suc i) = get_elem? xs i

  -- [x for x in xs if p(x)], the rows WHERE p
  abbrev pub filter : (A → Bool) → List A → List A
  filter p [] = []
  filter p (x ∷ xs) = if p x then x ∷ filter p xs else filter p xs

  abbrev pub any : (A → Bool) → List A → Bool
  any p [] = false
  any p (x ∷ xs) = if p x then true else any p xs

  abbrev pub find? : (A → Bool) → List A → Option A
  find? p [] = none
  find? p (x ∷ xs) = if p x then some x else find? p xs

  -- A predicate on every element.
  abbrev pub All {κ} : (A → Type κ) → List A → Type κ
  All P [] = Unit
  All P (x ∷ xs) = P x × All P xs

module _ {ℓ} {A : Type ℓ} where
  pub length-append : (xs ys : List A) → length (xs ++ ys) ≡ length xs + length ys
  length-append [] ys = omega arith
  length-append (x ∷ xs) ys = omega (arith, length-append xs ys)

  pub length-take : (n : ℕ) (xs : List A) → length (take n xs) ≡ min n (length xs)
  length-take zero xs = omega arith
  length-take (suc n) [] = omega arith
  length-take (suc n) (x ∷ xs) = omega (arith, length-take n xs)

  pub length-drop : (n : ℕ) (xs : List A) → length (drop n xs) ≡ length xs - n
  length-drop zero xs = omega arith
  length-drop (suc n) [] = omega arith
  length-drop (suc n) (x ∷ xs) = omega (arith, length-drop n xs)

  pub length-map {κ} : {B : Type κ} (f : A → B) (xs : List A) → length (map f xs) ≡ length xs
  length-map f [] = refl
  length-map f (x ∷ xs) = ap suc (length-map f xs)

  pub take-append-drop : (n : ℕ) (xs : List A) → take n xs ++ drop n xs ≡ xs
  take-append-drop zero xs = refl
  take-append-drop (suc n) [] = refl
  take-append-drop (suc n) (x ∷ xs) = ap (λ l. x ∷ l) (take-append-drop n xs)

module _ {ℓ κ} {A : Type ℓ} (P : A → Type κ) where
  pub All-append : (xs ys : List A) → All P xs → All P ys → All P (xs ++ ys)
  All-append [] ys hx hy = hy
  All-append (x ∷ xs) ys hx hy = (hx.0, All-append xs ys hx.1 hy)

  pub All-append_left : (xs ys : List A) → All P (xs ++ ys) → All P xs
  All-append_left [] ys h = tt
  All-append_left (x ∷ xs) ys h = (h.0, All-append_left xs ys h.1)

  pub All-append_right : (xs ys : List A) → All P (xs ++ ys) → All P ys
  All-append_right [] ys h = h
  All-append_right (x ∷ xs) ys h = All-append_right xs ys h.1

  pub All-take : (n : ℕ) (xs : List A) → All P xs → All P (take n xs)
  All-take zero xs h = tt
  All-take (suc n) [] h = tt
  All-take (suc n) (x ∷ xs) h = (h.0, All-take n xs h.1)

  pub All-drop : (n : ℕ) (xs : List A) → All P xs → All P (drop n xs)
  All-drop zero xs h = h
  All-drop (suc n) [] h = tt
  All-drop (suc n) (x ∷ xs) h = All-drop n xs h.1

  pub All-filter : (p : A → Bool) (xs : List A) → All P xs → All P (filter p xs)
  All-filter p [] h = tt
  All-filter p (x ∷ xs) h = elim (Bool-cases (p x)) [
    | inl e ↦ rw e (h.0, All-filter p xs h.1)
    | inr e ↦ rw e (All-filter p xs h.1)
  ]

  pub All-of : ((x : A) → P x) → (xs : List A) → All P xs
  All-of f [] = tt
  All-of f (x ∷ xs) = (f x, All-of f xs)

module _ {ℓ κ μ} {A : Type ℓ} {P : A → Type κ} {Q : A → Type μ} where
  pub All-mono : ((x : A) → P x → Q x) → (xs : List A) → All P xs → All Q xs
  All-mono f [] h = tt
  All-mono f (x ∷ xs) h = (f x h.0, All-mono f xs h.1)

module _ {ℓ κ μ} {A : Type ℓ} (P : A → Type κ) (Q : A → Type μ) where
  pub All-apply : (xs : List A) → All (λ x. P x → Q x) xs → All P xs → All Q xs
  All-apply [] f h = tt
  All-apply (x ∷ xs) f h = (f.0 h.0, All-apply xs f.1 h.1)

-- What a filter keeps passes the test.
pub filter-All {ℓ} : {A : Type ℓ} (p : A → Bool) (xs : List A) → All (λ x. p x ≡ true) (filter p xs)
filter-All p [] = tt
filter-All p (x ∷ xs) = elim (Bool-cases (p x)) [
  | inl e ↦ rw e (e, filter-All p xs)
  | inr e ↦ rw e (filter-All p xs)
]

module _ {ℓ} {A : Type ℓ} (p : A → Bool) where
  pub filter-append : (xs ys : List A) → filter p (xs ++ ys) ≡ filter p xs ++ filter p ys
  filter-append [] ys = refl
  filter-append (x ∷ xs) ys = elim (Bool-cases (p x)) [
    | inl e ↦ rw e (ap (λ l. x ∷ l) (filter-append xs ys))
    | inr e ↦ rw e (filter-append xs ys)
  ]

  -- Nothing passes where everything fails.
  pub filter-eq-nil : (xs : List A) → All (λ x. p x ≡ false) xs → filter p xs ≡ []
  filter-eq-nil [] h = refl
  filter-eq-nil (x ∷ xs) h = rw h.0 (filter-eq-nil xs h.1)

  pub All-of_filter : (xs : List A) → filter p xs ≡ [] → All (λ x. p x ≡ false) xs
  All-of_filter [] h = tt
  All-of_filter (x ∷ xs) h = elim (Bool-cases (p x)) [
    | inl e ↦ absurd (cons≢nil (rw e at h))
    | inr e ↦ (e, All-of_filter xs (rw e at h))
  ]

  pub any-eq-false : (xs : List A) → any p xs ≡ false → All (λ x. p x ≡ false) xs
  any-eq-false [] h = tt
  any-eq-false (x ∷ xs) h = elim (Bool-cases (p x)) [
    | inl e ↦ absurd (ground arith)
    | inr e ↦ (e, any-eq-false xs (rw e at h))
  ]

  pub any_of_All : (xs : List A) → All (λ x. p x ≡ false) xs → any p xs ≡ false
  any_of_All [] h = refl
  any_of_All (x ∷ xs) h = rw h.0 (any_of_All xs h.1)

module _ {ℓ κ} {A : Type ℓ} {B : Type κ} (f : A → B) where
  pub any-map : (p : B → Bool) (xs : List A) → any p (map f xs) ≡ any (λ x. p (f x)) xs
  any-map p [] = refl
  any-map p (x ∷ xs) = elim (Bool-cases (p (f x))) [ inl e ↦ rw e | inr e ↦ rw e (any-map p xs) ]

  pub All-map {μ} : (P : B → Type μ) (xs : List A) → All (λ x. P (f x)) xs → All P (map f xs)
  All-map P [] h = tt
  All-map P (x ∷ xs) h = (h.0, All-map P xs h.1)

-- A sort as the database and Python do it: each element as often as before.
pub record KeepsItems {ℓ} {A : Type ℓ} (order : List A → List A) : Type ℓ where
  pub keeps : (p : A → Bool) (xs : List A) → length (filter p (order xs)) ≡ length (filter p xs)

module _ {ℓ} {A : Type ℓ} {order : List A → List A} (k : KeepsItems order) where
  pub KeepsItems-All :
      (p : A → Bool) (xs : List A) → All (λ x. p x ≡ false) xs → All (λ x. p x ≡ false) (order xs)
  KeepsItems-All p xs h =
      All-of_filter p (order xs) (empty _ (k.keeps p xs ∙ ap length (filter-eq-nil p xs h)))
    where
      empty : (ys : List A) → length ys ≡ 0 → ys ≡ []
      empty [] e = refl
      empty (y ∷ ys) e = absurd (omega arith)

-- An element that passes is found by any test that it passes against itself.
pub any_self {ℓ} :
    {A : Type ℓ} (same : A → A → Bool) (q : A → Bool) (xs : List A)
    → ((x : A) → same x x ≡ true)
    → All (λ x. q x ≡ true → any (λ y. same y x && q y) xs ≡ true) xs
any_self same q [] h = tt
any_self {A} same q (x ∷ xs) h =
    (λ e. rw (h x) (rw e), All-mono (λ y found e. any_later y (found e)) xs (any_self same q xs h))
  where
    any_later :
        (y : A) → any (λ z. same z y && q z) xs ≡ true → any (λ z. same z y && q z) (x ∷ xs) ≡ true
    any_later y e = elim (Bool-cases (same x y && q x)) [ inl f ↦ rw f | inr f ↦ rw f e ]
