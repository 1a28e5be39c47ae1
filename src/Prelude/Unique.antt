-- ===== src/Prelude/Unique.antt =====
-- Lists without two elements that a test takes for the same: a table under a unique constraint.
use mathlib.Core.Path.{◌≡◌, refl, ap, sym, ◌∙◌}
use mathlib.Core.Logic.{inl, inr}
use mathlib.Core.Bool.{Bool, true, false, ◌&&◌, not, false≢true}
use mathlib.Core.List.{List, [], ◌∷◌, ◌++◌, map}
use native.Mathlib.Omega.{arith}
use eka_knowledge_assistant.Prelude.Tests.{Bool-cases, &&-eq-true}
use eka_knowledge_assistant.Prelude.Lists.{
  All, any, filter, All-filter, any-map, any-eq-false, All-mono, All-apply, any_of_All, All-append,
}

module _ {ℓ} {A : Type ℓ} (same : A → A → Bool) where
  abbrev pub unique : List A → Bool
  unique [] = true
  unique (x ∷ xs) = not (any (same x) xs) && unique xs

  pub unique-head : (x : A) (xs : List A) → unique (x ∷ xs) ≡ true → All (λ y. same x y ≡ false) xs
  unique-head x xs h = any-eq-false (same x) xs (ground arith)

  pub unique-tail : (x : A) (xs : List A) → unique (x ∷ xs) ≡ true → unique xs ≡ true
  unique-tail x xs h = (&&-eq-true _ _ h).1

  -- What holds of one element holds of every element that is the same.
  pub unique-All :
      (q : A → Bool) (xs : List A)
      → ((x y : A) → same x y ≡ same y x)
      → unique xs ≡ true
      → All (λ r. All (λ x. same x r ≡ true → q x ≡ true → q r ≡ true) xs) xs
  unique-All q [] symm h = tt
  unique-All q (x ∷ xs) symm h =
      let apart = unique-head x xs h in
      (
        ((λ _ e. e), All-mono (λ y e f. absurd (false≢true (sym e ∙ symm x y ∙ f))) xs apart),
        All-apply _ _ xs
            (All-mono (λ r e rest. ((λ f. absurd (false≢true (sym e ∙ f))), rest)) xs apart)
            (unique-All q xs symm (unique-tail x xs h)),
      )

  pub unique-map :
      (f : A → A) (xs : List A)
      → ((x y : A) → same (f x) (f y) ≡ same x y)
      → unique (map f xs) ≡ unique xs
  unique-map f [] h = refl
  unique-map f (x ∷ xs) h = rw (any-map f (same (f x)) xs) (rw (unique-map f xs h) (go xs))
    where
      go :
          (ys : List A)
          → (not (any (λ y. same (f x) (f y)) ys) && unique xs)
            ≡ (not (any (same x) ys) && unique xs)
      go ys = ap (λ b. not b && unique xs) (any_ext ys)
        where
          any_ext : (zs : List A) → any (λ y. same (f x) (f y)) zs ≡ any (same x) zs
          any_ext [] = refl
          any_ext (z ∷ zs) = rw (h x z) (rw (any_ext zs))

  pub unique-snoc :
      (xs : List A) (r : A)
      → unique xs ≡ true
      → All (λ x. same x r ≡ false) xs
      → unique (xs ++ r ∷ []) ≡ true
  unique-snoc [] r h k = refl
  unique-snoc (x ∷ xs) r h k =
      let apart = All-append (λ y. same x y ≡ false) xs (r ∷ []) (unique-head x xs h) (k.0, tt) in
      rw (any_of_All (same x) (xs ++ r ∷ []) apart) (unique-snoc xs r (unique-tail x xs h) k.1)

  -- A part of a table keeps its constraint, and two tables together have it when they are apart.
  pub unique-filter : (p : A → Bool) (xs : List A) → unique xs ≡ true → unique (filter p xs) ≡ true
  unique-filter p [] h = refl
  unique-filter p (x ∷ xs) h = elim (Bool-cases (p x)) [
    | inl e ↦ rw e (
        rw
          (any_of_All (same x) (filter p xs)
            (All-filter (λ y. same x y ≡ false) p xs (unique-head x xs h)))
          (unique-filter p xs (unique-tail x xs h)))
    | inr e ↦ rw e (unique-filter p xs (unique-tail x xs h))
  ]

  pub unique-append :
      (xs ys : List A)
      → unique xs ≡ true
      → unique ys ≡ true
      → All (λ x. All (λ y. same x y ≡ false) ys) xs
      → unique (xs ++ ys) ≡ true
  unique-append [] ys h k apart = k
  unique-append (x ∷ xs) ys h k apart =
      rw
        (any_of_All (same x) (xs ++ ys)
          (All-append (λ y. same x y ≡ false) xs ys (unique-head x xs h) apart.0))
        (unique-append xs ys (unique-tail x xs h) k apart.1)
