-- ===== src/Prelude/StringLaws.antt =====
-- Laws of the methods of `str` in Strings.
use eka_knowledge_assistant.Prelude.Strings.{
  Text, text_eq, is_space, lstrip, rstrip, snoc_space, strip, is_blank,
}
use Prim.Native.Nat.{ℕ, zero, suc, ◌≤◌, ◌<◌}
use mathlib.Core.Path.{◌≡◌, refl, sym, ap, ◌∙◌, subst}
use mathlib.Core.Logic.{inl, inr, ◌↔◌}
use mathlib.Core.Bool.{true, false, ◌&&◌}
use mathlib.Core.List.{[], ◌∷◌, ◌++◌}
use native.Mathlib.Omega.{arith}
use eka_knowledge_assistant.Prelude.Tests.{Bool-cases, ==_refl}
use eka_knowledge_assistant.Prelude.Lists.{length, drop}

pub text_eq→eq : (a b : Text) → text_eq a b ≡ true → a ≡ b
text_eq→eq [] [] h = refl
text_eq→eq [] (d ∷ b) h = cc
text_eq→eq (c ∷ a) [] h = cc
text_eq→eq (c ∷ a) (d ∷ b) h = ground (arith, text_eq→eq a b)

pub text_eq_refl : (a : Text) → text_eq a a ≡ true
text_eq_refl [] = refl
text_eq_refl (c ∷ a) = rw (==_refl c) (text_eq_refl a)

pub text_eq_iff : (a b : Text) → (text_eq a b ≡ true) ↔ (a ≡ b)
text_eq_iff a b = (text_eq→eq a b, λ e. rw e (text_eq_refl b))

pub length-lstrip-le : (s : Text) → length (lstrip s) ≤ length s
unfolding lstrip
length-lstrip-le [] = omega arith
length-lstrip-le (c ∷ s) = ground (arith, length-lstrip-le s)

pub length-rstrip-le : (s : Text) → length (rstrip s) ≤ length s
unfolding rstrip
length-rstrip-le [] = omega arith
length-rstrip-le (c ∷ s) = ground (arith, length-rstrip-le s)

pub length-strip-le : (s : Text) → length (strip s) ≤ length s
unfolding strip
length-strip-le s = omega (arith, length-rstrip-le (lstrip s), length-lstrip-le s)

lstrip_idem : (s : Text) → lstrip (lstrip s) ≡ lstrip s
unfolding lstrip
lstrip_idem [] = refl
lstrip_idem (c ∷ s) = elim (Bool-cases (is_space c)) [
  | inl e ↦ rw e (lstrip_idem s)
  | inr e ↦ rw e (rw e)
]

rstrip_idem : (s : Text) → rstrip (rstrip s) ≡ rstrip s
unfolding rstrip
rstrip_idem [] = refl
rstrip_idem (c ∷ s) = ground (arith, rstrip_idem s)

-- Cutting the end keeps a start that is no white space.
lstrip-rstrip : (s : Text) → lstrip s ≡ s → lstrip (rstrip s) ≡ rstrip s
unfolding lstrip rstrip
lstrip-rstrip [] h = refl
lstrip-rstrip (c ∷ s) h = ground (arith, length-lstrip-le s, ap length h)

-- Stripping twice is stripping once.
pub strip_idem : (s : Text) → strip (strip s) ≡ strip s
unfolding strip
strip_idem s = ap rstrip (lstrip-rstrip (lstrip s) (lstrip_idem s)) ∙ rstrip_idem (lstrip s)

pub rstrip-strip : (s : Text) → rstrip (strip s) ≡ strip s
unfolding strip
rstrip-strip s = rstrip_idem (lstrip s)

blank-lstrip : (s : Text) → is_blank s ≡ true → lstrip s ≡ []
unfolding lstrip is_blank
blank-lstrip [] h = refl
blank-lstrip (c ∷ s) h = ground (arith, blank-lstrip s)

blank_of_lstrip : (s : Text) → is_blank (lstrip s) ≡ true → is_blank s ≡ true
unfolding lstrip is_blank
blank_of_lstrip [] h = refl
blank_of_lstrip (c ∷ s) h = ground (arith, blank_of_lstrip s)

blank_of_rstrip : (s : Text) → rstrip s ≡ [] → is_blank s ≡ true
unfolding rstrip is_blank
blank_of_rstrip [] h = refl
blank_of_rstrip (c ∷ s) h = ground (arith, blank_of_rstrip s)

-- A text strips to nothing exactly when it is blank.
pub strip-eq-nil_iff : (s : Text) → (strip s ≡ []) ↔ (is_blank s ≡ true)
unfolding strip
strip-eq-nil_iff s = (
  λ h. blank_of_lstrip s (blank_of_rstrip (lstrip s) h),
  λ h. rw (blank-lstrip s h) (unfold rstrip in refl),
)

pub blank-append : (s t : Text) → is_blank (s ++ t) ≡ (is_blank s && is_blank t)
unfolding is_blank
blank-append [] t = refl
blank-append (c ∷ s) t = ground (arith, blank-append s t)

pub blank-rstrip : (s : Text) → is_blank s ≡ true → rstrip s ≡ []
unfolding rstrip is_blank
blank-rstrip [] h = refl
blank-rstrip (c ∷ s) h = ground (arith, blank-rstrip s)

-- A text that is not blank does not strip to a blank one.
pub blank-strip : (s : Text) → is_blank s ≡ false → is_blank (strip s) ≡ false
blank-strip s h = elim (Bool-cases (is_blank (strip s))) [
  | inl e ↦ cc (h, (strip-eq-nil_iff s).0 (sym (strip_idem s) ∙ (strip-eq-nil_iff (strip s)).1 e))
  | inr e ↦ e
]

rstrip-tail : (c : ℕ) (s : Text) → 0 < length s → rstrip (c ∷ s) ≡ c ∷ s → rstrip s ≡ s
unfolding rstrip
rstrip-tail c s h e = go (rstrip s) e
  where
    go : (r : Text) → snoc_space c r ≡ c ∷ s → r ≡ s
    go [] e = absurd (ground (arith, ap length e))
    go (d ∷ r) e = ground arith

-- A text with no white space at its end has none that ends it.
pub blank-drop : (k : ℕ) (s : Text) → rstrip s ≡ s → k < length s → is_blank (drop k s) ≡ false
blank-drop k [] e h = absurd (omega arith)
blank-drop zero (c ∷ s) e h = elim (Bool-cases (is_blank (c ∷ s))) [
  | inl b ↦ absurd (ground (arith, ap length (sym (blank-rstrip (c ∷ s) b) ∙ e)))
  | inr b ↦ b
]
blank-drop (suc k) (c ∷ s) e h = blank-drop k s (rstrip-tail c s (omega arith) e) (omega arith)

lstrip_space : (s : Text) → lstrip (32 ∷ s) ≡ lstrip s
unfolding lstrip is_space
lstrip_space s = refl

pub length-strip_space : (s : Text) → length (strip (32 ∷ s)) ≤ length s
unfolding strip
length-strip_space s =
    omega
      (arith, ap length (lstrip_space s), length-rstrip-le (lstrip (32 ∷ s)), length-lstrip-le s)

lstrip-strip : (s : Text) → lstrip (strip s) ≡ strip s
unfolding strip
lstrip-strip s = lstrip-rstrip (lstrip s) (lstrip_idem s)

lstrip_skip : (c : ℕ) (s : Text) → is_space c ≡ true → lstrip (c ∷ s) ≡ lstrip s
unfolding lstrip
lstrip_skip c s e = rw e refl

lstrip_keep : (c : ℕ) (s : Text) → is_space c ≡ false → lstrip (c ∷ s) ≡ c ∷ s
unfolding lstrip
lstrip_keep c s e = rw e refl

strip_skip : (c : ℕ) (s : Text) → is_space c ≡ true → strip (c ∷ s) ≡ strip s
unfolding strip
strip_skip c s e = ap rstrip (lstrip_skip c s e)

strip_keep : (c : ℕ) (s : Text) → is_space c ≡ false → strip (c ∷ s) ≡ rstrip (c ∷ s)
unfolding strip
strip_keep c s e = ap rstrip (lstrip_keep c s e)

rstrip-append : (s t : Text) → is_blank t ≡ true → rstrip (s ++ t) ≡ rstrip s
unfolding rstrip
rstrip-append [] t h = blank-rstrip t h
rstrip-append (c ∷ s) t h = ap (snoc_space c) (rstrip-append s t h)

-- A stripped text does not begin with white space.
pub strip_head : (c : ℕ) (s text : Text) → strip text ≡ c ∷ s → is_space c ≡ false
strip_head c s text h = elim (Bool-cases (is_space c)) [
  | inl e ↦ go e (subst (λ t. lstrip t ≡ t) h (lstrip-strip text))
  | inr e ↦ e
]
  where
    go : is_space c ≡ true → lstrip (c ∷ s) ≡ c ∷ s → is_space c ≡ false
    go e k = absurd (omega (arith, length-lstrip-le s, ap length (lstrip_skip c s e), ap length k))

-- White space at the end adds nothing to the stripped text.
pub length-strip-append : (s t : Text) → is_blank t ≡ true → length (strip (s ++ t)) ≤ length s
length-strip-append [] t h = omega (arith, ap length ((strip-eq-nil_iff t).1 h))
length-strip-append (c ∷ s) t h = elim (Bool-cases (is_space c)) [
  | inl e ↦ omega (arith, length-strip-append s t h, ap length (strip_skip c (s ++ t) e))
  | inr e ↦ omega (
    arith,
    length-rstrip-le (c ∷ s),
    ap length (strip_keep c (s ++ t) e ∙ rstrip-append (c ∷ s) t h),
  )
]
