-- ===== src/Shared/Builtins.antt =====
-- What the program uses of Python's `float`, `sorted` and of the pattern `[a-z0-9]+`.
use eka_knowledge_assistant.Prelude.{
  ℕ, Bool, ◌&&◌, ◌||◌, List, [], ◌∷◌, ◌++◌, leb, if◌then◌else◌, filter, any, Text, text_eq,
  is_space,
}

pub record Floats (F : Type 0) : Type 0 where
  pub of_nat : ℕ → F
  pub add : F → F → F
  pub sub : F → F → F
  pub mul : F → F → F
  pub div : F → F → F
  pub sqrt : F → F
  pub lt : F → F → Bool
  -- Whether a value is false as a condition.
  pub is_zero : F → Bool

-- sorted(xs, key=…, reverse=True), which keeps the order of equal keys; `lt` compares the keys.
unfoldable pub insert_desc {ℓ} : {A : Type ℓ} → (A → A → Bool) → A → List A → List A
insert_desc lt x [] = x ∷ []
insert_desc lt x (y ∷ ys) =
    let rest = insert_desc lt x ys in if lt x y then y ∷ rest else x ∷ y ∷ ys

unfoldable pub sorted_desc {ℓ} : {A : Type ℓ} → (A → A → Bool) → List A → List A
sorted_desc lt [] = []
sorted_desc lt (x ∷ xs) = insert_desc lt x (sorted_desc lt xs)

abbrev pub is_token_char : ℕ → Bool
is_token_char c = (leb 97 c && leb c 122) || (leb 48 c && leb c 57)

-- A token goes before the run that the text begins with.
abbrev pub end_token : Text → List Text → List Text
end_token [] found = found
end_token (c ∷ t) found = (c ∷ t) ∷ found

-- The token that the text begins with, and those of the rest.
unfoldable pub scan_tokens : Text → Text × List Text
scan_tokens [] = ([], [])
scan_tokens (c ∷ s) =
    let (run, found) = scan_tokens s in
    if is_token_char c then (c ∷ run, found) else ([], end_token run found)

-- _TOKEN_RE.findall(s)
unfoldable pub find_tokens : Text → List Text
find_tokens s = let (run, found) = scan_tokens s in end_token run found

-- A set of strings is a list without duplicates.
abbrev pub member : Text → List Text → Bool
member t ts = any (λ u. text_eq u t) ts

unfoldable pub to_set : List Text → List Text
to_set [] = []
to_set (t ∷ ts) = let rest = to_set ts in if member t rest then rest else t ∷ rest

-- a & b
unfoldable pub intersection : List Text → List Text → List Text
intersection a b = filter (λ t. member t b) a

-- s.split(), and " ".join(words)
unfoldable pub scan_words : Text → Text × List Text
scan_words [] = ([], [])
scan_words (c ∷ s) =
    let (run, found) = scan_words s in
    if is_space c then ([], end_token run found) else (c ∷ run, found)

unfoldable pub split_words : Text → List Text
split_words s = let (run, found) = scan_words s in end_token run found

unfoldable pub join : Text → List Text → Text
join sep [] = []
join sep (t ∷ []) = t
join sep (t ∷ u ∷ ts) = t ++ sep ++ join sep (u ∷ ts)
