-- ===== src/Prelude/Strings.antt =====
-- Python's `str` as the list of its code points, with the methods that the program calls.
use Prim.Native.Nat.{ℕ}
use Prim.Native.Char.{code}
use Prim.Native.String.{String}
use mathlib.Core.Bool.{Bool, true, false, ◌&&◌, ◌||◌}
use mathlib.Core.List.{List, [], ◌∷◌}
use eka_knowledge_assistant.Prelude.Tests.{leb, ◌==◌, if◌then◌else◌}

abbrev pub Text : Type 0
Text = List ℕ

-- The text of a literal.
abbrev pub codes : String → Text
codes String.[] = []
codes (String.◌∷◌ c s) = code c ∷ codes s

-- a == b
abbrev pub text_eq : Text → Text → Bool
text_eq [] [] = true
text_eq [] (d ∷ b) = false
text_eq (c ∷ a) [] = false
text_eq (c ∷ a) (d ∷ b) = if c == d then text_eq a b else false

-- c.isspace(), the characters that `strip`, `rstrip` and `split()` take for white space.
unfoldable pub is_space : ℕ → Bool
is_space c =
    (leb 9 c && leb c 13)
    || (leb 28 c && leb c 32)
    || c == 133
    || c == 160
    || c == 5760
    || (leb 8192 c && leb c 8202)
    || c == 8232
    || c == 8233
    || c == 8239
    || c == 8287
    || c == 12288

unfoldable pub lstrip : Text → Text
lstrip [] = []
lstrip (c ∷ s) = let rest = lstrip s in if is_space c then rest else c ∷ s

abbrev pub snoc_space : ℕ → Text → Text
snoc_space c [] = if is_space c then [] else c ∷ []
snoc_space c (d ∷ t) = c ∷ d ∷ t

unfoldable pub rstrip : Text → Text
rstrip [] = []
rstrip (c ∷ s) = snoc_space c (rstrip s)

unfoldable pub strip : Text → Text
unfolding lstrip rstrip
strip s = rstrip (lstrip s)

-- Every character is white space: `not s.strip()`.
unfoldable pub is_blank : Text → Bool
is_blank [] = true
is_blank (c ∷ s) = is_space c && is_blank s
