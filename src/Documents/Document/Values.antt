-- ===== src/Documents/Document/Values.antt =====
-- What the value objects of a document accept, and that building them again changes nothing.
use eka_knowledge_assistant.Prelude.{
  ℕ, zero, suc, ◌≤◌, ◌≡◌, refl, ap, ◌≢◌, ◌↔◌, ◌⊎◌, inl, inr, true, [], ◌∷◌, ◌++◌, arith, ==_iff,
  Bool-cases, length, All, Text, strip, strip_idem, ok,
}
use eka_knowledge_assistant.Documents.Document.{
  is_hex, matches_hex, content_hash, title, Title, max_title_len,
}

-- `n` lower-case hexadecimal digits and nothing else.
abbrev pub IsHexDigest : ℕ → Text → Type 0
IsHexDigest n s = (length s ≡ n) × All (λ c. is_hex c ≡ true) s

matches_hex_complete : (n : ℕ) (s : Text) → IsHexDigest n s → matches_hex n s ≡ true
unfolding matches_hex
matches_hex_complete zero [] h = refl
matches_hex_complete zero (c ∷ s) h = absurd (omega (arith, h.0))
matches_hex_complete (suc n) [] h = absurd (omega (arith, h.0))
matches_hex_complete (suc n) (c ∷ s) h =
    rw h.1.0 (matches_hex_complete n s (omega (arith, h.0), h.1.1))

matches_hex-newline : (n : ℕ) (s : Text) → IsHexDigest n s → matches_hex n (s ++ 10 ∷ []) ≡ true
unfolding matches_hex
matches_hex-newline zero [] h = refl
matches_hex-newline zero (c ∷ s) h = absurd (omega (arith, h.0))
matches_hex-newline (suc n) [] h = absurd (omega (arith, h.0))
matches_hex-newline (suc n) (c ∷ s) h =
    rw h.1.0 (matches_hex-newline n s (omega (arith, h.0), h.1.1))

matches_hex_sound :
    (n : ℕ) (s : Text)
    → matches_hex n s ≡ true
    → (d : Text) × IsHexDigest n d × ((s ≡ d) ⊎ (s ≡ d ++ 10 ∷ []))
unfolding matches_hex
matches_hex_sound zero [] h = ([], (refl, tt), inl refl)
matches_hex_sound zero (c ∷ []) h = ([], (refl, tt), inr (ap (λ x. x ∷ []) ((==_iff c 10).0 h)))
matches_hex_sound zero (c ∷ d ∷ s) h = cc
matches_hex_sound (suc n) [] h = cc
matches_hex_sound (suc n) (c ∷ s) h = elim (Bool-cases (is_hex c)) [
  | inl e ↦
      let (d, ok_d, same) = matches_hex_sound n s (rw e at h) in
      (
        c ∷ d,
        (ap suc ok_d.0, (e, ok_d.1)),
        elim same [ inl p ↦ inl (ap (λ x. c ∷ x) p) | inr p ↦ inr (ap (λ x. c ∷ x) p) ],
      )
  | inr e ↦ absurd (ground arith)
]

-- A content hash is accepted exactly when its text is 64 lower-case hexadecimal digits, or those
-- digits and one line feed after them.
pub content_hash_iff :
    (s : Text)
    → (content_hash s ≡ ok (record { value = s }))
      ↔ ((d : Text) × IsHexDigest 64 d × ((s ≡ d) ⊎ (s ≡ d ++ 10 ∷ [])))
unfolding content_hash
content_hash_iff s = (
  λ h. matches_hex_sound 64 s (ground arith),
  λ (d, ok_d, same). elim same [
    | inl p ↦ rw (p, matches_hex_complete 64 d ok_d)
    | inr p ↦ rw (p, matches_hex-newline 64 d ok_d)
  ],
)

-- The value of an accepted title is stripped, not empty and at most 512 characters long, and the
-- value object made from it once more is the same.
pub title-title :
    (s : Text) (t : Title)
    → title s ≡ ok t
    → (t.value ≡ strip s)
      × (t.value ≢ [])
      × (length t.value ≤ max_title_len)
      × (title t.value ≡ ok t)
unfolding title
title-title s t h = ground (arith, strip_idem s)
