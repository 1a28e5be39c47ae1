-- ===== src/Ingestion/Chunking/FirstFragment.antt =====
-- The first fragment of the recursive split begins with the first character of the text.
use eka_knowledge_assistant.Prelude.{
  ℕ, suc, ◌≡◌, refl, sym, ap, ◌∙◌, subst, inl, inr, true, false, List, [], ◌∷◌, ◌++◌, ltb, leb,
  ==_iff, Bool-cases, &&-eq-true, length, Text, is_space, rstrip, snoc_space,
}
use eka_knowledge_assistant.Ingestion.Chunking.{
  parts, piece, concat_map, cons_head, is_newline_separator, is_prefix, split_from, keep_short,
  recursive_split,
}

abbrev pub BeginsWith : ℕ → Text → Type 0
BeginsWith c [] = ⊥
BeginsWith c (d ∷ s) = d ≡ c

abbrev pub FirstBegins : ℕ → List Text → Type 0
FirstBegins c [] = ⊥
FirstBegins c (t ∷ ts) = BeginsWith c t

rstrip-BeginsWith :
    (c : ℕ) (s : Text) → is_space c ≡ false → BeginsWith c s → BeginsWith c (rstrip s)
unfolding rstrip
rstrip-BeginsWith c [] h e = elim e [ ]
rstrip-BeginsWith c (d ∷ s) h e = go (rstrip s)
  where
    go : (r : Text) → BeginsWith c (snoc_space d r)
    go [] = rw (ap is_space e ∙ h) e
    go (x ∷ r) = e

piece-BeginsWith :
    (c d : ℕ) (sep part : Text)
    → is_space c ≡ false
    → BeginsWith c (part ++ d ∷ sep)
    → BeginsWith c (piece (d ∷ sep) part)
unfolding piece
piece-BeginsWith c d sep part h b = elim (Bool-cases (is_newline_separator (d ∷ sep))) [
  | inl e ↦ rw e (rstrip-BeginsWith c (part ++ d ∷ sep) h b)
  | inr e ↦ rw e b
]

-- The first part of a text, with the separator after it.
abbrev FirstPiece : ℕ → Text → List Text → Type 0
FirstPiece c sep [] = ⊥
FirstPiece c sep (part ∷ ps) = BeginsWith c (piece sep part)

cons_head-FirstPiece :
    (c d : ℕ) (sep : Text) (ts : List Text)
    → is_space c ≡ false
    → FirstPiece c (d ∷ sep) (cons_head c ts)
cons_head-FirstPiece c d sep [] h = piece-BeginsWith c d sep (c ∷ []) h refl
cons_head-FirstPiece c d sep (t ∷ ts) h = piece-BeginsWith c d sep (c ∷ t) h refl

prefix_head : (c d : ℕ) (sep s : Text) → is_prefix (d ∷ sep) (c ∷ s) ≡ true → d ≡ c
unfolding is_prefix
prefix_head c d sep s h = (==_iff d c).0 (&&-eq-true _ _ h).0

-- The first piece of a text begins with the first character of the text.
parts-FirstPiece :
    (c : ℕ) (sep s : Text) → is_space c ≡ false → FirstPiece c sep (parts sep (c ∷ s))
unfolding parts split_from
parts-FirstPiece c [] s h = unfold piece in refl
parts-FirstPiece c (d ∷ sep) s h = elim (Bool-cases (is_prefix (d ∷ sep) (c ∷ s))) [
  | inl e ↦ rw (e, split_from) (piece-BeginsWith c d sep [] h (prefix_head c d sep s e))
  | inr e ↦ rw (e, split_from) (cons_head-FirstPiece c d sep (split_from (d ∷ sep) 0 s) h)
]

append-FirstBegins : (c : ℕ) (xs ys : List Text) → FirstBegins c xs → FirstBegins c (xs ++ ys)
append-FirstBegins c [] ys h = elim h [ ]
append-FirstBegins c (x ∷ xs) ys h = h

keep_short-FirstBegins :
    (c size : ℕ) (t : Text) (longer : List Text)
    → BeginsWith c t
    → FirstBegins c longer
    → FirstBegins c (keep_short size t longer)
keep_short-FirstBegins c size [] longer h k = elim h [ ]
keep_short-FirstBegins c size (d ∷ t) longer h k = elim (Bool-cases (ltb size (suc (length t)))) [
  | inl e ↦ rw e k
  | inr e ↦ rw e h
]

concat_map-FirstBegins :
    (c : ℕ) (sep : Text) (f : Text → List Text) (ps : List Text)
    → ((part : Text) → BeginsWith c (piece sep part) → FirstBegins c (f part))
    → FirstPiece c sep ps
    → FirstBegins c (concat_map f ps)
concat_map-FirstBegins c sep f [] h k = elim k [ ]
concat_map-FirstBegins c sep f (part ∷ ps) h k = append-FirstBegins c (f part) _ (h part k)

pub recursive_split-FirstBegins :
    (size : ℕ) (seps : List Text) (c : ℕ) (t : Text)
    → is_space c ≡ false
    → BeginsWith c t
    → FirstBegins c (recursive_split size seps t)
unfolding recursive_split
recursive_split-FirstBegins size [] c [] h b = elim b [ ]
recursive_split-FirstBegins size [] c (d ∷ s) h b = b
recursive_split-FirstBegins size (sep ∷ seps) c [] h b = elim b [ ]
recursive_split-FirstBegins size (sep ∷ seps) c (d ∷ s) h b =
    elim (Bool-cases (leb (length (d ∷ s)) size)) [
      | inl e ↦ rw e b
      | inr e ↦ rw e (
          concat_map-FirstBegins c sep _ (parts sep (d ∷ s))
            (λ part k.
              keep_short-FirstBegins c size (piece sep part) _ k
                (recursive_split-FirstBegins size seps c (piece sep part) h k))
            (subst (λ x. FirstPiece c sep (parts sep (x ∷ s))) (sym b)
              (parts-FirstPiece c sep s h)))
    ]
