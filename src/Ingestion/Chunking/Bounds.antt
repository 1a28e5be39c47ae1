-- ===== src/Ingestion/Chunking/Bounds.antt =====
-- The sizes and the ordinals of the chunks.
use eka_knowledge_assistant.Prelude.{
  ℕ, zero, suc, ◌+◌, ◌-◌, ◌≤◌, ◌<◌, ◌≡◌, inl, inr, some, List, [], ◌∷◌, ◌++◌, map, arith, ltb, leb,
  ◌==◌, leb→le, Bool-cases, length, is_empty, get_elem?, All, length-append, length-drop,
  All-append, All-of, Text, strip, length-strip-le, ℤ, pos, negsuc, ok,
}
use eka_knowledge_assistant.Ingestion.Chunking.{
  ChunkingConfig, chunking_config, TextPiece, separators, parts, piece, concat_map, keep_short,
  recursive_split, tail, merge_step, merge_with_overlap, enumerate, split,
}

-- A configuration that passes its checks.
pub record IsConfig (config : ChunkingConfig) : Type 0 where
  pub positive : 0 < config.chunk_size
  pub smaller : config.chunk_overlap < config.chunk_size

pub chunking_config-IsConfig :
    (size overlap : ℤ) (config : ChunkingConfig)
    → chunking_config size overlap ≡ ok config
    → IsConfig config
unfolding chunking_config
chunking_config-IsConfig (pos n) (pos m) config h = record {
  positive = ground arith;
  smaller = ground arith;
}
chunking_config-IsConfig (pos n) (negsuc m) config h = absurd (ground arith)
chunking_config-IsConfig (negsuc n) overlap config h = absurd (ground arith)

abbrev pub Fits : ℕ → Text → Type 0
Fits size t = length t ≤ size

concat_map-All :
    (P : Text → Type 0) (f : Text → List Text) (xs : List Text)
    → All (λ x. All P (f x)) xs
    → All P (concat_map f xs)
concat_map-All P f [] h = tt
concat_map-All P f (x ∷ xs) h = All-append P (f x) _ h.0 (concat_map-All P f xs h.1)

keep_short-All :
    (size : ℕ) (s : Text) (longer : List Text)
    → All (Fits size) longer
    → All (Fits size) (keep_short size s longer)
keep_short-All size s longer h = elim (Bool-cases (is_empty s)) [
  | inl e ↦ rw e tt
  | inr e ↦ elim (Bool-cases (ltb size (length s))) [
    | inl l ↦ rw e (rw l h)
    | inr l ↦ rw e (rw l (ground arith, tt))
  ]
]

-- The list of separators ends in the empty one.
abbrev Ends : List Text → Type 0
Ends [] = ⊥
Ends ([] ∷ []) = Unit {0}
Ends ((c ∷ s) ∷ []) = ⊥
Ends (s ∷ t ∷ seps) = Ends (t ∷ seps)

characters-All :
    (size : ℕ) (text : Text) (f : Text → List Text)
    → 0 < size
    → All (λ part. All (Fits size) (keep_short size part (part ∷ []))) (map (λ c. c ∷ []) text)
characters-All size [] f h = tt
characters-All size (c ∷ text) f h =
    (keep_short-All size (c ∷ []) _ (ground arith, tt), characters-All size text f h)

-- Every fragment of the recursive split fits the chunk size.
pub recursive_split-Fits :
    (size : ℕ) (seps : List Text) (text : Text)
    → 0 < size
    → Ends seps
    → All (Fits size) (recursive_split size seps text)
unfolding recursive_split parts piece
recursive_split-Fits size [] text h e = absurd e
recursive_split-Fits size ((c ∷ s) ∷ []) text h e = absurd e
recursive_split-Fits size ([] ∷ []) text h e = elim (Bool-cases (leb (length text) size)) [
  | inl l ↦ rw l (leb→le _ _ l, tt)
  | inr l ↦ rw l (concat_map-All _ _ _ (characters-All size text (λ t. t ∷ []) h))
]
recursive_split-Fits size (s ∷ t ∷ seps) text h e = elim (Bool-cases (leb (length text) size)) [
  | inl l ↦ rw l (leb→le _ _ l, tt)
  | inr l ↦ rw l (
      concat_map-All _ _ (parts s text) (
        All-of _
          (λ part.
            keep_short-All size (piece s part) _
              (recursive_split-Fits size (t ∷ seps) (piece s part) h e))
          (parts s text)))
]

length-tail : (overlap : ℕ) (t : Text) → length (tail overlap t) ≤ overlap
unfolding tail
length-tail overlap t = elim (Bool-cases (overlap == 0)) [
  | inl e ↦ rw e (omega arith)
  | inr e ↦ rw e (omega (arith, length-drop (length t - overlap) t))
]

-- The bound that the loop keeps for `current`.
abbrev limit : ChunkingConfig → ℕ
limit config = config.chunk_size + config.chunk_overlap + 1

merge_step-Fits :
    (config : ChunkingConfig) (current fragment : Text)
    → length current ≤ limit config
    → Fits config.chunk_size fragment
    → All (Fits (limit config)) (merge_step config current fragment).0
      × (length (merge_step config current fragment).1 ≤ limit config)
unfolding merge_step
merge_step-Fits config [] fragment h k =
    elim (Bool-cases (leb (length fragment) config.chunk_size)) [
      | inl e ↦ rw e (tt, omega (arith, k))
      | inr e ↦ absurd (ground arith)
    ]
merge_step-Fits config (c ∷ cs) fragment h k =
    let candidate = strip ((c ∷ cs) ++ 32 ∷ fragment) in
    elim (Bool-cases (leb (length candidate) config.chunk_size)) [
      | inl e ↦ rw e (tt, omega (arith, leb→le _ _ e))
      | inr e ↦
          let kept = tail config.chunk_overlap (c ∷ cs) in
          rw e (
            (h, tt),
            omega (
              arith,
              k,
              length-strip-le (kept ++ 32 ∷ fragment),
              length-append kept (32 ∷ fragment),
              length-tail config.chunk_overlap (c ∷ cs),
            ),
          )
    ]

merge-Fits :
    (config : ChunkingConfig) (fragments : List Text) (current : Text)
    → length current ≤ limit config
    → All (Fits config.chunk_size) fragments
    → All (Fits (limit config)) (merge_with_overlap config current fragments)
unfolding merge_with_overlap
merge-Fits config [] [] h k = tt
merge-Fits config [] (c ∷ cs) h k = (h, tt)
merge-Fits config (fragment ∷ fragments) current h k =
    let (out, next) = merge_step-Fits config current fragment h k.0 in
    All-append _ _ _ out (merge-Fits config fragments _ next k.1)

pub enumerate-All :
    (P : Text → Type 0) (i : ℕ) (ts : List Text) → All P ts → All (λ p. P p.text) (enumerate i ts)
unfolding enumerate
enumerate-All P i [] h = tt
enumerate-All P i (t ∷ ts) h = (h.0, enumerate-All P (i + 1) ts h.1)

get_elem?-enumerate :
    (i n : ℕ) (ts : List Text) (p : TextPiece)
    → get_elem? (enumerate i ts) n ≡ some p
    → p.ordinal ≡ i + n
unfolding enumerate
get_elem?-enumerate i n [] p h = absurd (ground arith)
get_elem?-enumerate i zero (t ∷ ts) p h = ground arith
get_elem?-enumerate i (suc n) (t ∷ ts) p h = omega (arith, get_elem?-enumerate (i + 1) n ts p h)

-- With a configuration that passes its checks, no piece of a text is longer than the chunk size plus
-- the overlap plus one.
pub split_bounded :
    (size overlap : ℤ) (config : ChunkingConfig) (text : Text)
    → chunking_config size overlap ≡ ok config
    → All (λ p. length p.text ≤ config.chunk_size + config.chunk_overlap + 1) (split config text)
unfolding split
split_bounded size overlap config text h =
    let valid = chunking_config-IsConfig size overlap config h in
    elim (Bool-cases (is_empty (strip text))) [
      | inl e ↦ rw e tt
      | inr e ↦ rw e (
          enumerate-All (Fits (limit config)) 0 _ (
            merge-Fits config _ [] (omega arith)
              (recursive_split-Fits config.chunk_size separators (strip text) valid.positive tt)))
    ]

-- The pieces of a text are numbered by their positions, from 0.
pub split_ordinals :
    (config : ChunkingConfig) (text : Text) (n : ℕ) (p : TextPiece)
    → get_elem? (split config text) n ≡ some p
    → p.ordinal ≡ n
unfolding split
split_ordinals config text n p h = elim (Bool-cases (is_empty (strip text))) [
  | inl e ↦ absurd (ground (arith, rw e at h))
  | inr e ↦ omega (arith, get_elem?-enumerate 0 n _ p (rw e at h))
]
