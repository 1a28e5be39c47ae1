-- ===== src/Ingestion/Chunking/NonBlank.antt =====
-- No chunk is blank: the first fragment of a stripped text is not, and from then on the text that
-- is being packed is never blank.
use eka_knowledge_assistant.Prelude.{
  ℕ, suc, ◌+◌, ◌-◌, ◌<◌, ◌≡◌, refl, sym, ap, ◌∙◌, inl, inr, false, List, [], ◌∷◌, ◌++◌, arith, leb,
  ◌==◌, if◌then◌else◌, leb→le, le→leb, Bool-cases, length, is_empty, All, length-append, All-append,
  Text, is_space, rstrip, strip, is_blank, rstrip-strip, strip-eq-nil_iff, blank-append,
  blank-strip, blank-drop, length-strip_space, length-strip-append, strip_head, ℤ, ok,
}
use mathlib.Core.Bool.{false≢true}
use eka_knowledge_assistant.Ingestion.Chunking.{
  ChunkingConfig, chunking_config, separators, recursive_split, tail, merge_step,
  merge_with_overlap, enumerate, split,
}
use eka_knowledge_assistant.Ingestion.Chunking.Bounds.{
  IsConfig, chunking_config-IsConfig, Fits, recursive_split-Fits, enumerate-All,
}
use eka_knowledge_assistant.Ingestion.Chunking.FirstFragment.{
  FirstBegins, recursive_split-FirstBegins,
}

-- What the loop keeps of `current` after the first fragment: it is not blank, and it is longer than
-- the chunk size only when it was stripped and there is an overlap.
record IsPacked (config : ChunkingConfig) (current : Text) : Type 0 where
  some_text : is_blank current ≡ false
  long :
      config.chunk_size < length current → (rstrip current ≡ current) × (0 < config.chunk_overlap)

short-IsPacked :
    (config : ChunkingConfig) (t : Text)
    → is_blank t ≡ false
    → Fits config.chunk_size t
    → IsPacked config t
short-IsPacked config t h k = record { some_text = h; long = λ l. absurd (omega arith) }

blank_space : (s : Text) → is_blank (32 ∷ s) ≡ is_blank s
unfolding is_blank is_space
blank_space s = refl

blank_right : (s t : Text) → is_blank t ≡ false → is_blank (s ++ t) ≡ false
blank_right s t h = rw (blank-append s t) (ground (arith, h))

blank_left : (s t : Text) → is_blank s ≡ false → is_blank (s ++ t) ≡ false
blank_left s t h = rw (blank-append s t) (ground (arith, h))

-- The end of a text that is longer than the chunk size is not blank.
tail_some_text :
    (config : ChunkingConfig) (t : Text)
    → 0 < config.chunk_size
    → config.chunk_size < length t
    → IsPacked config t
    → is_blank (tail config.chunk_overlap t) ≡ false
unfolding tail
tail_some_text config t h l packed =
    let (ended, overlaps) = packed.long l in
    elim (Bool-cases (config.chunk_overlap == 0)) [
      | inl e ↦ absurd (ground arith)
      | inr e ↦ rw e (blank-drop (length t - config.chunk_overlap) t ended (omega arith))
    ]

-- What starts the next chunk after `current` is emitted.
abbrev restart : ChunkingConfig → Text → Text → Text
restart config current fragment = strip (tail config.chunk_overlap current ++ 32 ∷ fragment)

restart_some_text :
    (config : ChunkingConfig) (current fragment : Text)
    → 0 < config.chunk_size
    → config.chunk_size < length (strip (current ++ 32 ∷ fragment))
    → IsPacked config current
    → is_blank (restart config current fragment) ≡ false
restart_some_text config current fragment h l packed =
    blank-strip _ (elim (Bool-cases (is_blank fragment)) [
      | inl e ↦ blank_left (tail config.chunk_overlap current) (32 ∷ fragment) (
          tail_some_text config current h
            (omega (arith, length-strip-append current (32 ∷ fragment) (blank_space fragment ∙ e)))
            packed)
      | inr e ↦
          blank_right (tail config.chunk_overlap current) (32 ∷ fragment) (blank_space fragment ∙ e)
    ])

restart-IsPacked :
    (config : ChunkingConfig) (current fragment : Text)
    → 0 < config.chunk_size
    → Fits config.chunk_size fragment
    → config.chunk_size < length (strip (current ++ 32 ∷ fragment))
    → IsPacked config current
    → IsPacked config (restart config current fragment)
unfolding tail
restart-IsPacked config current fragment h k l packed = record {
  some_text = restart_some_text config current fragment h l packed;
  long = λ longer. (
    rstrip-strip _,
    elim (Bool-cases (config.chunk_overlap == 0)) [
      | inl e ↦ absurd (omega (arith, length-strip_space fragment, rw e at longer))
      | inr e ↦ ground arith
    ],
  );
}

merge_step-IsPacked :
    (config : ChunkingConfig) (c : ℕ) (cs fragment : Text)
    → 0 < config.chunk_size
    → Fits config.chunk_size fragment
    → IsPacked config (c ∷ cs)
    → All (λ t. is_blank t ≡ false) (merge_step config (c ∷ cs) fragment).0
      × IsPacked config (merge_step config (c ∷ cs) fragment).1
unfolding merge_step
merge_step-IsPacked config c cs fragment h k packed =
    let candidate = strip ((c ∷ cs) ++ 32 ∷ fragment) in
    elim (Bool-cases (leb (length candidate) config.chunk_size)) [
      | inl e ↦ rw e (
        tt,
        short-IsPacked config candidate
            (blank-strip _ (blank_left (c ∷ cs) (32 ∷ fragment) packed.some_text)) (leb→le _ _ e),
      )
      | inr e ↦ rw e (
        (packed.some_text, tt),
        restart-IsPacked config (c ∷ cs) fragment h k (ground arith) packed,
      )
    ]

merge_some_text :
    (config : ChunkingConfig) (fragments : List Text) (current : Text)
    → 0 < config.chunk_size
    → All (Fits config.chunk_size) fragments
    → IsPacked config current
    → All (λ t. is_blank t ≡ false) (merge_with_overlap config current fragments)
unfolding merge_with_overlap
merge_some_text config [] [] h k packed = tt
merge_some_text config [] (c ∷ cs) h k packed = (packed.some_text, tt)
merge_some_text config (fragment ∷ fragments) [] h k packed =
    absurd (false≢true (sym packed.some_text ∙ unfold is_blank in refl))
merge_some_text config (fragment ∷ fragments) (c ∷ cs) h k packed =
    let (out, next) = merge_step-IsPacked config c cs fragment h k.0 packed in
    All-append _ _ _ out (merge_some_text config fragments _ h k.1 next)

-- The first turn of the loop takes the first fragment as it is.
merge_start :
    (config : ChunkingConfig) (c : ℕ) (fragments : List Text)
    → 0 < config.chunk_size
    → is_space c ≡ false
    → FirstBegins c fragments
    → All (Fits config.chunk_size) fragments
    → All (λ t. is_blank t ≡ false) (merge_with_overlap config [] fragments)
unfolding merge_with_overlap merge_step
merge_start config c [] h s b k = elim b [ ]
merge_start config c ([] ∷ fragments) h s b k = elim b [ ]
merge_start config c ((d ∷ t) ∷ fragments) h s b k =
    rw (le→leb (length (d ∷ t)) config.chunk_size k.0) (
      merge_some_text config fragments (d ∷ t) h k.1
        (short-IsPacked config (d ∷ t) (unfold is_blank in rw (ap is_space b ∙ s) refl) k.0))

-- With a configuration that passes its checks, no piece of a text is blank.
pub split_some_text :
    (size overlap : ℤ) (config : ChunkingConfig) (text : Text)
    → chunking_config size overlap ≡ ok config
    → All (λ p. is_blank p.text ≡ false) (split config text)
unfolding split
split_some_text size overlap config text h = go (strip text) refl
  where
    valid : IsConfig config
    valid = chunking_config-IsConfig size overlap config h

    go :
        (t : Text)
        → strip text ≡ t
        → All
            (λ p. is_blank p.text ≡ false)
            (if is_empty t
              then []
              else enumerate 0
                  (merge_with_overlap config [] (recursive_split config.chunk_size separators t)))
    go [] e = tt
    go (c ∷ s) e =
        let head = strip_head c s text e in
        enumerate-All (λ t. is_blank t ≡ false) 0 _
          (merge_start config c _ valid.positive head
            (recursive_split-FirstBegins config.chunk_size separators c (c ∷ s) head refl)
            (recursive_split-Fits config.chunk_size separators (c ∷ s) valid.positive tt))

-- What is packed is not lost: some chunk comes out.
merge_some :
    (config : ChunkingConfig) (fragments : List Text) (current : Text)
    → 0 < config.chunk_size
    → All (Fits config.chunk_size) fragments
    → IsPacked config current
    → 0 < length (merge_with_overlap config current fragments)
unfolding merge_with_overlap
merge_some config [] [] h k packed =
    absurd (false≢true (sym packed.some_text ∙ unfold is_blank in refl))
merge_some config [] (c ∷ cs) h k packed = omega arith
merge_some config (fragment ∷ fragments) [] h k packed =
    absurd (false≢true (sym packed.some_text ∙ unfold is_blank in refl))
merge_some config (fragment ∷ fragments) (c ∷ cs) h k packed =
    let (out, next) = merge_step-IsPacked config c cs fragment h k.0 packed in
    omega (
      arith,
      length-append (merge_step config (c ∷ cs) fragment).0
          (merge_with_overlap config (merge_step config (c ∷ cs) fragment).1 fragments),
      merge_some config fragments _ h k.1 next,
    )

merge_start_some :
    (config : ChunkingConfig) (c : ℕ) (fragments : List Text)
    → 0 < config.chunk_size
    → is_space c ≡ false
    → FirstBegins c fragments
    → All (Fits config.chunk_size) fragments
    → 0 < length (merge_with_overlap config [] fragments)
unfolding merge_with_overlap merge_step
merge_start_some config c [] h s b k = elim b [ ]
merge_start_some config c ([] ∷ fragments) h s b k = elim b [ ]
merge_start_some config c ((d ∷ t) ∷ fragments) h s b k =
    rw (le→leb (length (d ∷ t)) config.chunk_size k.0) (
      merge_some config fragments (d ∷ t) h k.1
        (short-IsPacked config (d ∷ t) (unfold is_blank in rw (ap is_space b ∙ s) refl) k.0))

length-enumerate : (i : ℕ) (ts : List Text) → length (enumerate i ts) ≡ length ts
unfolding enumerate
length-enumerate i [] = refl
length-enumerate i (t ∷ ts) = ap suc (length-enumerate (i + 1) ts)

-- A text that is not blank has some piece.
pub split_some_piece :
    (size overlap : ℤ) (config : ChunkingConfig) (text : Text)
    → chunking_config size overlap ≡ ok config
    → is_blank text ≡ false
    → 0 < length (split config text)
unfolding split
split_some_piece size overlap config text h k = go (strip text) refl
  where
    valid : IsConfig config
    valid = chunking_config-IsConfig size overlap config h

    go :
        (t : Text)
        → strip text ≡ t
        → 0
          < length (
              if is_empty t
              then []
              else enumerate 0
                  (merge_with_overlap config [] (recursive_split config.chunk_size separators t)))
    go [] e = absurd (false≢true (sym k ∙ (strip-eq-nil_iff text).0 e))
    go (c ∷ s) e =
        let head = strip_head c s text e in
        omega (
          arith,
          length-enumerate 0
              (merge_with_overlap config [] (recursive_split config.chunk_size separators (c ∷ s))),
          merge_start_some config c _ valid.positive head
              (recursive_split-FirstBegins config.chunk_size separators c (c ∷ s) head refl)
              (recursive_split-Fits config.chunk_size separators (c ∷ s) valid.positive tt),
        )
