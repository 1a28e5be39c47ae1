-- ===== src/Ingestion/Chunking.antt =====
-- src/eka/modules/ingestion/domain/chunking.py: the recursive character chunker.
pub mod Bounds
pub mod FirstFragment
pub mod NonBlank
use eka_knowledge_assistant.Prelude.{
  ℕ, zero, suc, ◌+◌, ◌-◌, ◌*◌, ◌/◌, ◌%◌, ◌^◌, ◌≤◌, ◌<◌, min, max, String, ◌≡◌, refl, sym, ap, ◌∙◌,
  subst, ◌≢◌, ◌↔◌, ◌⊎◌, inl, inr, Bool, true, false, ◌&&◌, ◌||◌, not, Option, none, some, List, [],
  ◌∷◌, ◌++◌, map, arith, ltb, leb, ◌==◌, if◌then◌else◌, ltb→lt, lt→ltb, leb→le, le→leb, ==_iff,
  ==_refl, Bool-cases, Option-cases, &&-eq-true, length, is_empty, take, drop, get_elem?, filter,
  any, find?, All, length-append, length-take, length-drop, length-map, take-append-drop,
  All-append, All-append_left, All-append_right, All-take, All-drop, All-filter, All-of, All-mono,
  All-apply, filter-All, filter-append, filter-eq-nil, All-of_filter, any-eq-false, any_of_All,
  unique, unique-All, unique-map, unique-snoc, any_self, any-map, All-map, KeepsItems,
  KeepsItems-All, Text, codes, text_eq, is_space, lstrip, rstrip, strip, is_blank, text_eq→eq,
  text_eq_refl, text_eq_iff, length-lstrip-le, length-rstrip-le, length-strip-le, strip_idem,
  rstrip-strip, strip-eq-nil_iff, ℤ, pos, negsuc, pos_part, neg_part, ltb_ℤ, Exception,
  validation_error, invariant_violation, state_transition_error, not_found_error, conflict_error,
  authentication_error, content_missing_error, value_error, key_error, integrity_error, data_error,
  multiple_results_found, other_exception, Result, ok, err, Action, and_then, map_result,
  bind_result, ◌>>=◌, ◌>>◌, bind_result-eq-ok, map_result-eq-ok, Result-cases, pure, raise, lift,
  gets, modify,
}

pub record ChunkingConfig : Type 0 where
  pub chunk_size : ℕ
  pub chunk_overlap : ℕ

unfoldable pub chunking_config : ℤ → ℤ → Result ChunkingConfig
chunking_config size overlap =
    if ltb_ℤ size (pos 1)
    then err (validation_error "chunk_size must be positive")
    else if ltb_ℤ overlap (pos 0) || not (ltb_ℤ overlap size)
    then err (validation_error "chunk_overlap must be in [0, chunk_size)")
    else ok (record { chunk_size = pos_part size; chunk_overlap = pos_part overlap })

pub record TextPiece : Type 0 where
  pub ordinal : ℕ
  pub text : Text

abbrev pub separators : List Text
separators = (10 ∷ 10 ∷ []) ∷ (10 ∷ []) ∷ (46 ∷ 32 ∷ []) ∷ (32 ∷ []) ∷ [] ∷ []

-- s.startswith(p)
unfoldable pub is_prefix : Text → Text → Bool
is_prefix [] s = true
is_prefix (c ∷ p) [] = false
is_prefix (c ∷ p) (d ∷ s) = c == d && is_prefix p s

abbrev pub cons_head : ℕ → List Text → List Text
cons_head c [] = (c ∷ []) ∷ []
cons_head c (part ∷ parts) = (c ∷ part) ∷ parts

-- The number counts the characters of a separator that are still to be skipped.
unfoldable pub split_from : Text → ℕ → Text → List Text
split_from sep n [] = [] ∷ []
split_from sep (suc k) (c ∷ s) = split_from sep k s
split_from sep zero (c ∷ s) = elim (is_prefix sep (c ∷ s)) [
  | true ↦ [] ∷ split_from sep (length sep - 1) s
  | false ↦ cons_head c (split_from sep 0 s)
]

-- text.split(sep), or list(text) when the separator is empty.
unfoldable pub parts : Text → Text → List Text
parts [] text = map (λ c. c ∷ []) text
parts (c ∷ sep) text = split_from (c ∷ sep) 0 text

abbrev pub is_newline_separator : Text → Bool
is_newline_separator sep = text_eq sep (10 ∷ 10 ∷ []) || text_eq sep (10 ∷ [])

unfoldable pub piece : Text → Text → Text
piece [] part = part
piece (c ∷ sep) part =
    let whole = part ++ c ∷ sep in if is_newline_separator (c ∷ sep) then rstrip whole else whole

abbrev pub concat_map : (Text → List Text) → List Text → List Text
concat_map f [] = []
concat_map f (x ∷ xs) = f x ++ concat_map f xs

abbrev pub keep_short : ℕ → Text → List Text → List Text
keep_short size s longer = if is_empty s then [] else if ltb size (length s) then longer else s ∷ []

-- The separators are those from `sep_index` on.
unfoldable pub recursive_split : ℕ → List Text → Text → List Text
recursive_split size [] text = text ∷ []
recursive_split size (sep ∷ seps) text =
    let pieces =
      concat_map
        (λ part. keep_short size (piece sep part) (recursive_split size seps (piece sep part)))
        (parts sep text) in
    if leb (length text) size then text ∷ [] else pieces

-- text[-overlap:]
unfoldable pub tail : ℕ → Text → Text
tail overlap text = if overlap == 0 then [] else drop (length text - overlap) text

-- One turn of the loop: what is appended to `chunks`, and the new `current`.
unfoldable pub merge_step : ChunkingConfig → Text → Text → List Text × Text
merge_step config current fragment =
    let candidate = if is_empty current then fragment else strip (current ++ 32 ∷ fragment) in
    if leb (length candidate) config.chunk_size
    then ([], candidate)
    else if not (is_empty current)
    then (current ∷ [], strip (tail config.chunk_overlap current ++ 32 ∷ fragment))
    else (
      take config.chunk_size fragment ∷ [],
      drop (config.chunk_size - config.chunk_overlap) fragment,
    )

unfoldable pub merge_with_overlap : ChunkingConfig → Text → List Text → List Text
merge_with_overlap config current [] = if is_empty current then [] else current ∷ []
merge_with_overlap config current (fragment ∷ fragments) =
    let (appended, next) = merge_step config current fragment in
    appended ++ merge_with_overlap config next fragments

unfoldable pub enumerate : ℕ → List Text → List TextPiece
enumerate i [] = []
enumerate i (t ∷ ts) = record { ordinal = i; text = t } ∷ enumerate (i + 1) ts

unfoldable pub split : ChunkingConfig → Text → List TextPiece
split config text =
    let normalized = strip text in
    if is_empty normalized
    then []
    else enumerate 0
        (merge_with_overlap config [] (recursive_split config.chunk_size separators normalized))
