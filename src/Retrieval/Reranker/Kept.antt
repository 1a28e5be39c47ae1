-- ===== src/Retrieval/Reranker/Kept.antt =====
-- What a reranking returns.
use eka_knowledge_assistant.Prelude.{
  ℕ, zero, suc, ◌≡◌, refl, ap, ◌∙◌, inl, inr, Bool, true, false, if◌then◌else◌, is_empty, List, [],
  ◌∷◌, map, Bool-cases, length, filter, take, codes, Text,
}
use eka_knowledge_assistant.Shared.Builtins.{
  Floats, insert_desc, sorted_desc, find_tokens, to_set, intersection, split_words, join,
}
use eka_knowledge_assistant.Retrieval.Search.{ScoredChunk}
use eka_knowledge_assistant.Retrieval.Reranker.{
  contains, lowest, highest, coverage, final_score, rescored, rerank,
}

module _ {A : Type 0} (lt : A → A → Bool) where
  -- No element is below the next.
  abbrev pub Descends : List A → Type 0
  Descends [] = Unit {0}
  Descends (x ∷ []) = Unit {0}
  Descends (x ∷ y ∷ ys) = (lt x y ≡ false) × Descends (y ∷ ys)

  pub take-Descends : (n : ℕ) (xs : List A) → Descends xs → Descends (take n xs)
  take-Descends zero xs h = tt
  take-Descends (suc n) [] h = tt
  take-Descends (suc zero) (x ∷ xs) h = tt
  take-Descends (suc (suc n)) (x ∷ []) h = tt
  take-Descends (suc (suc n)) (x ∷ y ∷ ys) h = (h.0, take-Descends (suc n) (y ∷ ys) h.1)

  insert_desc-count :
      (p : A → Bool) (x : A) (ys : List A)
      → length (filter p (insert_desc lt x ys)) ≡ length (filter p (x ∷ ys))
  unfolding insert_desc
  insert_desc-count p x [] = refl
  insert_desc-count p x (y ∷ ys) = elim (Bool-cases (lt x y)) [
    | inr e ↦ rw e refl
    | inl e ↦ rw e (elim (Bool-cases (p y)) [
      | inl i ↦ rw i (elim (Bool-cases (p x)) [
        | inl k ↦ rw k (ap suc (insert_desc-count p x ys ∙ rw k refl))
        | inr k ↦ rw k (ap suc (insert_desc-count p x ys ∙ rw k refl))
      ])
      | inr i ↦ rw i (insert_desc-count p x ys)
    ])
  ]

  -- A sort has each element as often as its list.
  pub sorted_desc-count :
      (p : A → Bool) (xs : List A) → length (filter p (sorted_desc lt xs)) ≡ length (filter p xs)
  unfolding sorted_desc
  sorted_desc-count p [] = refl
  sorted_desc-count p (x ∷ xs) =
      insert_desc-count p x (sorted_desc lt xs) ∙ elim (Bool-cases (p x)) [
        | inl e ↦ rw e (ap suc (sorted_desc-count p xs))
        | inr e ↦ rw e (sorted_desc-count p xs)
      ]

  module _ (asym : (a b : A) → lt a b ≡ true → lt b a ≡ false) where
    insert_desc-Descends : (x : A) (ys : List A) → Descends ys → Descends (insert_desc lt x ys)
    unfolding insert_desc
    insert_desc-Descends x [] h = tt
    insert_desc-Descends x (y ∷ []) h = elim (Bool-cases (lt x y)) [
      | inl e ↦ rw e (asym x y e, tt)
      | inr e ↦ rw e (e, tt)
    ]
    insert_desc-Descends x (y ∷ z ∷ r) h = elim (Bool-cases (lt x y)) [
      | inr e ↦ rw e (e, h)
      | inl e ↦
          let rest = insert_desc-Descends x (z ∷ r) h.1 in
          rw e (elim (Bool-cases (lt x z)) [
            | inl k ↦ rw k (h.0, rw k at rest)
            | inr k ↦ rw k (asym x y e, (k, h.1))
          ])
    ]

    pub sorted_desc-Descends : (xs : List A) → Descends (sorted_desc lt xs)
    unfolding sorted_desc
    sorted_desc-Descends [] = tt
    sorted_desc-Descends (x ∷ xs) = insert_desc-Descends x _ (sorted_desc-Descends xs)

module _ {F : Type 0} (floats : Floats F) (lower : Text → Text) (query_text : Text) where
  -- The least and the greatest of a value and others.
  abbrev pub least : F → List F → F
  least low [] = low
  least low (s ∷ ss) = least (if floats.lt s low then s else low) ss

  abbrev pub greatest : F → List F → F
  greatest high [] = high
  greatest high (s ∷ ss) = greatest (if floats.lt high s then s else high) ss

  abbrev pub score_of : ScoredChunk F → F
  score_of c = c.score

  lowest-least :
      (low : F) (cs : List (ScoredChunk F))
      → lowest floats lower low cs ≡ least low (map score_of cs)
  unfolding lowest
  lowest-least low [] = refl
  lowest-least low (c ∷ cs) = lowest-least (if floats.lt c.score low then c.score else low) cs

  highest-greatest :
      (high : F) (cs : List (ScoredChunk F))
      → highest floats lower high cs ≡ greatest high (map score_of cs)
  unfolding highest
  highest-greatest high [] = refl
  highest-greatest high (c ∷ cs) =
      highest-greatest (if floats.lt high c.score then c.score else high) cs

  abbrev pub words : Text → List Text
  words text = to_set (find_tokens (lower text))

  -- Where the score stands in the range of the scores.
  abbrev pub base_part : F → F → F → F
  base_part low span score =
      if floats.is_zero span then floats.of_nat 0 else floats.div (floats.sub score low) span

  -- The share of the query's words that the text has.
  abbrev pub coverage_part : Text → F
  coverage_part text =
      if is_empty (words query_text)
      then floats.of_nat 0
      else floats.div (floats.of_nat (length (intersection (words query_text) (words text))))
          (floats.of_nat (length (words query_text)))

  abbrev pub phrase_part : Text → F
  phrase_part text =
      if contains (join (codes " ") (split_words (lower query_text))) (lower text)
      then floats.of_nat 1
      else floats.of_nat 0

  abbrev pub tenth : ℕ → F → F
  tenth n x = floats.mul (floats.div (floats.of_nat n) (floats.of_nat 10)) x

  -- The score after reranking: three tenths for the rank, six for the words and one for the phrase.
  abbrev pub reranked_score : F → F → ScoredChunk F → F
  reranked_score low span c =
      floats.add
        (floats.add (tenth 3 (base_part low span c.score)) (tenth 6 (coverage_part c.text)))
        (tenth 1 (phrase_part c.text))

  abbrev pub with_score : F → F → ScoredChunk F → ScoredChunk F
  with_score low span c = record c { score = reranked_score low span c }

  -- The candidates with their new scores.
  abbrev pub reranked : List (ScoredChunk F) → List (ScoredChunk F)
  reranked [] = []
  reranked (c ∷ cs) =
      let low = least c.score (map score_of cs) in
      let span = floats.sub (greatest c.score (map score_of cs)) low in
      map (with_score low span) (c ∷ cs)

  abbrev pub below : ScoredChunk F → ScoredChunk F → Bool
  below a b = floats.lt a.score b.score

  -- All the candidates with their new scores, each as often as before, from the best score on; and the
  -- results are the first of them.
  pub record IsReranked (candidates : List (ScoredChunk F)) (top_k : ℕ)
      (results : List (ScoredChunk F)) : Type 0 where
    pub all : List (ScoredChunk F)
    pub same_items :
        (p : ScoredChunk F → Bool) → length (filter p all) ≡ length (filter p (reranked candidates))
    pub descending : Descends below all
    pub best : results ≡ take top_k all

  scored-reranked :
      (c : ScoredChunk F) (cs : List (ScoredChunk F))
      → let low = lowest floats lower c.score cs in
        let span = floats.sub (highest floats lower c.score cs) low in
        map (rescored floats lower query_text low span) (c ∷ cs) ≡ reranked (c ∷ cs)
  unfolding final_score coverage
  scored-reranked c cs =
      let high = highest floats lower c.score cs in
      let low = least c.score (map score_of cs) in
      ap (λ x. map (rescored floats lower query_text x (floats.sub high x)) (c ∷ cs))
        (lowest-least c.score cs)
      ∙ ap (λ x. map (rescored floats lower query_text low (floats.sub x low)) (c ∷ cs))
          (highest-greatest c.score cs)

  -- If no float is below another that is below it, a reranking returns the first `top_k` of the
  -- candidates, each as often as before, in the order of their new scores, where no score is below the
  -- next; the new score adds up three tenths of the candidate's place in the range of the scores, six
  -- tenths of the share of the query's words that its text has, and one tenth if it has the query's
  -- phrase.
  pub rerank-IsReranked :
      (candidates : List (ScoredChunk F)) (top_k : ℕ)
      → ((a b : F) → floats.lt a b ≡ true → floats.lt b a ≡ false)
      → IsReranked candidates top_k (rerank floats lower query_text candidates top_k)
  unfolding rerank
  rerank-IsReranked [] zero asym = record {
    all = [];
    same_items = λ p. refl;
    descending = tt;
    best = refl;
  }
  rerank-IsReranked [] (suc n) asym = record {
    all = [];
    same_items = λ p. refl;
    descending = tt;
    best = refl;
  }
  rerank-IsReranked (c ∷ cs) top_k asym = record {
    all = sorted_desc below (reranked (c ∷ cs));
    same_items = λ p. sorted_desc-count below p (reranked (c ∷ cs));
    descending = sorted_desc-Descends below (λ a b h. asym a.score b.score h) (reranked (c ∷ cs));
    best = ap (λ xs. take top_k (sorted_desc below xs)) (scored-reranked c cs);
  }
