-- ===== src/Ingestion/Embedding.antt =====
-- src/eka/modules/ingestion/infrastructure/embedding.py, the feature-hashing embedder, and
-- Embedding.cosine_similarity of domain/embedding.py. `lower` is str.lower, and `sha1` the bytes of
-- the SHA-1 digest of a text's UTF-8 form, which are 20.
use eka_knowledge_assistant.Prelude.{
  ℕ, zero, suc, ◌+◌, ◌*◌, ◌%◌, ◌<◌, ◌≡◌, refl, ◌∙◌, inl, inr, not, Option, none, some, List, [],
  ◌∷◌, map, arith, ◌==◌, if◌then◌else◌, Bool-cases, length, take, get_elem?, All, length-map, Text,
  ℤ, pos, pos_part, ltb_ℤ, validation_error, value_error, other_exception, Result, ok, err,
  bind_result, map_result,
}
use native.Mathlib.Nat.{mod-lt, zero-lt-suc}
use eka_knowledge_assistant.Shared.Builtins.{Floats, find_tokens}
use eka_knowledge_assistant.Ingestion.Chunks.{Embedding, embedding, dimension, collect}

pub record HashingEmbeddingModel : Type 0 where
  pub dimension : ℕ

-- The constructor.
unfoldable pub hashing_embedding_model : ℤ → Result HashingEmbeddingModel
hashing_embedding_model d =
    if ltb_ℤ (pos 0) d then ok (record { dimension = pos_part d }) else err value_error

-- int.from_bytes(…, "big") after the bytes that make `n`.
unfoldable pub from_bytes : ℕ → List ℕ → ℕ
from_bytes n [] = n
from_bytes n (b ∷ bs) = from_bytes (256 * n + b) bs

module _ {F : Type 0} (floats : Floats F) where
  unfoldable pub zeros : ℕ → List F
  zeros zero = []
  zeros (suc n) = floats.of_nat 0 ∷ zeros n

  -- vector[index] += sign
  unfoldable pub add_at : ℕ → F → List F → Result (List F)
  add_at i sign [] = err (other_exception "IndexError")
  add_at zero sign (v ∷ vs) = ok (floats.add v sign ∷ vs)
  add_at (suc i) sign (v ∷ vs) = map_result (λ ws. v ∷ ws) (add_at i sign vs)

  unfoldable pub sum_products : F → List F → List F → F
  sum_products total [] ys = total
  sum_products total (x ∷ xs) [] = total
  sum_products total (x ∷ xs) (y ∷ ys) = sum_products (floats.add total (floats.mul x y)) xs ys

  abbrev pub norm : List F → F
  norm vs = floats.sqrt (sum_products (floats.of_nat 0) vs vs)

  abbrev minus_one : F
  minus_one = floats.sub (floats.of_nat 0) (floats.of_nat 1)

  -- digest[4] & 1
  abbrev sign_of : Option ℕ → Result F
  sign_of none = err (other_exception "IndexError")
  sign_of (some b) = ok (if b % 2 == 1 then floats.of_nat 1 else minus_one)

  -- vector[0] = 1.0, norm = 1.0, and the division by the norm.
  abbrev normalized : List F → List F
  normalized [] = []
  normalized (v ∷ vs) =
      let one = floats.of_nat 1 in
      if floats.is_zero (norm (v ∷ vs))
      then map (λ x. floats.div x one) (one ∷ vs)
      else map (λ x. floats.div x (norm (v ∷ vs))) (v ∷ vs)

  module _ (lower : Text → Text) (sha1 : Text → List ℕ) (model : HashingEmbeddingModel) where
    -- The loop over the tokens.
    unfoldable pub add_tokens : List Text → List F → Result (List F)
    add_tokens [] vector = ok vector
    add_tokens (token ∷ ts) vector =
        let digest = sha1 token in
        let index = from_bytes 0 (take 4 digest) % model.dimension in
        bind_result (sign_of (get_elem? digest 4))
          λ sign. bind_result (add_at index sign vector) λ added. add_tokens ts added

    -- HashingEmbeddingModel._embed_one
    unfoldable pub embed_one : Text → Result (Embedding F)
    embed_one text =
        bind_result (add_tokens (find_tokens (lower text)) (zeros model.dimension))
          λ vector. embedding (normalized vector)

    -- HashingEmbeddingModel.embed
    unfoldable pub embed : List Text → Result (List (Embedding F))
    embed texts = collect embed_one texts

  -- Embedding.cosine_similarity
  unfoldable pub cosine_similarity : Embedding F → Embedding F → Result F
  cosine_similarity a b =
      if not (dimension a == dimension b)
      then err (validation_error "cannot compare embeddings of different dimensions")
      else (let product = floats.mul (norm a.values) (norm b.values) in
          let dot = sum_products (floats.of_nat 0) a.values b.values in
          ok (if floats.is_zero product then floats.of_nat 0 else floats.div dot product))

length-zeros : {F : Type 0} (floats : Floats F) (n : ℕ) → length (zeros floats n) ≡ n
unfolding zeros
length-zeros floats zero = refl
length-zeros floats (suc n) = ground (arith, length-zeros floats n)

-- An index below the length of the vector.
add_at-ok :
    {F : Type 0} (floats : Floats F) (i : ℕ) (sign : F) (vs : List F)
    → i < length vs
    → (ws : List F) × (add_at floats i sign vs ≡ ok ws) × (length ws ≡ length vs)
unfolding add_at
add_at-ok floats i sign [] h = absurd (omega arith)
add_at-ok floats zero sign (v ∷ vs) h = (floats.add v sign ∷ vs, refl, refl)
add_at-ok floats (suc i) sign (v ∷ vs) h =
    let (ws, e, l) = add_at-ok floats i sign vs (omega arith) in
    (v ∷ ws, rw e refl, ground (arith, l))

-- The remainder of a division by the dimension is an index of the vector.
remainder_below : (a d n : ℕ) → 0 < d → n ≡ d → a % d < n
remainder_below a zero n h e = absurd (omega arith)
remainder_below a (suc d) n h e = omega (arith, mod-lt a (zero-lt-suc d), e)

length-normalized :
    {F : Type 0} (floats : Floats F) (vs : List F) → length (normalized floats vs) ≡ length vs
length-normalized floats [] = refl
length-normalized floats (v ∷ vs) = elim (Bool-cases (floats.is_zero (norm floats (v ∷ vs)))) [
  | inl e ↦ rw e (ground (arith, length-map (λ x. floats.div x (floats.of_nat 1)) vs))
  | inr e ↦ rw e (ground (arith, length-map (λ x. floats.div x (norm floats (v ∷ vs))) vs))
]

get_elem?_below :
    {A : Type 0} (n : ℕ) (xs : List A) → n < length xs → (x : A) × (get_elem? xs n ≡ some x)
get_elem?_below n [] h = absurd (omega arith)
get_elem?_below zero (x ∷ xs) h = (x, refl)
get_elem?_below (suc n) (x ∷ xs) h = get_elem?_below n xs (omega arith)

module _ {F : Type 0} (floats : Floats F) (lower : Text → Text) (sha1 : Text → List ℕ)
    (sha1_size : (t : Text) → length (sha1 t) ≡ 20) (model : HashingEmbeddingModel) where
  add_tokens-ok :
      (ts : List Text) (vector : List F)
      → 0 < model.dimension
      → length vector ≡ model.dimension
      → (r : List F) × (add_tokens floats lower sha1 model ts vector ≡ ok r)
        × (length r ≡ length vector)
  unfolding add_tokens
  add_tokens-ok [] vector d n = (vector, refl, refl)
  add_tokens-ok (t ∷ ts) vector d n =
      let (b, e) = get_elem?_below 4 (sha1 t) (omega (arith, sha1_size t)) in
      let index = from_bytes 0 (take 4 (sha1 t)) % model.dimension in
      let sign = if b % 2 == 1 then floats.of_nat 1 else minus_one floats in
      let below = remainder_below (from_bytes 0 (take 4 (sha1 t))) model.dimension _ d n in
      let (added, a, l) = add_at-ok floats index sign vector below in
      let (r, p, q) = add_tokens-ok ts added d (l ∙ n) in (r, rw e (rw a p), q ∙ l)

  embedding-ok : (vs : List F) → 0 < length vs → embedding vs ≡ ok (record { values = vs })
  unfolding embedding
  embedding-ok [] h = absurd (omega arith)
  embedding-ok (v ∷ vs) h = refl

  embed_one-ok :
      (text : Text)
      → 0 < model.dimension
      → (e : Embedding F) × (embed_one floats lower sha1 model text ≡ ok e)
        × (dimension e ≡ model.dimension)
  unfolding embed_one dimension
  embed_one-ok text h =
      let (r, p, q) =
        add_tokens-ok (find_tokens (lower text)) (zeros floats model.dimension) h
          (length-zeros floats model.dimension) in
      let size = length-normalized floats r ∙ q ∙ length-zeros floats model.dimension in
      (record { values = normalized floats r }, rw p (embedding-ok _ (omega arith)), size)

  -- If the digests have 20 bytes and the dimension is positive, every list of texts is embedded without
  -- an error, one embedding for a text, each of the model's dimension.
  pub embed-HasDimension :
      (texts : List Text)
      → 0 < model.dimension
      → (es : List (Embedding F)) × (embed floats lower sha1 model texts ≡ ok es)
        × (length es ≡ length texts)
        × All (λ e. dimension e ≡ model.dimension) es
  unfolding embed
  embed-HasDimension [] h = ([], refl, refl, tt)
  embed-HasDimension (t ∷ ts) h =
      let (e, p, q) = embed_one-ok t h in
      let (es, r, s, u) = embed-HasDimension ts h in
      (e ∷ es, simp (p, r) refl, ground arith, (q, u))
