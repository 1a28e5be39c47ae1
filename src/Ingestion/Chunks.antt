-- ===== src/Ingestion/Chunks.antt =====
-- src/eka/modules/ingestion: the embedding and chunk values (domain/embedding.py, domain/chunk.py),
-- the `chunks` and `document_contents` tables and their adapters (infrastructure/models.py,
-- infrastructure/repository.py). `F` is the type of Python's float.
pub mod Replaced
pub mod Constraints
use eka_knowledge_assistant.Prelude.{
  ℕ, Bool, ◌&&◌, ◌||◌, not, Option, none, some, List, [], ◌∷◌, ◌++◌, map, ◌==◌, if◌then◌else◌,
  length, is_empty, filter, any, unique, Text, strip, ℤ, pos, ltb_ℤ, eq_ℤ, validation_error,
  integrity_error, data_error, Result, ok, err, Action, map_result, bind_result, ◌>>◌,
}
use eka_knowledge_assistant.Shared.Transaction.{Session, reading, writing, scalar_one_or_none}
use eka_knowledge_assistant.Documents.Document.{Uuid, Instant}

pub record Embedding (F : Type 0) : Type 0 where
  pub values : List F

pub record ChunkText : Type 0 where
  pub value : Text

unfoldable pub chunk_text : Text → Result ChunkText
chunk_text value =
    if is_empty (strip value)
    then err (validation_error "chunk text must not be empty")
    else ok (record { value = value })

pub record Chunk (F : Type 0) : Type 0 where
  pub id : Uuid
  pub tenant_id : Uuid
  pub document_id : Uuid
  pub collection_id : Uuid
  pub document_version : ℕ
  pub ordinal : ℤ
  pub text : ChunkText
  pub embedding : Embedding F

pub record ChunkModel (F : Type 0) : Type 0 where
  pub id : Uuid
  pub tenant_id : Uuid
  pub document_id : Uuid
  pub collection_id : Uuid
  pub document_version : ℕ
  pub ordinal : ℤ
  pub text : Text
  pub embedding : List F
  pub created_at : Instant

pub record DocumentContentModel : Type 0 where
  pub document_id : Uuid
  pub tenant_id : Uuid
  pub text : Text
  pub created_at : Instant
  pub updated_at : Instant

-- The tables that one ingestion session writes.
pub record Store (F : Type 0) : Type 0 where
  pub chunks : List (ChunkModel F)
  pub contents : List DocumentContentModel

-- A list comprehension over calls that may raise.
abbrev pub collect : {A B : Type 0} → (A → Result B) → List A → Result (List B)
collect f [] = ok []
collect f (x ∷ xs) = bind_result (f x) λ y. bind_result (collect f xs) λ ys. ok (y ∷ ys)

-- INSERT … ON CONFLICT (document_id) DO UPDATE SET text, updated_at
abbrev pub put_row :
    Instant → Uuid → Uuid → Text → List DocumentContentModel → List DocumentContentModel
put_row now tenant_id document_id text [] =
    record {
      document_id = document_id;
      tenant_id = tenant_id;
      text = text;
      created_at = now;
      updated_at = now;
    }
    ∷ []
put_row now tenant_id document_id text (r ∷ rs) =
    let rest = put_row now tenant_id document_id text rs in
    if r.document_id == document_id
    then record r { text = text; updated_at = now } ∷ rs
    else r ∷ rest

unfoldable pub owns_content : Uuid → Uuid → DocumentContentModel → Bool
owns_content tenant_id document_id r = r.document_id == document_id && r.tenant_id == tenant_id

abbrev row_text : Option DocumentContentModel → Option Text
row_text none = none
row_text (some r) = some r.text

module _ {F : Type 0} where
  unfoldable pub embedding : List F → Result (Embedding F)
  embedding [] = err (validation_error "embedding must not be empty")
  embedding (x ∷ xs) = ok (record { values = x ∷ xs })

  unfoldable pub dimension : Embedding F → ℕ
  dimension e = length e.values

  -- The constructor of Chunk.
  unfoldable pub chunk :
      (id tenant_id document_id collection_id : Uuid) (document_version : ℕ) (ordinal : ℤ)
      → ChunkText
      → Embedding F
      → Result (Chunk F)
  chunk id tenant_id document_id collection_id document_version ordinal text embedding =
      if ltb_ℤ ordinal (pos 0)
      then err (validation_error "ordinal must be non-negative")
      else ok (record {
        id = id;
        tenant_id = tenant_id;
        document_id = document_id;
        collection_id = collection_id;
        document_version = document_version;
        ordinal = ordinal;
        text = text;
        embedding = embedding;
      })

  -- Chunk.create: the text is checked before the constructor runs.
  unfoldable pub create :
      (id tenant_id document_id collection_id : Uuid) (document_version : ℕ) (ordinal : ℤ)
      → Text
      → Embedding F
      → Result (Chunk F)
  create id tenant_id document_id collection_id document_version ordinal text embedding =
      bind_result (chunk_text text)
        λ t. chunk id tenant_id document_id collection_id document_version ordinal t embedding

  -- _to_domain
  unfoldable pub to_domain : ChunkModel F → Result (Chunk F)
  to_domain m = bind_result (chunk_text m.text) λ t.
      bind_result (embedding m.embedding)
        λ e. chunk m.id m.tenant_id m.document_id m.collection_id m.document_version m.ordinal t e

  unfoldable pub to_model : Instant → Chunk F → ChunkModel F
  to_model now c = record {
    id = c.id;
    tenant_id = c.tenant_id;
    document_id = c.document_id;
    collection_id = c.collection_id;
    document_version = c.document_version;
    ordinal = c.ordinal;
    text = c.text.value;
    embedding = c.embedding.values;
    created_at = now;
  }

  unfoldable pub owns_chunk : Uuid → Uuid → ChunkModel F → Bool
  owns_chunk tenant_id document_id m = m.tenant_id == tenant_id && m.document_id == document_id

  unfoldable pub delete_for_document : Uuid → Uuid → Action (Session (Store F)) (Unit {0})
  delete_for_document tenant_id document_id =
      writing
        λ s. record s { chunks = filter (λ m. not (owns_chunk tenant_id document_id m)) s.chunks }

  unfoldable pub replace_for_document :
      Instant → Uuid → Uuid → List (Chunk F) → Action (Session (Store F)) (Unit {0})
  unfolding delete_for_document
  replace_for_document now tenant_id document_id chunks =
      delete_for_document tenant_id document_id
      >> writing λ s. record s { chunks = s.chunks ++ map (to_model now) chunks }

  -- `order` is the database's sort by ordinal.
  unfoldable pub list_for_document :
      (List (ChunkModel F) → List (ChunkModel F))
      → Uuid
      → Uuid
      → Action (Session (Store F)) (List (Chunk F))
  list_for_document order tenant_id document_id =
      reading λ s. collect to_domain (order (filter (owns_chunk tenant_id document_id) s.chunks))

  unfoldable pub put : Instant → Uuid → Uuid → Text → Action (Session (Store F)) (Unit {0})
  put now tenant_id document_id text =
      writing λ s. record s { contents = put_row now tenant_id document_id text s.contents }

  unfoldable pub get_content : Uuid → Uuid → Action (Session (Store F)) (Option Text)
  get_content tenant_id document_id = reading λ s.
      map_result row_text
        (scalar_one_or_none (filter (owns_content tenant_id document_id) s.contents))

  -- The primary key, uq_chunks_document_ordinal and the dimension of the vector column.
  abbrev pub same_chunk : ChunkModel F → ChunkModel F → Bool
  same_chunk a b = a.id == b.id || (a.document_id == b.document_id && eq_ℤ a.ordinal b.ordinal)

  unfoldable pub check_store : Store F → Result (Unit {0})
  check_store s =
      if any (λ m. not (length m.embedding == 384)) s.chunks
      then err data_error
      else if unique same_chunk s.chunks
      then ok tt
      else err integrity_error
