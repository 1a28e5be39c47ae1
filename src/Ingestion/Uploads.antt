-- ===== src/Ingestion/Uploads.antt =====
-- src/eka/modules/ingestion/application/content.py: the upload of a document's content. The digest of
-- the encoded content is a parameter.
pub mod Accepted
pub mod Stored
use eka_knowledge_assistant.Prelude.{
  ℕ, zero, suc, ◌+◌, ◌-◌, ◌*◌, ◌/◌, ◌%◌, ◌^◌, ◌≤◌, ◌<◌, min, max, String, ◌≡◌, refl, sym, ap, ◌∙◌,
  subst, ◌≢◌, ◌↔◌, ◌⊎◌, inl, inr, Bool, true, false, ◌&&◌, ◌||◌, not, Option, none, some, List, [],
  ◌∷◌, ◌++◌, map, arith, ltb, leb, ◌==◌, if◌then◌else◌, ltb→lt, lt→ltb, leb→le, le→leb, ==_iff,
  ==_refl, Bool-cases, Option-cases, &&-eq-true, length, is_empty, take, drop, get_elem?, filter,
  any, find?, All, length-append, length-take, length-drop, length-map, take-append-drop,
  All-append, All-append_left, All-append_right, All-take, All-drop, All-filter, All-of, All-mono,
  All-apply, filter-All, filter-append, filter-eq-nil, All-of_filter, any-eq-false, any_of_All,
  unique, unique-All, unique-map, unique-snoc, any_self, any-map, All-map, KeepsItems,
  KeepsItems-All, Text, codes, text_eq, is_space, lstrip, rstrip, strip, is_blank, text_eq→eq,
  text_eq_refl, text_eq_iff, length-lstrip-le, length-rstrip-le, length-strip-le, strip_idem,
  rstrip-strip, strip-eq-nil_iff, ℤ, pos, negsuc, pos_part, neg_part, ltb_ℤ, eq_ℤ, Exception,
  validation_error, invariant_violation, state_transition_error, not_found_error, conflict_error,
  authentication_error, content_missing_error, value_error, key_error, integrity_error, data_error,
  multiple_results_found, other_exception, Result, ok, err, Action, and_then, map_result,
  bind_result, ◌>>=◌, ◌>>◌, bind_result-eq-ok, map_result-eq-ok, Result-cases, pure, raise, lift,
  gets, modify,
}
use eka_knowledge_assistant.Shared.Transaction.{commit, with_uow}
use eka_knowledge_assistant.Documents.Document.{Uuid, Instant}
use eka_knowledge_assistant.Documents.Commands.{DocumentDto}
use eka_knowledge_assistant.Documents.Queries.{get_handle}
use eka_knowledge_assistant.Ingestion.Jobs.{Jobs, EnqueueRequest, enqueue, has_key}
use eka_knowledge_assistant.Ingestion.Chunks.{put, check_store}
use eka_knowledge_assistant.Ingestion.Pipeline.{World, on_documents, on_store, on_jobs}

abbrev pub request_for : Uuid → Uuid → DocumentDto → ℕ → EnqueueRequest
request_for tenant_id document_id document max_attempts = record {
  tenant_id = tenant_id;
  document_id = document_id;
  collection_id = document.collection_id;
  document_version = document.version;
  max_attempts = max_attempts;
}

module _ {F : Type 0} (sha256 : Text → Text) (max_attempts : ℕ) (job_id : Uuid) (now : Instant)
    (tenant_id document_id : Uuid) (content : Text) where
  -- The part of the handler after the document was read.
  unfoldable pub accept : DocumentDto → Action (World F) (Unit {0})
  accept document =
      if not (text_eq (sha256 content) document.content_hash)
      then raise (validation_error "content does not match the registered content_hash")
      else on_store (with_uow (put now tenant_id document_id content >> commit check_store))
        >> on_jobs (enqueue job_id now (request_for tenant_id document_id document max_attempts))

  -- UploadDocumentContentHandler.handle
  unfoldable pub upload : Action (World F) (Unit {0})
  upload =
      (λ w.
        (get_handle (record { tenant_id = tenant_id; document_id = document_id }) w.documents, w))
      >>= accept
