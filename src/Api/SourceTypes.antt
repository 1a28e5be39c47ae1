-- ===== src/Api/SourceTypes.antt =====
-- A registration with a source type that the program does not know.
use eka_knowledge_assistant.Prelude.{
  ℕ, zero, suc, ◌≡◌, refl, ap, true, ◌&&◌, none, [], ◌∷◌, arith, &&-eq-true, Text, value_error,
  Result, ok, err,
}
use eka_knowledge_assistant.Shared.Transaction.{Session, with_uow}
use eka_knowledge_assistant.Documents.Document.{Uuid, Title, ContentHash, is_hex, matches_hex}
use eka_knowledge_assistant.Documents.Document as D
use eka_knowledge_assistant.Documents.Repository.{Table, parse_source, find_by_content_hash}
use eka_knowledge_assistant.Documents.Commands.{
  Fresh, RegisterDocumentCommand, register_new, register_handle,
}
use eka_knowledge_assistant.Documents.Commands.Register.{known_document}
use eka_knowledge_assistant.Documents.Http.{
  RegisterDocumentRequest, sized, matches_digest, is_register_request, register_document,
}
use eka_knowledge_assistant.Identity.{AuthenticatedIdentity}
use eka_knowledge_assistant.Api.{status_code}
use eka_knowledge_assistant.Api.Endpoint.{reply_status, error_reply, guarded}
use eka_knowledge_assistant.Api.Routes.{
  register_request, Server, Context, identity, register_route, serve,
}

digest-hex : (n : ℕ) (s : Text) → matches_digest n s ≡ true → matches_hex n s ≡ true
unfolding matches_digest matches_hex
digest-hex zero [] h = refl
digest-hex zero (c ∷ s) h = absurd (ground arith)
digest-hex (suc n) [] h = absurd (ground arith)
digest-hex (suc n) (c ∷ s) h =
    let (a, b) = &&-eq-true (is_hex c) (matches_digest n s) h in rw a (digest-hex n s b)

-- A digest that the schema lets through is a content hash.
pub schema_hash :
    (body : RegisterDocumentRequest)
    → is_register_request body ≡ true
    → D.content_hash body.content_hash ≡ ok (record { value = body.content_hash })
unfolding is_register_request D.content_hash
schema_hash body h =
    let (rest, digest) =
      &&-eq-true (sized 1 512 body.title && sized 1 2048 body.source_uri)
        (matches_digest 64 body.content_hash) h in
    rw (digest-hex 64 body.content_hash digest) refl

register_new-unknown :
    (fresh : Fresh) (command : RegisterDocumentCommand) (hash : ContentHash) (ti : Title)
    (s : Session Table)
    → D.title command.title ≡ ok ti
    → parse_source command.source_type ≡ err value_error
    → register_new fresh command hash s ≡ (err value_error, s)
unfolding register_new
register_new-unknown fresh command hash ti s h k = simp (h, k) refl

register_handle-unknown :
    (fresh : Fresh) (command : RegisterDocumentCommand) (hash : ContentHash) (ti : Title)
    (t : Table)
    → D.content_hash command.content_hash ≡ ok hash
    → known_document command.tenant_id hash t ≡ ok none
    → D.title command.title ≡ ok ti
    → parse_source command.source_type ≡ err value_error
    → register_handle fresh command t ≡ (err value_error, t)
unfolding register_handle with_uow find_by_content_hash
register_handle-unknown fresh command hash ti t a b h k =
    simp (a, b)
      (ap (λ r. (r.0, r.1.stored))
        (register_new-unknown fresh command hash ti (record { stored = t; pending = t }) h k))

module _ {F S P Token : Type 0} (c : Context F S P Token) (i : AuthenticatedIdentity)
    (s : Server F S) where
  register_failed :
      (body : RegisterDocumentRequest) (found : Result AuthenticatedIdentity)
      → found ≡ ok i
      → is_register_request body ≡ true
      → register_document c.str_uuid c.fresh body i.tenant_id s.world.documents
        ≡ (err value_error, s.world.documents)
      → guarded c.request_id found 201 (is_register_request body) (register_route c body) s
        ≡ (error_reply c.request_id value_error, s)
  unfolding guarded register_route
  register_failed body found h k l = rw h (rw k (rw l refl))

  -- A registration that passes the schema, of a content that the tenant has not, with a title and a
  -- source type that is none of the known ones, is answered with 500 and changes nothing.
  pub unknown_source_type :
      (body : RegisterDocumentRequest) (ti : Title)
      → identity c ≡ ok i
      → is_register_request body ≡ true
      → known_document i.tenant_id (record { value = body.content_hash }) s.world.documents
        ≡ ok none
      → D.title body.title ≡ ok ti
      → parse_source body.source_type ≡ err value_error
      → (reply_status (serve c (register_request body) s).0 ≡ 500)
        × ((serve c (register_request body) s).1 ≡ s)
  unfolding serve register_document reply_status error_reply status_code
  unknown_source_type body ti h v n t k =
      let command : RegisterDocumentCommand = record {
        tenant_id = i.tenant_id;
        collection_id = body.collection_id;
        title = body.title;
        source_type = body.source_type;
        source_uri = body.source_uri;
        content_hash = body.content_hash;
      } in
      let refused =
        register_handle-unknown c.fresh command (record { value = body.content_hash }) ti
          s.world.documents (schema_hash body v) n t k in
      let done = register_failed body (identity c) h v (rw refused refl) in
      (ap (λ r. reply_status r.0) done, ap (λ r. r.1) done)
