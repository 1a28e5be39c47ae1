-- ===== src/Api/Tests.antt =====
-- The theorems of the HTTP layer for a small server.
use eka_knowledge_assistant.Prelude.{
  ℕ, zero, suc, ◌+◌, ◌-◌, ◌*◌, min, ◌≡◌, ◌⊎◌, Result, Exception, refl, true, false, Option, none,
  some, List, [], ◌∷◌, ltb, ◌==◌, if◌then◌else◌, Text, codes, text_eq, is_space, lstrip, rstrip,
  strip, text_eq_refl, pos, value_error, ok, err,
}
use eka_knowledge_assistant.Shared.Builtins.{Floats}
use eka_knowledge_assistant.Config.{default_settings}
use eka_knowledge_assistant.Documents.Document.{EventBase, is_hex, matches_hex}
use eka_knowledge_assistant.Documents.Document as D
use eka_knowledge_assistant.Documents.Repository.{
  DocumentModel, is_unique, clashes, parse_source, hash_query,
}
use eka_knowledge_assistant.Documents.Http.{
  RegisterDocumentRequest, is_register_request, matches_digest,
}
use eka_knowledge_assistant.Shared.Transaction.{scalar_one_or_none}
use eka_knowledge_assistant.Retrieval.RedisCache.{Redis}
use eka_knowledge_assistant.Retrieval.Http.{SearchRequest}
use eka_knowledge_assistant.Identity.{
  Claims, TokenLibrary, AuthenticatedIdentity, verify, get_current_identity,
}
use eka_knowledge_assistant.Api.Endpoint.{reply_status}
use eka_knowledge_assistant.Api.Routes.{
  register_request, delete_request, chunks_request, search_request, Server, Context, serve,
}
use eka_knowledge_assistant.Api.Scope.{Scoped, serve-Scoped}
use eka_knowledge_assistant.Api.SourceTypes.{unknown_source_type}
use eka_knowledge_assistant.Api.Deletion.{deleted_chunks_stay}
use eka_knowledge_assistant.Api.Middleware.{
  HeaderMap, HeaderLaws, NamesApart, security_headers, chosen_id, or_default, HasHeaders, respond,
  respond_headers,
}

abbrev Floating : Type 0
Floating = ℕ

abbrev repeat : ℕ → ℕ → Text
repeat zero c = []
repeat (suc n) c = c ∷ repeat n c

-- Whole numbers in place of the floats.
abbrev floats : Floats Floating
floats = record {
  of_nat = λ n. n;
  add = λ a b. a + b;
  sub = λ a b. a - b;
  mul = λ a b. a * b;
  div = λ a b. min a b;
  sqrt = λ a. a;
  lt = ltb;
  is_zero = λ a. a == 0;
}

-- A token of the tests is its claims.
abbrev tokens : TokenLibrary Claims
tokens = record {
  is_missing = λ t. false;
  encode = λ t. t;
  decode = λ now issuer t. ok t;
  sorted = λ roles. roles;
  str_uuid = λ u. u ∷ [];
  parse_uuid = parse;
}
  where
    parse : Text → Option ℕ
    parse [] = none
    parse (u ∷ t) = some u

abbrev token : Claims
token = record {
  iss = codes "eka";
  sub = codes "ann";
  tid = some (1 ∷ []);
  roles = none;
  iat = 0;
  exp = 1000;
}

abbrev base : EventBase
base = record { event_id = 900; occurred_at = 100 }

-- The cache answers nothing and forgets.
abbrev redis : Redis (Unit {0}) (List ℕ)
redis = record {
  get = λ key s. (ok none, s);
  set = λ key payload ttl s. (ok tt, s);
  is_redis_error = λ e. false;
}

abbrev context : Option Claims → Context Floating (Unit {0}) (List ℕ) Claims
context credentials = record {
  settings = default_settings;
  tokens = tokens;
  issuer = codes "eka";
  credentials = credentials;
  token_header = none;
  request_id = none;
  seconds = 10;
  now = 100;
  fresh = record { id = 8; now = 100; base = base };
  base = base;
  job_id = 70;
  str_uuid = λ u. u ∷ [];
  sha256 = λ t. t;
  document_order = λ sort t. t;
  chunk_order = λ ms. ms;
  job_order = λ jobs. jobs;
  key_parts = record {
    str_uuid = λ u. u ∷ [];
    str_int = λ n. n ∷ [];
    lower = λ t. t;
    sha256 = λ t. t;
  };
  codec = record {
    dumps = λ items. [];
    loads = λ payload. ok [];
    str_uuid = λ u. u ∷ [];
    parse_uuid = λ t. err value_error;
  };
  redis = redis;
  backend = record {
    floats = floats;
    lower = λ t. t;
    sha1 = λ t. repeat 20 1;
    by_distance = λ e ms. ms;
    by_rank = λ q ms. ms;
    matches = λ q m. true;
  };
  embedder = record { dimension = 8 };
  patterns = [];
  language_model = λ prompt. [];
  system = [];
  dumps = λ event. [];
  database_up = true;
}

abbrev row : ℕ → ℕ → DocumentModel
row id tenant_id = record {
  id = id;
  tenant_id = tenant_id;
  collection_id = 2;
  title = codes "Handbook";
  source_type = codes "upload";
  source_uri = codes "file";
  content_hash = repeat 64 97;
  status = codes "registered";
  version = 1;
  created_at = 10;
  updated_at = 10;
}

abbrev server : Server Floating (Unit {0})
server = record {
  world = record {
    documents = row 7 1 ∷ row 6 2 ∷ [];
    store = record {
      chunks =
          record {
            id = 500;
            tenant_id = 1;
            document_id = 7;
            collection_id = 2;
            document_version = 1;
            ordinal = pos 0;
            text = codes "old";
            embedding = 1 ∷ [];
            created_at = 50;
          }
          ∷ [];
      contents = [];
    };
    jobs = [];
  };
  cache = tt;
}

abbrev search_body : SearchRequest
search_body = record { query = codes "old"; collection_id = none; top_k = pos 5 }

abbrev ann : AuthenticatedIdentity
ann = record { tenant_id = 1; subject = codes "ann"; roles = [] }

serve-Scoped_example :
    Scoped 1 server.world (serve (context (some token)) (delete_request 7) server).1.world
unfolding get_current_identity verify is_unique clashes
serve-Scoped_example = serve-Scoped (context (some token)) ann server (delete_request 7) refl refl

-- A new content with a source type that the program does not know.
abbrev wiki_page : RegisterDocumentRequest
wiki_page = record {
  collection_id = 2;
  title = codes "Page";
  source_type = codes "wiki";
  source_uri = codes "file";
  content_hash = repeat 64 98;
}

unknown_source_type_example :
    (reply_status (serve (context (some token)) (register_request wiki_page) server).0 ≡ 500)
    × ((serve (context (some token)) (register_request wiki_page) server).1 ≡ server)
unfolding get_current_identity verify is_register_request matches_digest is_hex scalar_one_or_none
    hash_query D.title parse_source is_space lstrip rstrip strip
unknown_source_type_example =
    unknown_source_type (context (some token)) ann server wiki_page
      (record { value = codes "Page" }) refl refl refl refl refl

deleted_chunks_stay_example :
    ((serve
        (context (some token))
        (chunks_request 7)
        (serve (context (some token)) (delete_request 7) server).1).0
      ≡ (serve (context (some token)) (chunks_request 7) server).0)
    × ((serve
          (context (some token))
          (search_request search_body)
          (serve (context (some token)) (delete_request 7) server).1).0
        ≡ (serve (context (some token)) (search_request search_body) server).0)
deleted_chunks_stay_example =
    deleted_chunks_stay (context (some token)) (context (some token)) 7 7 search_body server

-- Headers as a list of names and values, the first of a name counting.
abbrev Headers : Type 0
Headers = List (Text × Text)

abbrev get_header : Text → Headers → Option Text
get_header name [] = none
get_header name ((n, v) ∷ h) =
    let rest = get_header name h in if text_eq n name then some v else rest

abbrev default_header : Text → Text → Headers → Option Text → Headers
default_header name value h none = (name, value) ∷ h
default_header name value h (some v) = h

abbrev headers : HeaderMap Headers
headers = record {
  get = get_header;
  set = λ name value h. (name, value) ∷ h;
  setdefault = λ name value h. default_header name value h (get_header name h);
  same_name = text_eq;
}

get_default :
    (name value : Text) (h : Headers) (found : Option Text)
    → get_header name h ≡ found
    → get_header name (default_header name value h found) ≡ some (or_default value found)
get_default name value h none e = rw (text_eq_refl name) refl
get_default name value h (some v) e = e

get_other_default :
    (name other value : Text) (h : Headers) (found : Option Text)
    → text_eq name other ≡ false
    → get_header other (default_header name value h found) ≡ get_header other h
get_other_default name other value h none k = rw k refl
get_other_default name other value h (some v) k = refl

headers-HeaderLaws : HeaderLaws headers
headers-HeaderLaws = record {
  get-set = λ name value h. rw (text_eq_refl name) refl;
  get_other = λ name other value h k. rw k refl;
  get-setdefault = λ name value h. get_default name value h (get_header name h) refl;
  get_other-setdefault =
      λ name other value h k. get_other_default name other value h (get_header name h) k;
}

abbrev application : Text → Result (ℕ × Headers)
application request_id = ok (200, (codes "X-Frame-Options", codes "SAMEORIGIN") ∷ [])

abbrev on_error : Exception → ℕ × Headers
on_error e = (500, [])

names-NamesApart : NamesApart headers (security_headers (codes "/docs"))
unfolding security_headers
names-NamesApart = (
  (refl, (refl, (refl, (refl, tt)))),
  refl,
  (
    (refl, (refl, (refl, tt))),
    refl,
    ((refl, (refl, tt)), refl, ((refl, tt), refl, (tt, refl, tt))),
  ),
)

respond_headers_example :
    let response = respond headers (codes "/docs") none (codes "id") on_error application in
    ((status : ℕ) × (before : Headers) × (application (codes "id") ≡ ok (status, before))
      × (response.0 ≡ status)
      × HasHeaders headers (codes "/docs") (codes "id") before response.1)
    ⊎ ((e : Exception) × (application (codes "id") ≡ err e) × (response ≡ on_error e))
unfolding chosen_id
respond_headers_example =
    respond_headers headers headers-HeaderLaws (codes "/docs") none (codes "id") on_error
      application names-NamesApart
