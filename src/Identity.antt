-- ===== src/Identity.antt =====
-- src/eka/modules/identity and src/eka/api/security.py: the identity behind a bearer token. The JWT
-- library, `str` of a set of roles and the parsing of identifiers are parameters.
mod Tests
use eka_knowledge_assistant.Prelude.{
  ℕ, zero, suc, ◌+◌, ◌-◌, ◌*◌, ◌/◌, ◌%◌, ◌^◌, ◌≤◌, ◌<◌, min, max, String, ◌≡◌, refl, sym, ap, ◌∙◌,
  subst, ◌≢◌, ◌↔◌, ◌⊎◌, inl, inr, Bool, true, false, ◌&&◌, ◌||◌, not, Option, none, some, List, [],
  ◌∷◌, ◌++◌, map, arith, ltb, leb, ◌==◌, if◌then◌else◌, ltb→lt, lt→ltb, leb→le, le→leb, ==_iff,
  ==_refl, Bool-cases, Option-cases, &&-eq-true, length, is_empty, take, drop, get_elem?, filter,
  any, find?, All, length-append, length-take, length-drop, length-map, take-append-drop,
  All-append, All-append_left, All-append_right, All-take, All-drop, All-filter, All-of, All-mono,
  All-apply, filter-All, filter-append, filter-eq-nil, All-of_filter, any-eq-false, any_of_All,
  unique, unique-All, unique-map, unique-snoc, any_self, any-map, All-map, KeepsItems,
  KeepsItems-All, Text, codes, text_eq, is_space, lstrip, rstrip, strip, is_blank, text_eq→eq,
  text_eq_refl, text_eq_iff, length-lstrip-le, length-rstrip-le, length-strip-le, strip_idem,
  rstrip-strip, strip-eq-nil_iff, ℤ, pos, negsuc, pos_part, neg_part, ltb_ℤ, eq_ℤ, Exception,
  validation_error, invariant_violation, state_transition_error, not_found_error, conflict_error,
  authentication_error, content_missing_error, value_error, key_error, integrity_error, data_error,
  multiple_results_found, other_exception, Result, ok, err, Action, and_then, map_result,
  bind_result, ◌>>=◌, ◌>>◌, bind_result-eq-ok, map_result-eq-ok, Result-cases, pure, raise, lift,
  gets, modify,
}
use eka_knowledge_assistant.Documents.Document.{Uuid, Instant}

pub record AuthenticatedIdentity : Type 0 where
  pub tenant_id : Uuid
  pub subject : Text
  pub roles : List Text

unfoldable pub has_role : AuthenticatedIdentity → Text → Bool
has_role identity role = any (text_eq role) identity.roles

-- The claims of a token. `tid` and `roles` may be absent from a foreign token.
pub record Claims : Type 0 where
  pub iss : Text
  pub sub : Text
  pub tid : Option Text
  pub roles : Option (List Text)
  pub iat : Instant
  pub exp : Instant

-- PyJWT with the settings' secret and algorithm and its strings of tokens, `sorted`, `str` and the
-- constructor of UUID.
pub record TokenLibrary (Token : Type 0) : Type 0 where
  -- `not token`
  pub is_missing : Token → Bool
  pub encode : Claims → Token
  -- jwt.decode at a time, for an issuer, with the required claims; an InvalidTokenError is `err`.
  pub decode : Instant → Text → Token → Result Claims
  pub sorted : List Text → List Text
  pub str_uuid : Uuid → Text
  pub parse_uuid : Text → Option Uuid

abbrev pub roles_of : Option (List Text) → List Text
roles_of none = []
roles_of (some roles) = roles

abbrev pub payload_of : Result Claims → Result Claims
payload_of (ok claims) = ok claims
payload_of (err e) = err (authentication_error "invalid or expired token")

module _ {Token : Type 0} (lib : TokenLibrary Token) (issuer : Text) where
  abbrev pub tenant_of : Option Text → Result Uuid
  tenant_of none = err (authentication_error "token has no valid tenant claim")
  tenant_of (some t) = parsed (lib.parse_uuid t)
    where
      parsed : Option Uuid → Result Uuid
      parsed none = err (authentication_error "token has no valid tenant claim")
      parsed (some u) = ok u

  -- JwtTokenVerifier.verify
  unfoldable pub verify : Instant → Token → Result AuthenticatedIdentity
  verify now token = bind_result (payload_of (lib.decode now issuer token)) λ payload.
      map_result
        (λ tenant_id. record {
          tenant_id = tenant_id;
          subject = payload.sub;
          roles = roles_of payload.roles;
        })
        (tenant_of payload.tid)

  abbrev pub claims_of : Instant → Uuid → Text → List Text → ℕ → Claims
  claims_of now tenant_id subject roles ttl_seconds = record {
    iss = issuer;
    sub = subject;
    tid = some (lib.str_uuid tenant_id);
    roles = some (lib.sorted roles);
    iat = now;
    exp = now + ttl_seconds;
  }

  -- JwtTokenIssuer.issue; times are seconds.
  unfoldable pub issue : Instant → Uuid → Text → List Text → ℕ → Token
  issue now tenant_id subject roles ttl_seconds =
      lib.encode (claims_of now tenant_id subject roles ttl_seconds)

  abbrev pub checked_token : Instant → Option Token → Result AuthenticatedIdentity
  checked_token now none = err (authentication_error "missing bearer token")
  checked_token now (some t) =
      if lib.is_missing t then err (authentication_error "missing bearer token") else verify now t

  -- get_current_identity: the bearer credentials, or else the X-EKA-Token header.
  unfoldable pub get_current_identity :
      Instant → Option Token → Option Token → Result AuthenticatedIdentity
  get_current_identity now none header = checked_token now header
  get_current_identity now (some credentials) header = checked_token now (some credentials)

  -- The endpoint POST /v1/auth/token.
  unfoldable pub issue_token : Bool → Instant → Uuid → Text → List Text → ℕ → Result Token
  issue_token dev_token_enabled now tenant_id subject roles ttl_seconds =
      if dev_token_enabled
      then ok (issue now tenant_id subject roles ttl_seconds)
      else err (not_found_error "token endpoint is not available")

-- The issuer is the expected one, the token is not issued in the future, and it has not expired.
abbrev pub is_current : Text → Instant → Claims → Bool
is_current issuer now claims =
    text_eq claims.iss issuer && (leb claims.iat now && ltb now claims.exp)

-- What the program relies on: a token with every required claim decodes to its claims when it is
-- current for the issuer, and the library refuses it when it is not; a token is not empty; and an
-- identifier is read back from its text.
pub record TokenLaws {Token : Type 0} (lib : TokenLibrary Token) : Type 0 where
  pub decode-encode :
      (now : Instant) (issuer : Text) (claims : Claims) (tid : Text)
      → claims.tid ≡ some tid
      → is_current issuer now claims ≡ true
      → lib.decode now issuer (lib.encode claims) ≡ ok claims
  pub decode_refused :
      (now : Instant) (issuer : Text) (claims : Claims)
      → is_current issuer now claims ≡ false
      → (e : Exception) × (lib.decode now issuer (lib.encode claims) ≡ err e)
  pub encode_present : (claims : Claims) → lib.is_missing (lib.encode claims) ≡ false
  pub parse-str : (u : Uuid) → lib.parse_uuid (lib.str_uuid u) ≡ some u

module _ {Token : Type 0} (lib : TokenLibrary Token) (laws : TokenLaws lib) (issuer expected : Text)
    (now later : Instant) (tenant_id : Uuid) (subject : Text) (roles : List Text)
    (ttl_seconds : ℕ) where
  abbrev issued : Token
  issued = issue lib issuer now tenant_id subject roles ttl_seconds

  abbrev issued_claims : Claims
  issued_claims = claims_of lib issuer now tenant_id subject roles ttl_seconds

  abbrev pub identity_of_token : Result AuthenticatedIdentity
  identity_of_token =
      if text_eq issuer expected && (leb now later && ltb later (now + ttl_seconds))
      then ok (record { tenant_id = tenant_id; subject = subject; roles = lib.sorted roles })
      else err (authentication_error "invalid or expired token")

  verify-issued : verify lib expected later issued ≡ identity_of_token
  unfolding verify issue
  verify-issued = elim (Bool-cases (is_current expected later issued_claims)) [
    | inl h ↦
        let decoded =
          laws.decode-encode later expected issued_claims (lib.str_uuid tenant_id) refl h in
        rw h (rw decoded (rw (laws.parse-str tenant_id) refl))
    | inr h ↦
        let (e, refused) = laws.decode_refused later expected issued_claims h in
        rw h (rw refused refl)
  ]

  -- If the JWT library and the texts of identifiers keep their laws, a token that was issued identifies
  -- its bearer, in the Authorization header whatever the X-EKA-Token header holds and in the latter
  -- alone, exactly for a verifier of the same issuer and from its issue until it expires: then as the
  -- tenant, the subject and the sorted roles that it was issued for, and otherwise not at all, with an
  -- AuthenticationError.
  pub verify-issue :
      (header : Option Token)
      → (get_current_identity lib expected later (some issued) header ≡ identity_of_token)
        × (get_current_identity lib expected later none (some issued) ≡ identity_of_token)
  unfolding get_current_identity issue
  verify-issue header =
      let present = laws.encode_present issued_claims in
      (rw present verify-issued, rw present verify-issued)
