-- ===== src/Api/Middleware.antt =====
-- src/eka/api/middleware.py: the correlation id and the security headers, in the order in which
-- src/eka/api/app.py adds them. Starlette's map of headers is a parameter; the access log and the
-- answers to cross-origin requests are left out. An exception that the application does
-- not answer passes through both to the outermost handler, whose response has none of this.
use eka_knowledge_assistant.Prelude.{
  ◌≡◌, refl, ap, ◌∙◌, ◌⊎◌, inl, inr, Exception, Result, ok, err, map_result, Result-cases, Bool,
  false, ◌||◌, Option, none, some, List, [], ◌∷◌, ◌++◌, arith, if◌then◌else◌, All, All-mono,
  All-apply, Text, codes, text_eq,
}

-- Headers as Starlette keeps them, with names that differ in case alone taken for the same.
pub record HeaderMap (H : Type 0) : Type 0 where
  pub get : Text → H → Option Text
  pub set : Text → Text → H → H
  pub setdefault : Text → Text → H → H
  pub same_name : Text → Text → Bool

abbrev pub request_id_header : Text
request_id_header = codes "X-Request-ID"

abbrev pub content_security_policy : Text
content_security_policy = codes "Content-Security-Policy"

abbrev pub closed_csp : Text
closed_csp = codes "default-src 'none'; frame-ancestors 'none'"

abbrev pub docs_csp : Text
docs_csp =
    codes
      "default-src 'none'; script-src 'self' 'unsafe-inline' https://cdn.jsdelivr.net; style-src 'self' 'unsafe-inline' https://cdn.jsdelivr.net; img-src 'self' data: https://fastapi.tiangolo.com; font-src 'self' data:; connect-src 'self'"

-- _SECURITY_HEADERS before the policy.
abbrev pub fixed_headers : List (Text × Text)
fixed_headers =
    (codes "X-Content-Type-Options", codes "nosniff")
    ∷ (codes "X-Frame-Options", codes "DENY")
    ∷ (codes "Referrer-Policy", codes "no-referrer")
    ∷ (codes "Strict-Transport-Security", codes "max-age=63072000; includeSubDomains")
    ∷ []

abbrev pub is_docs_path : Text → Bool
is_docs_path path =
    text_eq path (codes "/docs")
    || text_eq path (codes "/redoc")
    || text_eq path (codes "/openapi.json")

unfoldable pub security_headers : Text → List (Text × Text)
security_headers path =
    fixed_headers
    ++ (content_security_policy, (if is_docs_path path then docs_csp else closed_csp)) ∷ []

module _ {H : Type 0} (m : HeaderMap H) where
  unfoldable pub set_defaults : List (Text × Text) → H → H
  set_defaults [] h = h
  set_defaults ((name, value) ∷ headers) h = set_defaults headers (m.setdefault name value h)

  -- SecurityHeadersMiddleware.dispatch after the call of the next part.
  unfoldable pub secure : Text → H → H
  secure path h = set_defaults (security_headers path) h

  -- `request.headers.get(…) or str(uuid.uuid4())`
  unfoldable pub chosen_id : Option Text → Text → Text
  chosen_id none new_id = new_id
  chosen_id (some []) new_id = new_id
  chosen_id (some (c ∷ t)) new_id = c ∷ t

  -- CorrelationIdMiddleware.dispatch: the next part sees the identifier, and the response carries it.
  unfoldable pub correlate :
      {A : Type 0} → Option Text → Text → (Text → Result (A × H)) → Result (A × H)
  correlate header new_id call_next =
      let request_id = chosen_id header new_id in
      map_result (λ response. (response.0, m.set request_id_header request_id response.1))
        (call_next request_id)

  abbrev pub answer : {A : Type 0} → (Exception → A × H) → Result (A × H) → A × H
  answer on_error (ok response) = response
  answer on_error (err e) = on_error e

  -- The middleware around the application: the correlation id is outside of the security headers, and
  -- outside of both is the handler of unhandled exceptions.
  unfoldable pub respond :
      {A : Type 0}
      → Text
      → Option Text
      → Text
      → (Exception → A × H)
      → (Text → Result (A × H))
      → A × H
  respond path header new_id on_error application = answer on_error (
      correlate header new_id λ request_id.
        map_result (λ response. (response.0, secure path response.1)) (application request_id))

abbrev pub or_default : Text → Option Text → Text
or_default value none = value
or_default value (some v) = v

-- What the map of headers promises.
pub record HeaderLaws {H : Type 0} (m : HeaderMap H) : Type 0 where
  pub get-set : (name value : Text) (h : H) → m.get name (m.set name value h) ≡ some value
  pub get_other :
      (name other value : Text) (h : H)
      → m.same_name name other ≡ false
      → m.get other (m.set name value h) ≡ m.get other h
  pub get-setdefault :
      (name value : Text) (h : H)
      → m.get name (m.setdefault name value h) ≡ some (or_default value (m.get name h))
  pub get_other-setdefault :
      (name other value : Text) (h : H)
      → m.same_name name other ≡ false
      → m.get other (m.setdefault name value h) ≡ m.get other h

-- No two of the headers have the same name, and none has the name of the request's identifier.
abbrev pub NamesApart : {H : Type 0} → HeaderMap H → List (Text × Text) → Type 0
NamesApart m [] = Unit {0}
NamesApart m (p ∷ ps) =
    All (λ q. (m.same_name p.0 q.0 || m.same_name q.0 p.0) ≡ false) ps
    × (m.same_name request_id_header p.0 ≡ false)
    × NamesApart m ps

-- What a response carries: the identifier and the security headers, over those of the application.
abbrev pub HasHeaders : {H : Type 0} → HeaderMap H → Text → Text → H → H → Type 0
HasHeaders m path request_id before after =
    (m.get request_id_header after ≡ some request_id)
    × All (λ p. m.get p.0 after ≡ some (or_default p.1 (m.get p.0 before))) (security_headers path)

module _ {H : Type 0} (m : HeaderMap H) (laws : HeaderLaws m) where
  get_other-set_defaults :
      (headers : List (Text × Text)) (other : Text) (h : H)
      → All (λ p. m.same_name p.0 other ≡ false) headers
      → m.get other (set_defaults m headers h) ≡ m.get other h
  unfolding set_defaults
  get_other-set_defaults [] other h k = refl
  get_other-set_defaults ((name, value) ∷ headers) other h k =
      get_other-set_defaults headers other (m.setdefault name value h) k.1
      ∙ laws.get_other-setdefault name other value h k.0

  -- Each header has the value that the response set for it, or else the default.
  get-set_defaults :
      (headers : List (Text × Text)) (h : H)
      → NamesApart m headers
      → All
          (λ p. m.get p.0 (set_defaults m headers h) ≡ some (or_default p.1 (m.get p.0 h)))
          headers
  unfolding set_defaults
  get-set_defaults [] h k = tt
  get-set_defaults ((name, value) ∷ headers) h k = (
    get_other-set_defaults headers name (m.setdefault name value h)
          (All-mono (λ p e. ground (arith, e)) headers k.0)
        ∙ laws.get-setdefault name value h,
    All-apply _ _ headers
        (All-mono
          (λ p e g.
            g
            ∙ ap (λ o. some (or_default p.1 o))
                (laws.get_other-setdefault name p.0 value h (ground (arith, e))))
          headers k.0)
        (get-set_defaults headers (m.setdefault name value h) k.2),
  )

  correlated :
      (headers : List (Text × Text)) (value : Text) (h h' : H)
      → NamesApart m headers
      → All (λ p. m.get p.0 h' ≡ some (or_default p.1 (m.get p.0 h))) headers
      → All
          (λ p. m.get p.0 (m.set request_id_header value h') ≡ some (or_default p.1 (m.get p.0 h)))
          headers
  correlated [] value h h' k g = tt
  correlated (p ∷ ps) value h h' k g =
      (laws.get_other request_id_header p.0 value h' k.1 ∙ g.0, correlated ps value h h' k.2 g.1)

  -- If the map of headers keeps its laws and takes none of the names for another: when the application
  -- answers, the response carries the identifier that the application saw, which is the request's if
  -- it has one, and every security header, with the value that the application set for it or else the
  -- default of the path. When the application raises, the response is that of the handler of unhandled
  -- exceptions as it is, with neither the identifier nor the security headers added.
  pub respond_headers :
      {A : Type 0} (path : Text) (header : Option Text) (new_id : Text)
      (on_error : Exception → A × H) (application : Text → Result (A × H))
      → NamesApart m (security_headers path)
      → let request_id = chosen_id m header new_id in
        let response = respond m path header new_id on_error application in
        ((a : A) × (before : H) × (application request_id ≡ ok (a, before))
          × (response.0 ≡ a)
          × HasHeaders m path request_id before response.1)
        ⊎ ((e : Exception) × (application request_id ≡ err e) × (response ≡ on_error e))
  unfolding respond correlate secure
  respond_headers path header new_id on_error application k =
      let request_id = chosen_id m header new_id in
      elim (Result-cases (application request_id)) [
        | inl ((a, h), e) ↦
            let h' = set_defaults m (security_headers path) h in
            inl (
              a,
              h,
              e,
              rw e refl,
              rw e (
                laws.get-set request_id_header request_id h',
                correlated (security_headers path) request_id h h' k
                    (get-set_defaults (security_headers path) h k),
              ),
            )
        | inr (x, e) ↦ inr (x, e, rw e refl)
      ]
