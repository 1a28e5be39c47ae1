-- ===== src/Shared/Pagination.antt =====
-- src/eka/shared/domain/pagination.py: page requests with their guards, and pages.
use eka_knowledge_assistant.Prelude.{
  ℕ, ◌+◌, ◌≤◌, ◌≡◌, Bool, ◌||◌, Option, List, arith, ltb, if◌then◌else◌, length, Text, ℤ, pos,
  negsuc, pos_part, ltb_ℤ, Result, ok, err, validation_error,
}

abbrev pub default_limit : ℕ
default_limit = 20

abbrev pub max_limit : ℕ
max_limit = 100

pub data SortDirection : Type 0 where
  asc desc : SortDirection

pub record Sort : Type 0 where
  pub field : Text
  pub direction : SortDirection

-- A request that passed the guards, so its numbers are not negative.
pub record PageRequest : Type 0 where
  pub limit : ℕ
  pub offset : ℕ
  pub sort : Option Sort

-- PageRequest(limit, offset, sort) with __post_init__
unfoldable pub page_request : ℤ → ℤ → Option Sort → Result PageRequest
page_request limit offset sort =
    if ltb_ℤ limit (pos 1) || ltb_ℤ (pos max_limit) limit
    then err (validation_error "limit must be between 1 and 100")
    else if ltb_ℤ offset (pos 0)
    then err (validation_error "offset must be non-negative")
    else ok (record { limit = pos_part limit; offset = pos_part offset; sort = sort })

pub record Page {ℓ} (A : Type ℓ) : Type ℓ where
  pub items : List A
  pub total : ℕ
  pub limit : ℕ
  pub offset : ℕ

unfoldable pub has_more {ℓ} : {A : Type ℓ} → Page A → Bool
has_more p = ltb (p.offset + length p.items) p.total

-- What the guards of a page request leave.
abbrev pub IsBounded : PageRequest → Type 0
IsBounded r = (1 ≤ r.limit) × (r.limit ≤ max_limit)

pub page_request-IsBounded :
    (limit offset : ℤ) (sort : Option Sort) (r : PageRequest)
    → page_request limit offset sort ≡ ok r
    → IsBounded r × (limit ≡ pos r.limit) × (offset ≡ pos r.offset) × (r.sort ≡ sort)
unfolding page_request
page_request-IsBounded (pos l) (pos o) sort r h = ground arith
page_request-IsBounded (pos l) (negsuc o) sort r h = ground arith
page_request-IsBounded (negsuc l) (pos o) sort r h = ground arith
page_request-IsBounded (negsuc l) (negsuc o) sort r h = ground arith

-- A request within the bounds is accepted as it is.
pub page_request-ok :
    (limit offset : ℕ) (sort : Option Sort)
    → 1 ≤ limit
    → limit ≤ max_limit
    → page_request (pos limit) (pos offset) sort
      ≡ ok (record { limit = limit; offset = offset; sort = sort })
unfolding page_request
page_request-ok limit offset sort h k = ground arith
