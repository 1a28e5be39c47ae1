-- ===== src/Identity/Tests.antt =====
-- A token of the tests is its claims.
use eka_knowledge_assistant.Prelude.{
  ◌≡◌, refl, false, Option, none, some, [], ◌∷◌, if◌then◌else◌, Text, codes, value_error, ok, err,
}
use eka_knowledge_assistant.Documents.Document.{Uuid}
use eka_knowledge_assistant.Identity.{
  Claims, TokenLibrary, is_current, TokenLaws, get_current_identity, issue, verify-issue,
}

abbrev uuid_of : Text → Option Uuid
uuid_of [] = none
uuid_of (u ∷ t) = some u

abbrev lib : TokenLibrary Claims
lib = record {
  is_missing = λ t. false;
  encode = λ c. c;
  decode = λ now issuer t. if is_current issuer now t then ok t else err value_error;
  sorted = λ rs. rs;
  str_uuid = λ u. u ∷ [];
  parse_uuid = uuid_of;
}

lib-TokenLaws : TokenLaws lib
lib-TokenLaws = record {
  decode-encode = λ now issuer claims tid present h. rw h refl;
  decode_refused = λ now issuer claims h. (value_error, rw h refl);
  encode_present = λ claims. refl;
  parse-str = λ u. refl;
}

verify-issue_example :
    let token = issue lib (codes "eka") 100 1 (codes "ann") (codes "admin" ∷ []) 60 in
    (get_current_identity lib (codes "eka") 150 (some token) none
      ≡ ok (record { tenant_id = 1; subject = codes "ann"; roles = codes "admin" ∷ [] }))
    × (get_current_identity lib (codes "eka") 150 none (some token)
        ≡ ok (record { tenant_id = 1; subject = codes "ann"; roles = codes "admin" ∷ [] }))
verify-issue_example =
    verify-issue lib lib-TokenLaws (codes "eka") (codes "eka") 100 150 1 (codes "ann")
      (codes "admin" ∷ []) 60 none
