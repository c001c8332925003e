-- ===== src/Google/Examples.antt =====
-- Google's mapping and discovery on concrete answers, and the theorems at those inputs.
use review_signal.Base.{
  ℕ, ◌+◌, ◌≡◌, refl, ◌≢◌, ◌↔◌, true, false, Option, none, some, [], ◌∷◌, ◌++◌, if◌then◌else◌,
  length, ◌==◌, Text, codes, end, is_space, Result, ok, nat_eq, list_eq, option_eq,
}
use review_signal.Ingestion.Record.{NormalizedReview, ReviewPage}
use review_signal.Google.Mapping.{
  StarRating, ReviewEntry, ParsedTime, aware, to_normalized_review, build_review, rated_review,
  nonempty, rating_of, review_from, clean_text, has_text, name_of, reply_text, reply_time,
  parse_datetime, parse_optional,
}
use review_signal.Google.MappingLaws.{IsMapped, to_normalized_review-IsMapped}
use review_signal.Google.Http.{Response, get_json, Translates, get_json-Translates}
use review_signal.Google.Adapter.{Envelope, map_entries, page_of, page_of-accounts}
use review_signal.Google.Profile.{ProfileEnvelope, has_slash, resource_id, paged}
use review_signal.Google.ProfileLaws.{resource_id_iff, IsWalk, paged-IsWalk}

-- A reading of times that knows one text.
abbrev read_time : Text → Option ParsedTime
read_time t = if t == codes "2026-05-01T10:00:00Z" then some (aware 1000) else none

abbrev entry : ReviewEntry
entry = record {
  review_id = some (codes "r1");
  star_rating = some (StarRating.name (codes "FOUR"));
  create_time = some (codes "2026-05-01T10:00:00Z");
  update_time = none;
  comment = some (codes "  ");
  reviewer = some (record { is_anonymous = true; display_name = some (codes "Ana") });
  review_reply = none;
  payload = end;
}

abbrev mapped : NormalizedReview
mapped = record {
  source_review_id = codes "r1";
  rating = 4;
  review_text = none;
  reviewer_name = none;
  created_at = 1000;
  updated_at = 1000;
  owner_reply_text = none;
  owner_reply_at = none;
  language = codes "und";
  raw_payload = end;
}

entry-mapped : to_normalized_review read_time entry ≡ ok (some mapped)
unfolding to_normalized_review build_review rated_review nonempty rating_of review_from clean_text
    has_text is_space name_of reply_text reply_time parse_datetime parse_optional
entry-mapped = refl

to_normalized_review-IsMapped_example : IsMapped read_time entry mapped
to_normalized_review-IsMapped_example =
    to_normalized_review-IsMapped read_time entry mapped entry-mapped

abbrev envelope : Envelope
envelope = record { reviews = entry ∷ []; next_page_token = some [] }

abbrev page : ReviewPage
page = record { reviews = mapped ∷ []; next_cursor = none; unmappable_count = 0 }

page_of_entry : page_of read_time envelope ≡ ok page
unfolding page_of map_entries nonempty
page_of_entry = rw entry-mapped refl

page_of-accounts_example :
    (length page.reviews + page.unmappable_count ≡ length envelope.reviews)
    × (page.next_cursor ≢ some [])
page_of-accounts_example = page_of-accounts read_time envelope page page_of_entry

abbrev forbidden : Response (Unit {0})
forbidden = record { status_code = 403; error_message = codes "denied"; json = ok tt }

get_json-Translates_example : Translates (ok forbidden) (get_json (ok forbidden) (codes "reviews"))
get_json-Translates_example = get_json-Translates (ok forbidden) (codes "reviews")

resource_id_iff_example :
    (resource_id (some (codes "accounts/1")) (codes "accounts/") ≡ some (codes "1"))
    ↔ (codes "accounts/1" ≡ codes "accounts/" ++ codes "1")
      × (codes "1" ≢ [])
      × (has_slash (codes "1") ≡ false)
resource_id_iff_example = resource_id_iff (codes "accounts/1") (codes "accounts/") (codes "1")

-- A listing that always has another page: the cap ends it.
abbrev endless : ℕ → Option Text → Result ProfileEnvelope
endless number token = ok (record { entries = []; next_page_token = some (codes "more") })

abbrev endless_page : ProfileEnvelope
endless_page = record { entries = []; next_page_token = some (codes "more") }

paged-endless : paged endless 2 0 none ≡ ok (endless_page ∷ endless_page ∷ [])
unfolding paged nonempty
paged-endless = refl

paged-IsWalk_example : IsWalk endless 2 0 none (endless_page ∷ endless_page ∷ [])
paged-IsWalk_example =
    paged-IsWalk endless 2 0 none (endless_page ∷ endless_page ∷ []) paged-endless
