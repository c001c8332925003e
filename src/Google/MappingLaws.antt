-- ===== src/Google/MappingLaws.antt =====
-- What a mapped review may rely on.
use review_signal.Base.{
  ℕ, ◌≤◌, ◌≡◌, refl, ap, ◌∙◌, subst, ◌≢◌, Bool, true, Option, none, some, [], ◌∷◌, arith,
  if◌then◌else◌, Text, codes, ok, >>=-eq-ok, nat_eq, list_eq, option_eq, sym, ◌⊎◌, inl, inr,
}
use review_signal.Ingestion.Record.{NormalizedReview}
use review_signal.Google.Mapping.{
  Reviewer, StarRating, name, other, ReviewEntry, ParsedTime, rating_of, has_text, clean_text,
  nonempty, name_of, reply_time, review_from, parse_datetime, parse_optional, build_review,
  rated_review, to_normalized_review, aware, ReviewReply, reply_text, naive,
}

-- The moment that a text stands for: what `fromisoformat` reads, a time without a zone taken as UTC.
abbrev pub Reads : (Text → Option ParsedTime) → Text → ℕ → Type 0
Reads from_iso_format t moment =
    (from_iso_format t ≡ some (aware moment)) ⊎ (from_iso_format t ≡ some (naive moment))

-- Each field of a review mapped from `entry`, from the entry alone.
pub record IsMapped (from_iso_format : Text → Option ParsedTime) (entry : ReviewEntry)
    (r : NormalizedReview) : Type 0 where
  pub same_id : entry.review_id ≡ some r.source_review_id
  pub named : r.source_review_id ≢ []
  pub rated : rating_of entry.star_rating ≡ some r.rating
  pub rating_range : (1 ≤ r.rating) × (r.rating ≤ 5)
  pub text_kept : r.review_text ≡ clean_text entry.comment
  pub text_real :
      (s : Text) → r.review_text ≡ some s → (entry.comment ≡ some s) × (has_text s ≡ true)
  pub reviewer : r.reviewer_name ≡ name_of entry.reviewer
  pub anonymous :
      (reviewer : Reviewer)
      → entry.reviewer ≡ some reviewer
      → reviewer.is_anonymous ≡ true
      → r.reviewer_name ≡ none
  pub fallback : nonempty entry.update_time ≡ none → r.updated_at ≡ r.created_at
  pub created :
      (t : Text) × (entry.create_time ≡ some t) × (t ≢ []) × Reads from_iso_format t r.created_at
  pub changed :
      (t : Text) → nonempty entry.update_time ≡ some t → Reads from_iso_format t r.updated_at
  pub reply :
      (reply : ReviewReply)
      → entry.review_reply ≡ some reply
      → r.owner_reply_text ≡ clean_text reply.comment
  pub no_reply : entry.review_reply ≡ none → (r.owner_reply_text ≡ none) × (r.owner_reply_at ≡ none)
  pub reply_untimed : reply_time entry.review_reply ≡ none → r.owner_reply_at ≡ none
  pub reply_timed :
      (t : Text)
      → reply_time entry.review_reply ≡ some t
      → (moment : ℕ) × (r.owner_reply_at ≡ some moment) × Reads from_iso_format t moment
  pub undetermined : r.language ≡ codes "und"
  pub payload : r.raw_payload ≡ entry.payload

rating_range_lem : (star : Option StarRating) (n : ℕ) → rating_of star ≡ some n → (1 ≤ n) × (n ≤ 5)
unfolding rating_of
rating_range_lem none n e = cc
rating_range_lem (some other) n e = cc
rating_range_lem (some (name t)) n e = go _ _ _ _ _ e
  where
    go :
        (b₁ b₂ b₃ b₄ b₅ : Bool)
        → (if b₁
            then some 1
            else if b₂
            then some 2
            else if b₃
            then some 3
            else if b₄
            then some 4
            else if b₅
            then some 5
            else none)
          ≡ some n
        → (1 ≤ n) × (n ≤ 5)
    go b₁ b₂ b₃ b₄ b₅ e = ground arith

ok-inj : {A : Type 0} {x y : A} → ok x ≡ ok y → x ≡ y
ok-inj e = cc

some-inj : {A : Type 0} {x y : A} → some x ≡ some y → x ≡ y
some-inj e = cc

nonempty-some : (t : Option Text) (s : Text) → nonempty t ≡ some s → (t ≡ some s) × (s ≢ [])
unfolding nonempty
nonempty-some none s e = cc
nonempty-some (some []) s e = cc
nonempty-some (some (c ∷ cs)) s e = ground arith

-- A cleaned text is the text itself, and has a character that is no white space.
pub clean_text-has_text :
    (t : Option Text) (s : Text) → clean_text t ≡ some s → (t ≡ some s) × (has_text s ≡ true)
unfolding clean_text
clean_text-has_text none s e = cc
clean_text-has_text (some v) s e = ground arith

name_of-anonymous :
    (o : Option Reviewer) (reviewer : Reviewer)
    → o ≡ some reviewer
    → reviewer.is_anonymous ≡ true
    → name_of o ≡ none
unfolding name_of
name_of-anonymous none reviewer e h = refl
name_of-anonymous (some given) reviewer e h =
    let same : given ≡ reviewer = some-inj e in
    let hidden : given.is_anonymous ≡ true = ap (λ (x : Reviewer). x.is_anonymous) same ∙ h in
    rw (hidden, name_of) refl

module _ (from_iso_format : Text → Option ParsedTime) where
  fallback_lem :
      (given : Option Text) (field_name id : Text) (created : ℕ) (updated : Option ℕ)
      → given ≡ none
      → parse_optional from_iso_format given field_name id (some created) ≡ ok updated
      → (elim updated [ none ↦ created | some t ↦ t ]) ≡ created
  unfolding parse_optional
  fallback_lem given field_name id created updated absent h = ground arith

  parse_datetime-Reads :
      (t field_name id : Text) (moment : ℕ)
      → parse_datetime from_iso_format t field_name id ≡ ok moment
      → Reads from_iso_format t moment
  unfolding parse_datetime
  parse_datetime-Reads t field_name id moment e = go _ refl
    where
      go : (o : Option ParsedTime) → from_iso_format t ≡ o → Reads from_iso_format t moment
      go none h = cc (rw (h, parse_datetime) at e)
      go (some (aware m)) h =
          let same : m ≡ moment = cc (rw (h, parse_datetime) at e) in inl (rw (← same) h)
      go (some (naive m)) h =
          let same : m ≡ moment = cc (rw (h, parse_datetime) at e) in inr (rw (← same) h)

  parse_optional-Reads :
      (given : Option Text) (field_name id : Text) (fallback read : Option ℕ)
      → parse_optional from_iso_format given field_name id fallback ≡ ok read
      → (given ≡ none → read ≡ fallback)
        × ((t : Text)
            → given ≡ some t
            → (moment : ℕ) × (read ≡ some moment) × Reads from_iso_format t moment)
  unfolding parse_optional
  parse_optional-Reads none field_name id fallback read e = (λ h. cc e, λ t h. cc h)
  parse_optional-Reads (some v) field_name id fallback read e =
      let (moment, e₁, e₂) = >>=-eq-ok (parse_datetime from_iso_format v field_name id) _ e in
      let same : some moment ≡ read = cc e₂ in
      (
        λ h. cc h,
        λ t h.
            let v_is : v ≡ t = cc h in
            (moment, sym same, rw (← v_is) (parse_datetime-Reads v field_name id moment e₁)),
      )

  built-IsMapped :
      (entry : ReviewEntry) (id create_time : Text) (rating created : ℕ)
      (updated replied : Option ℕ)
      → entry.review_id ≡ some id
      → id ≢ []
      → rating_of entry.star_rating ≡ some rating
      → nonempty entry.create_time ≡ some create_time
      → parse_datetime from_iso_format create_time (codes "createTime") id ≡ ok created
      → parse_optional from_iso_format
          (nonempty entry.update_time)
          (codes "updateTime")
          id
          (some created)
        ≡ ok updated
      → parse_optional from_iso_format
          (reply_time entry.review_reply)
          (codes "reviewReply.updateTime")
          id
          none
        ≡ ok replied
      → IsMapped from_iso_format entry (review_from entry id rating created updated replied)
  unfolding review_from reply_text reply_time
  built-IsMapped entry id create_time rating created updated replied e_id ne e_rating e_time c e p =
      let time = nonempty-some entry.create_time create_time e_time in
      let change =
        parse_optional-Reads (nonempty entry.update_time) _ id (some created) updated e in
      let answer = parse_optional-Reads (reply_time entry.review_reply) _ id none replied p in
      record {
        same_id = e_id;
        named = ne;
        rated = e_rating;
        rating_range = rating_range_lem entry.star_rating rating e_rating;
        text_kept = refl;
        text_real = clean_text-has_text entry.comment;
        reviewer = refl;
        anonymous = name_of-anonymous entry.reviewer;
        fallback =
            λ absent. fallback_lem (nonempty entry.update_time) _ id created updated absent e;
        created = (create_time, time.0, time.1, parse_datetime-Reads create_time _ id created c);
        changed = λ t given. let (moment, same, reads) = change.1 t given in rw (same) reads;
        reply = λ reply given. rw (given) refl;
        no_reply = λ absent. (rw (absent) refl, answer.0 (rw (absent) refl));
        reply_untimed = answer.0;
        reply_timed = answer.1;
        undetermined = refl;
        payload = refl;
      }

  build_review-IsMapped :
      (entry : ReviewEntry) (id : Text) (rating : ℕ) (create_time : Text) (r : NormalizedReview)
      → entry.review_id ≡ some id
      → id ≢ []
      → rating_of entry.star_rating ≡ some rating
      → nonempty entry.create_time ≡ some create_time
      → build_review from_iso_format entry id rating create_time ≡ ok r
      → IsMapped from_iso_format entry r
  unfolding build_review
  build_review-IsMapped entry id rating create_time r e_id ne e_rating e_time e =
      let (created, e₁, k₁) = >>=-eq-ok (parse_datetime from_iso_format create_time _ id) _ e in
      let (updated, e₂, k₂) =
        >>=-eq-ok (parse_optional from_iso_format (nonempty entry.update_time) _ id (some created))
          _ k₁ in
      let (replied, e₃, k₃) =
        >>=-eq-ok (parse_optional from_iso_format (reply_time entry.review_reply) _ id none) _ k₂ in
      subst (IsMapped from_iso_format entry) (ok-inj k₃) (
        built-IsMapped entry id create_time rating created updated replied e_id ne e_rating e_time
          e₁ e₂ e₃)

  -- An entry that is mapped to a review had a name and a star rating: the review keeps the entry's
  -- id, not empty, and its payload, carries a rating from 1 to 5, the comment untouched where it has
  -- more than white space and else none, no name for an anonymous reviewer, the moments that the
  -- entry's times stand for, the creation time where it tells no update time, the owner's reply with
  -- its own time, and the language `und`.
  pub to_normalized_review-IsMapped :
      (entry : ReviewEntry) (r : NormalizedReview)
      → to_normalized_review from_iso_format entry ≡ ok (some r)
      → IsMapped from_iso_format entry r
  unfolding to_normalized_review rated_review
  to_normalized_review-IsMapped entry r e = named (nonempty entry.review_id) refl
    where
      timed :
          (id : Text) (rating : ℕ) (t : Option Text)
          → nonempty entry.review_id ≡ some id
          → rating_of entry.star_rating ≡ some rating
          → nonempty entry.create_time ≡ t
          → IsMapped from_iso_format entry r
      timed id rating none n s t = cc (rw (n, s, t, to_normalized_review, rated_review) at e)
      timed id rating (some create_time) n s t =
          let (built, b, k) =
            >>=-eq-ok (build_review from_iso_format entry id rating create_time) _
              (rw (n, s, t, to_normalized_review, rated_review) at e) in
          let same = some-inj (ok-inj k) in
          let parts = nonempty-some entry.review_id id n in
          build_review-IsMapped entry id rating create_time r parts.0 parts.1 s t (b ∙ ap ok same)

      rated :
          (id : Text) (o : Option ℕ)
          → nonempty entry.review_id ≡ some id
          → rating_of entry.star_rating ≡ o
          → IsMapped from_iso_format entry r
      rated id none n s = cc (rw (n, s, to_normalized_review, rated_review) at e)
      rated id (some rating) n s = timed id rating _ n s refl

      named : (o : Option Text) → nonempty entry.review_id ≡ o → IsMapped from_iso_format entry r
      named none n = cc (rw (n, to_normalized_review) at e)
      named (some id) n = rated id _ n refl
