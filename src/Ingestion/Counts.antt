-- ===== src/Ingestion/Counts.antt =====
-- The counters of a run against the rows of the table, through `_absorb` and one round of the loop.
use review_signal.Base.{
  codes, integrity_error, ap, ◌≢◌, suc, ◌⊎◌, Exception, ℕ, ◌+◌, ◌≤◌, ◌≡◌, refl, ◌∙◌, inl, inr, Bool,
  true, false, Option, none, some, List, [], ◌∷◌, arith, Bool-cases, length, length-append, Text,
  Result, ok, err, nat_eq, list_eq, option_eq,
}
use review_signal.Ingestion.Record.{
  ReviewPage, UpsertOutcome, NormalizedReview, Review, IngestionOutcome,
}
use review_signal.Ingestion.SyncRuns.{save_cursor}
use review_signal.Ingestion.Session.{Db, db_accepted, commit, flush, Session}
use review_signal.Ingestion.Upsert.{
  find_review, upsert, replace_review, new_review, is_changed, updated_review, upsert_found,
}
use review_signal.Ingestion.Service.{take_page, count_page, settle, Walked, tally, is_seen, absorb}

abbrev pub rows : Session → ℕ
rows s = length s.work.reviews

abbrev pub handled : IngestionOutcome → ℕ
handled o = o.created + o.updated + o.unchanged

-- From one point of the walk to a later one: `created` counts the rows that were added, the other
-- counters only grow, and nothing has been committed.
pub record Progress (o : IngestionOutcome) (s : Session) (o' : IngestionOutcome) (s' : Session)
    : Type 0 where
  pub added : rows s' + o.created ≡ rows s + o'.created
  pub grown : handled o ≤ handled o'
  pub grown_created : o.created ≤ o'.created
  pub same_fetched : o'.fetched ≡ o.fetched
  pub same_unmappable : o'.unmappable ≡ o.unmappable
  pub same_committed : s'.committed ≡ s.committed
  pub same_runs : s'.work.sync_runs ≡ s.work.sync_runs

length-replace_review :
    (key : Text) (row : Review) (rs : List Review) → length (replace_review key row rs) ≡ length rs
unfolding replace_review
length-replace_review key row [] = refl
length-replace_review key row (r ∷ rs) = ground (arith, length-replace_review key row rs)

upsert_found-Progress :
    (source : Text) (review : NormalizedReview) (found : Option Review) (o : IngestionOutcome)
    (s : Session)
    → let (u, s') = upsert_found source review found s in
      Progress o s (tally u o) s' × (handled (tally u o) ≡ handled o + 1)
unfolding upsert_found
upsert_found-Progress source review none o s = (
  record {
    added =
        omega
          (arith, length-append s.work.reviews (new_review source review s.next_id s.db_now ∷ []));
    grown = omega arith;
    grown_created = omega arith;
    same_fetched = refl;
    same_unmappable = refl;
    same_committed = refl;
    same_runs = refl;
  },
  omega arith,
)
upsert_found-Progress source review (some old) o s = elim (Bool-cases (is_changed old review)) [
  | inl differs ↦
      rw (differs, upsert_found)
        (ground (
          arith,
          length-replace_review review.source_review_id (updated_review old review) s.work.reviews,
        ))
  | inr same ↦ rw (same, upsert_found) (ground arith)
]

Progress-refl : (o : IngestionOutcome) (s : Session) → Progress o s o s
Progress-refl o s = ground arith

Progress-trans :
    (o₁ o₂ o₃ : IngestionOutcome) (s₁ s₂ s₃ : Session)
    → Progress o₁ s₁ o₂ s₂
    → Progress o₂ s₂ o₃ s₃
    → Progress o₁ s₁ o₃ s₃
Progress-trans o₁ o₂ o₃ s₁ s₂ s₃ p q = record {
  added = omega (arith, p.added, q.added);
  grown = omega arith;
  grown_created = omega arith;
  same_fetched = q.same_fetched ∙ p.same_fetched;
  same_unmappable = q.same_unmappable ∙ p.same_unmappable;
  same_committed = q.same_committed ∙ p.same_committed;
  same_runs = q.same_runs ∙ p.same_runs;
}

-- An upsert either raises before it has touched anything, or does what its query's answer says.
pub upsert_cases :
    (source : Text) (review : NormalizedReview) (s : Session)
    → ((e : Exception) × ((upsert source review s).0 ≡ err e) × ((upsert source review s).1 ≡ s))
      ⊎ (let found =
            upsert_found source review (find_review review.source_review_id s.work.reviews) s in
          ((upsert source review s).0 ≡ ok found.0) × ((upsert source review s).1 ≡ found.1))
unfolding upsert
upsert_cases source review s = go (flush s) refl
  where
    go :
        (f : Result (Unit {0}))
        → flush s ≡ f
        → ((e : Exception) × ((upsert source review s).0 ≡ err e)
            × ((upsert source review s).1 ≡ s))
          ⊎ (let found =
                upsert_found source review (find_review review.source_review_id s.work.reviews) s in
              ((upsert source review s).0 ≡ ok found.0) × ((upsert source review s).1 ≡ found.1))
    go (err e) h = inl (e, rw (h, upsert), rw (h, upsert))
    go (ok u) h = inr (rw (h, upsert), rw (h, upsert))

-- How far `_absorb` got through the reviews of a page.
abbrev pub Reached : Option ℕ → Result Bool → ℕ → IngestionOutcome → IngestionOutcome → Type 0
Reached stop_at (ok false) n o o' = handled o' ≡ handled o + n
Reached stop_at (ok true) n o o' = (handled o' ≤ handled o + n) × (stop_at ≢ none)
Reached stop_at (err e) n o o' = handled o' ≤ handled o + n

stop-ne-none :
    (stop_at : Option ℕ) (review : NormalizedReview)
    → is_seen stop_at review ≡ true
    → stop_at ≢ none
stop-ne-none none review h = cc
stop-ne-none (some t) review h = λ e. cc

pub absorb-Progress :
    (source : Text) (stop_at : Option ℕ) (reviews : List NormalizedReview) (o : IngestionOutcome)
    (s : Session)
    → let (r, o', s') = absorb source stop_at reviews o s in
      Progress o s o' s' × Reached stop_at r (length reviews) o o'
unfolding absorb
absorb-Progress source stop_at [] o s = (Progress-refl o s, omega arith)
absorb-Progress source stop_at (review ∷ rest) o s = elim (Bool-cases (is_seen stop_at review)) [
  | inl seen ↦
      rw (seen, absorb) (Progress-refl o s, (omega arith, stop-ne-none stop_at review seen))
  | inr unseen ↦
      rw (unseen, absorb)
        (elim (upsert_cases source review s) [
          | inl (e, h, k) ↦ rw (h, k) (Progress-refl o s, omega arith)
          | inr (h, k) ↦
              rw (h, k) (step _ _ _ (absorb-Progress source stop_at rest (tally found.0 o) found.1))
        ])
]
  where
    found : UpsertOutcome × Session
    found = upsert_found source review (find_review review.source_review_id s.work.reviews) s

    one : Progress o s (tally found.0 o) found.1 × (handled (tally found.0 o) ≡ handled o + 1)
    one = upsert_found-Progress source review _ o s

    reach :
        (r : Result Bool) (o' : IngestionOutcome)
        → Reached stop_at r (length rest) (tally found.0 o) o'
        → Reached stop_at r (suc (length rest)) o o'
    reach (ok false) o' h = omega (arith, one.1)
    reach (ok true) o' h = (omega (arith, one.1), h.1)
    reach (err e) o' h = omega (arith, one.1)

    step :
        (r : Result Bool) (o' : IngestionOutcome) (s' : Session)
        → Progress (tally found.0 o) found.1 o' s'
          × Reached stop_at r (length rest) (tally found.0 o) o'
        → Progress o s o' s' × Reached stop_at r (suc (length rest)) o o'
    step r o' s' (p, h) = (Progress-trans o (tally found.0 o) o' s found.1 s' one.0 p, reach r o' h)

-- What a stretch of the walk that ended well, or that raised, has done. A stretch that ended well has
-- committed all it did, and accounts for each entry that it fetched, exactly so if nothing stops it
-- early; one that raised has committed no less than it began with, and counted no less than it
-- committed.
abbrev pub Stretch : {B : Type 0} → Option ℕ → IngestionOutcome → Session → Walked B → Type 0
Stretch stop_at o s (ok b, o', s') =
    (s'.committed ≡ s'.work)
    × (rows s' + o.created ≡ rows s + o'.created)
    × (handled o' + o'.unmappable + o.fetched ≤ handled o + o.unmappable + o'.fetched)
    × (stop_at ≡ none
        → handled o' + o'.unmappable + o.fetched ≡ handled o + o.unmappable + o'.fetched)
    × (o.created ≤ o'.created)
Stretch stop_at o s (err e, o', s') =
    (length s.committed.reviews ≤ length s'.committed.reviews)
    × (length s'.committed.reviews + o.created ≤ length s.committed.reviews + o'.created)

pub save_cursor-reviews :
    (key : ℕ) (cursor : Option Text) (s : Session)
    → ((save_cursor key cursor s).work.reviews ≡ s.work.reviews)
      × ((save_cursor key cursor s).committed ≡ s.committed)
unfolding save_cursor
save_cursor-reviews key cursor s = ground arith

pub commit_cases :
    (s : Session)
    → ((e : Exception) × ((commit s).0 ≡ err e) × ((commit s).1 ≡ s))
      ⊎ (((commit s).0 ≡ ok tt) × ((commit s).1 ≡ record s { committed = s.work }))
unfolding commit flush
commit_cases s = elim (Bool-cases (db_accepted s.work)) [
  | inl good ↦ inr (rw (good, commit, flush), rw (good, commit, flush))
  | inr bad ↦ inl (refused, rw (bad, commit, flush), rw (bad, commit, flush))
]
  where
    refused : Exception
    refused = record { class_of = integrity_error; message = codes "row violates a constraint" }

raised-Stretch :
    (stop_at : Option ℕ) (e : Exception) (o o' : IngestionOutcome) (s s' : Session)
    → s'.committed ≡ s.committed
    → o.created ≤ o'.created
    → Stretch stop_at o s (let w : Walked Bool = (err e, o', s') in w)
raised-Stretch stop_at e o o' s s' same grown =
    let size = ap (λ (d : Db). length d.reviews) same in (omega (arith, size), omega (arith, size))

accounts_for :
    (stop_at : Option ℕ) (b : Bool) (page : ReviewPage) (o o' : IngestionOutcome)
    → o'.fetched ≡ o.fetched + length page.reviews + page.unmappable_count
    → o'.unmappable ≡ o.unmappable + page.unmappable_count
    → Reached stop_at (ok b) (length page.reviews) (count_page page o) o'
    → (handled o' + o'.unmappable + o.fetched ≤ handled o + o.unmappable + o'.fetched)
      × (stop_at ≡ none
          → handled o' + o'.unmappable + o.fetched ≡ handled o + o.unmappable + o'.fetched)
accounts_for stop_at true page o o' f u h = (omega (arith, h.0), λ e. absurd (h.1 e))
accounts_for stop_at false page o o' f u h = (omega arith, λ e. omega arith)

settle-Stretch :
    (stop_at : Option ℕ) (key : ℕ) (page : ReviewPage) (o o' : IngestionOutcome) (s s' : Session)
    (r : Result Bool)
    → s.committed ≡ s.work
    → Progress (count_page page o) s o' s'
    → Reached stop_at r (length page.reviews) (count_page page o) o'
    → Stretch stop_at o s (settle key page (r, o', s'))
unfolding settle
settle-Stretch stop_at key page o o' s s' (err e) synced p h =
    raised-Stretch stop_at e o o' s s' p.same_committed p.grown_created
settle-Stretch stop_at key page o o' s s' (ok b) synced p h = elim (commit_cases saved) [
  | inl (e, c, k) ↦
      rw (c, k) (raised-Stretch stop_at e o o' s saved (kept.1 ∙ p.same_committed) p.grown_created)
  | inr (c, k) ↦
      rw (c, k)
        (
          refl,
          omega (arith, p.added, ap length kept.0),
          (accounts_for stop_at b page o o' p.same_fetched p.same_unmappable h).0,
          (accounts_for stop_at b page o o' p.same_fetched p.same_unmappable h).1,
          p.grown_created,
        )
]
  where
    saved : Session
    saved = save_cursor key page.next_cursor s'

    kept : (saved.work.reviews ≡ s'.work.reviews) × (saved.committed ≡ s'.committed)
    kept = save_cursor-reviews key page.next_cursor s'

-- One round of the loop, on a session that had nothing pending.
pub take_page-Stretch :
    (source : Text) (stop_at : Option ℕ) (key : ℕ) (page : ReviewPage) (o : IngestionOutcome)
    (s : Session)
    → s.committed ≡ s.work
    → Stretch stop_at o s (take_page source stop_at key page o s)
unfolding take_page
take_page-Stretch source stop_at key page o s synced =
    let (p, h) = absorb-Progress source stop_at page.reviews (count_page page o) s in
    let (r, o', s') = absorb source stop_at page.reviews (count_page page o) s in
    settle-Stretch stop_at key page o o' s s' r synced p h
