-- ===== src/Ingestion/Runs.antt =====
-- A whole run of `IngestionService._run`: what is committed when it ends, well or badly.
use review_signal.Base.{
  ℕ, ◌≤◌, ◌≡◌, refl, Option, none, some, Result, ok, err, nat_eq, list_eq, option_eq, ◌+◌, ap, inl,
  inr, Bool-cases, Option-cases, arith, length, Exception, Text, ◌∙◌,
}
use review_signal.Ingestion.Record.{success, SyncStatus, IngestionOutcome, no_outcome}
use review_signal.Ingestion.Session.{Db, flush, Session, db_accepted, commit}
use review_signal.Ingestion.SyncRuns.{find_run, start}
use review_signal.Ingestion.Service.{
  walk, fail, Walked, then_return, then_raise, finish, close_run, Adapter, run,
}
use review_signal.Ingestion.Counts.{rows, handled, Stretch}
use review_signal.Ingestion.Walk.{walk-Stretch, Ended, RunsOut, walk-total}

-- With a round of fuel for each page of a source that runs out, a run ends, well or badly.
pub run-total :
    {A : Type 0} (adapter : Adapter A) (stop_at : Option ℕ) (begun ended n fuel : ℕ) (a : A)
    (s : Session)
    → n ≤ fuel
    → RunsOut adapter n a none
    → (r : Result IngestionOutcome × Session) × (run adapter stop_at begun ended fuel a s ≡ some r)
unfolding run
run-total adapter stop_at begun ended n fuel a s le out =
    started (start adapter.source begun s).0 refl
  where
    s₁ : Session
    s₁ = (start adapter.source begun s).1

    Goal : Type 0
    Goal =
        (r : Result IngestionOutcome × Session) × (run adapter stop_at begun ended fuel a s
          ≡ some r)

    kept :
        (key : ℕ) (r : Result (Unit {0}))
        → (start adapter.source begun s).0 ≡ ok key
        → (commit s₁).0 ≡ r
        → Goal
    kept key (err e) h c = ((err e, (commit s₁).1), rw (h, c, run))
    kept key (ok u) h c =
        let (w, walked) =
          walk-total adapter stop_at key n fuel a none no_outcome (commit s₁).1 le out in
        (close_run key ended w, rw (h, c, walked, run))

    started : (r : Result ℕ) → (start adapter.source begun s).0 ≡ r → Goal
    started (err e) h = ((err e, s₁), rw (h, run))
    started (ok key) h = kept key _ h refl

pub commit-keeps :
    (s : Session)
    → ((commit s).1.work ≡ s.work)
      × ((commit s).0 ≡ ok tt → (commit s).1.committed ≡ (commit s).1.work)
unfolding commit flush
commit-keeps s = elim (Bool-cases (db_accepted s.work)) [
  | inl good ↦ rw (good, commit, flush) (refl, λ e. refl)
  | inr bad ↦ rw (bad, commit, flush) (refl, λ e. cc)
]

finish-keeps :
    (key : ℕ) (status : SyncStatus) (o : IngestionOutcome) (now : ℕ) (s : Session)
    → let (r, s') = finish key status o now s in
      (s'.work.reviews ≡ s.work.reviews) × (r ≡ ok tt → s'.committed ≡ s'.work)
unfolding finish
finish-keeps key status o now s = elim (Option-cases (find_run key s.work.sync_runs)) [
  | inl gone ↦ rw (gone, finish) (ap (λ (d : Db). d.reviews) (commit-keeps s).0, (commit-keeps s).1)
  | inr (row, found) ↦
      rw (found, finish) (ap (λ (d : Db). d.reviews) (commit-keeps _).0, (commit-keeps _).1)
]

-- What a successful run must have done to the session it began with.
abbrev pub Succeeded : Option ℕ → Session → IngestionOutcome → Session → Type 0
Succeeded stop_at s o s' =
    (s'.committed ≡ s'.work)
    × (rows s' ≡ rows s + o.created)
    × (handled o + o.unmappable ≤ o.fetched)
    × (stop_at ≡ none → handled o + o.unmappable ≡ o.fetched)

then_return-ok :
    {A : Type 0} (r : Result (Unit {0})) (a b : A) → then_return r a ≡ ok b → (r ≡ ok tt) × (a ≡ b)
then_return-ok (ok u) a b h = ground arith
then_return-ok (err e) a b h = cc

then_raise-ne-ok :
    {A : Type 0} (r : Result (Unit {0})) (e : Exception) {b : A} → then_raise r e ≡ ok b → ⊥
then_raise-ne-ok (ok u) e h = cc
then_raise-ne-ok (err x) e h = cc

close_run-Succeeded :
    (stop_at : Option ℕ) (key now : ℕ) (base s' : Session) (o : IngestionOutcome)
    (w : Walked (Unit {0}))
    → Stretch stop_at no_outcome base w
    → (close_run key now w).0 ≡ ok o
    → (close_run key now w).1 ≡ s'
    → Succeeded stop_at base o s'
unfolding close_run
close_run-Succeeded stop_at key now base s' o (err e, o₁, s₁) st r e' =
    absurd (then_raise-ne-ok (fail key o₁ e now s₁).0 e r)
close_run-Succeeded stop_at key now base s' o (ok u, o₁, s₁) st r e' =
    let kept = finish-keeps key success o₁ now s₁ in
    let (fine, same) = then_return-ok (finish key success o₁ now s₁).0 o₁ o r in
    rw (← e', ← same)
      (
        kept.1 fine,
        omega (arith, st.1, ap length kept.0),
        omega (arith, st.2),
        λ none_given. omega (arith, st.3 none_given),
      )

start-keeps :
    (source : Text) (now : ℕ) (s : Session)
    → ((start source now s).1.work.reviews ≡ s.work.reviews)
      × ((start source now s).1.committed ≡ s.committed)
unfolding start flush
start-keeps source now s = ground arith

-- A run that succeeds has committed all that it did; its `created` is exactly the number of rows by
-- which the table grew; and it accounts for each entry that was fetched as created, updated,
-- unchanged, unmappable, or (under a watermark only) not looked at.
pub run-Succeeded :
    {A : Type 0} (adapter : Adapter A) (stop_at : Option ℕ) (begun ended fuel : ℕ) (a : A)
    (s s' : Session) (o : IngestionOutcome)
    → run adapter stop_at begun ended fuel a s ≡ some (ok o, s')
    → Succeeded stop_at s o s'
unfolding run
run-Succeeded adapter stop_at begun ended fuel a s s' o e =
    started (start adapter.source begun s).0 refl
  where
    s₁ : Session
    s₁ = (start adapter.source begun s).1

    s₂ : Session
    s₂ = (commit s₁).1

    same_rows : s₂.work.reviews ≡ s.work.reviews
    same_rows =
        ap (λ (d : Db). d.reviews) (commit-keeps s₁).0 ∙ (start-keeps adapter.source begun s).0

    walked :
        (key : ℕ) (w : Option (Walked (Unit {0})))
        → (start adapter.source begun s).0 ≡ ok key
        → (commit s₁).0 ≡ ok tt
        → walk adapter stop_at key fuel a none no_outcome s₂ ≡ w
        → Ended stop_at no_outcome s₂ w
        → Succeeded stop_at s o s'
    walked key none h c x st =
        let no : none ≡ some (let v : Result IngestionOutcome × Session = (ok o, s') in v) =
          rw (h, c, x, run) at e in
        cc no
    walked key (some w) h c x st =
        let it : some (close_run key ended w)
            ≡ some (let v : Result IngestionOutcome × Session = (ok o, s') in v) =
          rw (h, c, x, run) at e in
        let same : close_run key ended w ≡ (ok o, s') = cc it in
        let (a₁, a₂, a₃, a₄) =
          close_run-Succeeded stop_at key ended s₂ s' o w st
            (ap (λ (p : Result IngestionOutcome × Session). p.0) same)
            (ap (λ (p : Result IngestionOutcome × Session). p.1) same) in
        (a₁, omega (arith, a₂, ap length same_rows), a₃, a₄)

    kept :
        (key : ℕ) (r : Result (Unit {0}))
        → (start adapter.source begun s).0 ≡ ok key
        → (commit s₁).0 ≡ r
        → Succeeded stop_at s o s'
    kept key (err x) h c = cc (rw (h, c, run) at e)
    kept key (ok u) h c =
        walked key _ h c refl
          (walk-Stretch adapter stop_at key fuel a none no_outcome s₂ ((commit-keeps s₁).1 c))

    started : (r : Result ℕ) → (start adapter.source begun s).0 ≡ r → Succeeded stop_at s o s'
    started (err x) h = cc (rw (h, run) at e)
    started (ok key) h = kept key _ h refl
