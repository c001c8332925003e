-- ===== src/Ingestion/Walk.antt =====
-- The whole loop over `iter_pages`: it ends for a source that runs out of pages, and its counters.
use review_signal.Base.{
  Bool, suc, Text, some, ℕ, ◌≡◌, ap, Option, arith, length, ok, err, nat_eq, list_eq, option_eq,
  zero, refl, inl, inr, true, false, none, Option-cases, Result, ◌≤◌,
}
use review_signal.Ingestion.Record.{ReviewPage, IngestionOutcome}
use review_signal.Ingestion.Session.{Db, Session}
use review_signal.Ingestion.Service.{take_page, walk, Adapter, Walked}
use review_signal.Ingestion.Counts.{take_page-Stretch, Stretch}

Stretch-trans :
    {B C : Type 0} (stop_at : Option ℕ) (o o₁ : IngestionOutcome) (s s₁ : Session) (b : B)
    (w : Walked C)
    → Stretch stop_at o s (let w₁ : Walked B = (ok b, o₁, s₁) in w₁)
    → Stretch stop_at o₁ s₁ w
    → s.committed ≡ s.work
    → Stretch stop_at o s w
Stretch-trans stop_at o o₁ s s₁ b (ok c, o₂, s₂) p q synced = (
  q.0,
  omega (arith, p.1, q.1),
  omega (arith, p.2, q.2),
  λ e. omega (arith, p.3 e, q.3 e),
  omega (arith, p.4, q.4),
)
Stretch-trans stop_at o o₁ s s₁ b (err x, o₂, s₂) p q synced =
    let before = ap (λ (d : Db). length d.reviews) synced in
    let after = ap (λ (d : Db). length d.reviews) p.0 in
    (omega (arith, p.1, p.4, q.0, before, after), omega (arith, p.1, q.1, before, after))

abbrev pub Ended : Option ℕ → IngestionOutcome → Session → Option (Walked (Unit {0})) → Type 0
Ended stop_at o s none = Unit {0}
Ended stop_at o s (some w) = Stretch stop_at o s w

module _ {A : Type 0} (adapter : Adapter A) where
  -- A source that answers with at most `n` pages from here on, the last without a cursor, or raises.
  abbrev pub RunsOut : ℕ → A → Option Text → Type 0
  RunsOut zero a cursor = ⊥
  RunsOut (suc n) a cursor = elim (adapter.fetch_page a cursor).0 [
    | err e ↦ Unit
    | ok page ↦ elim page.next_cursor [
      | none ↦ Unit
      | some next ↦ RunsOut n (adapter.fetch_page a cursor).1 (some next)
    ]
  ]

module _ {A : Type 0} (adapter : Adapter A) (stop_at : Option ℕ) (key : ℕ) where
  pub walk-Stretch :
      (fuel : ℕ) (a : A) (cursor : Option Text) (o : IngestionOutcome) (s : Session)
      → s.committed ≡ s.work
      → Ended stop_at o s (walk adapter stop_at key fuel a cursor o s)
  unfolding walk
  walk-Stretch zero a cursor o s synced = tt
  walk-Stretch (suc fuel) a cursor o s synced =
      fetched (walk-Stretch fuel) (adapter.fetch_page a cursor) refl
    where
      Rest : Type 0
      Rest =
          (a : A) (cursor : Option Text) (o : IngestionOutcome) (s : Session)
          → s.committed ≡ s.work
          → Ended stop_at o s (walk adapter stop_at key fuel a cursor o s)

      counts : {w w' : Walked Bool} → w ≡ w' → w.1 ≡ w'.1
      counts t = ap (λ (w : Walked Bool). w.1) t

      session : {w w' : Walked Bool} → w ≡ w' → w.2 ≡ w'.2
      session t = ap (λ (w : Walked Bool). w.2) t

      later :
          (w : Option (Walked (Unit {0}))) (o' : IngestionOutcome) (s' : Session)
          → Stretch stop_at o s (let v : Walked Bool = (ok false, o', s') in v)
          → Ended stop_at o' s' w
          → Ended stop_at o s w
      later none o' s' st h = tt
      later (some w) o' s' st h = Stretch-trans stop_at o o' s s' false w st h synced

      next_page :
          Rest
          → (page : ReviewPage) (a' : A) (w : Walked Bool)
          → adapter.fetch_page a cursor ≡ (ok page, a')
          → take_page adapter.source stop_at key page o s ≡ w
          → Stretch stop_at o s w
          → Ended stop_at o s (walk adapter stop_at key (suc fuel) a cursor o s)
      next_page rest page a' (err e, o', s') f t st = rw (f, t, walk, counts t, session t) st
      next_page rest page a' (ok true, o', s') f t st = rw (f, t, walk, counts t, session t) st
      next_page rest page a' (ok false, o', s') f t st = elim (Option-cases page.next_cursor) [
        | inl last ↦ rw (f, t, last, walk, counts t, session t) st
        | inr (next, more) ↦
            rw (f, t, more, walk, counts t, session t, ap (λ (p : Result ReviewPage × A). p.1) f)
              (later _ o' s' st (rest a' (some next) o' s' st.0))
      ]

      fetched :
          Rest
          → (p : Result ReviewPage × A) → adapter.fetch_page a cursor ≡ p
          → Ended stop_at o s (walk adapter stop_at key (suc fuel) a cursor o s)
      fetched rest (err e, a') f = rw (f, walk) (omega arith, omega arith)
      fetched rest (ok page, a') f =
          next_page rest page a' _ f refl
            (take_page-Stretch adapter.source stop_at key page o s synced)

  -- With a round of fuel for each page the loop ends.
  pub walk-total :
      (n fuel : ℕ) (a : A) (cursor : Option Text) (o : IngestionOutcome) (s : Session)
      → n ≤ fuel
      → RunsOut adapter n a cursor
      → (w : Walked (Unit {0})) × (walk adapter stop_at key fuel a cursor o s ≡ some w)
  unfolding walk
  walk-total zero fuel a cursor o s le out = absurd out
  walk-total (suc n) zero a cursor o s le out = absurd (omega arith)
  walk-total (suc n) (suc fuel) a cursor o s le out =
      fetched (adapter.fetch_page a cursor).0 refl out
        (λ c o' s'. walk-total n fuel (adapter.fetch_page a cursor).1 c o' s' (omega arith))
    where
      Goal : Type 0
      Goal = (w : Walked (Unit {0})) × (walk adapter stop_at key (suc fuel) a cursor o s ≡ some w)

      Left : Result ReviewPage → Type 0
      Left (err e) = Unit
      Left (ok page) = elim page.next_cursor [
        | none ↦ Unit
        | some next ↦ RunsOut adapter n (adapter.fetch_page a cursor).1 (some next)
      ]

      Rest : Type 0
      Rest =
          (c : Option Text) (o' : IngestionOutcome) (s' : Session)
          → RunsOut adapter n (adapter.fetch_page a cursor).1 c
          → (w : Walked (Unit {0})) × (walk adapter stop_at key fuel (adapter.fetch_page a cursor).1
                c o' s'
              ≡ some w)

      taken :
          (page : ReviewPage) (r : Result Bool)
          → (adapter.fetch_page a cursor).0 ≡ ok page
          → (take_page adapter.source stop_at key page o s).0 ≡ r
          → Left (ok page)
          → Rest
          → Goal
      taken page (err e) f t out rest = (
        (
          err e,
          (take_page adapter.source stop_at key page o s).1,
          (take_page adapter.source stop_at key page o s).2,
        ),
        simp (f, t, walk),
      )
      taken page (ok true) f t out rest = (
        (
          ok tt,
          (take_page adapter.source stop_at key page o s).1,
          (take_page adapter.source stop_at key page o s).2,
        ),
        simp (f, t, walk),
      )
      taken page (ok false) f t out rest = elim (Option-cases page.next_cursor) [
        | inl last ↦ (
          (
            ok tt,
            (take_page adapter.source stop_at key page o s).1,
            (take_page adapter.source stop_at key page o s).2,
          ),
          simp (f, t, last, walk),
        )
        | inr (next, more) ↦
            let left : RunsOut adapter n (adapter.fetch_page a cursor).1 (some next) =
              rw more at out in
            let (w, h) =
              rest (some next) (take_page adapter.source stop_at key page o s).1
                (take_page adapter.source stop_at key page o s).2 left in
            (w, simp (f, t, more, walk) h)
      ]

      fetched : (r : Result ReviewPage) → (adapter.fetch_page a cursor).0 ≡ r → Left r → Rest → Goal
      fetched (err e) f out rest = ((err e, o, s), rw (f, walk))
      fetched (ok page) f out rest = taken page _ f refl out rest
