-- ===== src/Jobs/Retries.antt =====
-- The retry policy against what queue.py's comments ask of it.
use review_signal.Base.{
  false, ltb, ℕ, zero, suc, ◌+◌, ◌-◌, ◌≤◌, ◌<◌, min, ◌≡◌, refl, ap, Option, none, some, arith,
  if◌then◌else◌, length, get_elem?, get_or, ◌==◌, nat_eq,
}
use review_signal.Jobs.Record.{Retry}
use review_signal.Jobs.Queue.{retry_backoff_seconds, intervals_from, retry_policy}

-- The wait before the retry of index `i`: half a minute, two minutes, then five each time.
abbrev pub wait_before : ℕ → ℕ
wait_before i = if i == 0 then 30 else if i == 1 then 120 else 300

abbrev pub retries_of : Option Retry → ℕ
retries_of none = 0
retries_of (some r) = r.max

backoff_at : (i : ℕ) → get_or retry_backoff_seconds (min i 2) 0 ≡ wait_before i
backoff_at zero = refl
backoff_at (suc zero) = refl
backoff_at (suc (suc i)) = let e : min (suc (suc i)) 2 ≡ 2 = omega arith in rw e (ground arith)

length-intervals_from : (n i : ℕ) → length (intervals_from n i) ≡ n
unfolding intervals_from
length-intervals_from zero i = refl
length-intervals_from (suc n) i = ap suc (length-intervals_from n (i + 1))

get_elem?-intervals_from :
    (n i j : ℕ) → j < n → get_elem? (intervals_from n i) j ≡ some (wait_before (i + j))
unfolding intervals_from
get_elem?-intervals_from zero i j h = elim h [ ]
get_elem?-intervals_from (suc n) i zero h =
    let e : i + 0 ≡ i = omega arith in rw e (ap some (backoff_at i))
get_elem?-intervals_from (suc n) i (suc j) h =
    let e : i + suc j ≡ i + 1 + j = omega arith in
    rw e (get_elem?-intervals_from n (i + 1) j (omega arith))

-- What a policy must be for a job of `m` attempts.
abbrev pub Follows : ℕ → Option Retry → Type 0
Follows m none = m < 2
Follows m (some r) =
    (r.max + 1 ≡ m)
    × (1 ≤ r.max)
    × (length r.interval ≡ r.max)
    × ((i : ℕ) → i < r.max → get_elem? r.interval i ≡ some (wait_before i))

-- For every number of attempts: no policy below two attempts; else one retry fewer than attempts, at
-- least one, with one wait for each retry: 30 seconds, 120 seconds, then 300 seconds each time.
pub retry_policy-Follows : (m : ℕ) → Follows m (retry_policy m)
unfolding retry_policy
retry_policy-Follows zero = omega arith
retry_policy-Follows (suc zero) = omega arith
retry_policy-Follows (suc (suc n)) =
    let e : suc (suc n) - 1 ≡ suc n = omega arith in
    let many : ltb (suc n) 1 ≡ false = ground arith in
    rw (e, many)
      (
        omega arith,
        omega arith,
        length-intervals_from (suc n) 0,
        λ i h. let z : 0 + i ≡ i = omega arith in rw z at (get_elem?-intervals_from (suc n) 0 i h),
      )

-- RQ's deliveries, the first and the retries, are the attempts that the job asks for.
pub retries_of-retry_policy : (m : ℕ) → 1 ≤ m → 1 + retries_of (retry_policy m) ≡ m
unfolding retry_policy
retries_of-retry_policy m h = ground arith
