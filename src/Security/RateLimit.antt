-- ===== src/Security/RateLimit.antt =====
-- The in-memory limiter: `InMemoryRateLimiter` of incidentops/security/rate_limit.py. Times are
-- natural numbers; a bucket holds the times of the admitted requests, the oldest first.
pub mod Window
use ops_incident_core.Prelude.{
  ℕ, ◌+◌, ◌≤◌, ◌<◌, ◌≡◌, ◌↔◌, refl, Bool, true, false, List, [], ◌∷◌, ◌++◌, arith, if◌then◌else◌,
  leb, ltb, length, length-append, All, All-append, select,
}

-- `while bucket and bucket[0] <= now - window_seconds: bucket.popleft()`
unfoldable pub expire : ℕ → ℕ → List ℕ → List ℕ
expire now window [] = []
expire now window (t ∷ ts) = if leb (t + window) now then expire now window ts else t ∷ ts

-- One request on its bucket: the bucket afterwards, and whether the request is admitted; a
-- refusal is the HTTP error 429.
unfoldable pub check : ℕ → ℕ → ℕ → List ℕ → List ℕ × Bool
unfolding expire
check now limit window bucket =
    let live = expire now window bucket in
    if leb limit (length live) then (live, false) else (live ++ now ∷ [], true)

-- Requests at the given times, one after another: the admitted ones, the oldest first.
unfoldable pub run : ℕ → ℕ → List ℕ → List ℕ → List ℕ × List ℕ
unfolding check
run limit window [] bucket = (bucket, [])
run limit window (now ∷ times) bucket =
    let (bucket', admitted) = check now limit window bucket in
    let (final, rest) = run limit window times bucket' in
    (final, if admitted then now ∷ rest else rest)
