-- ===== src/Versions/Cache.antt =====
-- `get_analyzer_version` and `get_cached_analyzer_version` of backend/app/pipeline/service.py, with
-- `_version_cache`. Times are seconds.
use retro_doc.Prelude.{
  ℕ, ◌+◌, ◌≤◌, ◌<◌, ltb, lt→ltb, Text, ◌&&◌, Option, none, some, is_some, List, [], ◌∷◌, ◌≡◌, sym,
  subst, ap, refl, All, All-map, if◌then◌else◌, arith,
}

-- `_version_cache`
pub record VersionCache : Type 0 where
  pub version : Option Text
  pub expires_at : ℕ
  pub retry_after : ℕ

-- A read: the time it starts, what the others leave in the cache before it has the lock, and what
-- the worker would answer it, `none` being an exception, at which time.
pub record Read : Type 0 where
  pub now : ℕ
  pub meanwhile : VersionCache → VersionCache
  pub answer : Option Text
  pub answered_at : ℕ

module _ (ttl failure_ttl : ℕ) where
  -- `none` is the error 502.
  unfoldable pub get_analyzer_version : Option Text → ℕ → VersionCache → Option Text × VersionCache
  get_analyzer_version none t c = (none, record c { retry_after = t + failure_ttl })
  get_analyzer_version (some v) t c = (some v, record c { version = some v; expires_at = t + ttl })

  -- What the cache says without the worker: an answer, or that the worker is to be asked.
  unfoldable pub cached : ℕ → VersionCache → Option (Option Text)
  cached now c =
      if is_some c.version && ltb now c.expires_at
      then some c.version
      else if ltb now c.retry_after
      then some none
      else none

  -- The result, the cache, and how many times the worker was asked.
  pub record Answered : Type 0 where
    pub result : Option Text
    pub cache : VersionCache
    pub calls : ℕ

  unfoldable pub fetched : Option Text × VersionCache → Answered
  fetched (v, c) = record { result = v; cache = c; calls = 1 }

  unfoldable pub after_lock : Read → Option (Option Text) → VersionCache → Answered
  unfolding fetched get_analyzer_version
  after_lock r (some v) c = record { result = v; cache = c; calls = 0 }
  after_lock r none c = fetched (get_analyzer_version r.answer r.answered_at c)

  unfoldable pub before_lock : Read → Option (Option Text) → VersionCache → Answered
  unfolding after_lock cached
  before_lock r (some v) c = record { result = v; cache = c; calls = 0 }
  before_lock r none c = after_lock r (cached r.now (r.meanwhile c)) (r.meanwhile c)

  unfoldable pub get_cached_analyzer_version : Read → VersionCache → Answered
  unfolding before_lock
  get_cached_analyzer_version r c = before_lock r (cached r.now c) c

  -- Reads, each from the cache that the one before left: the results and the number of calls.
  unfoldable pub reads : List Read → VersionCache → List (Option Text) × ℕ
  unfolding get_cached_analyzer_version
  reads [] c = ([], 0)
  reads (r ∷ rs) c =
      let a = get_cached_analyzer_version r c in
      let (vs, n) = reads rs a.cache in (a.result ∷ vs, a.calls + n)

  cached-reads :
      (v : Option Text) (c : VersionCache) (rs : List Read)
      → All (λ r. cached r.now c ≡ some v) rs
      → ((reads rs c).1 ≡ 0) × All (λ x. x ≡ v) (reads rs c).0
  unfolding reads
  cached-reads v c [] h = (refl, tt)
  cached-reads v c (r ∷ rs) h =
      let w = cached-reads v c rs h.1 in
      let e = ap (λ o. before_lock r o c) h.0 in
      subst
        (λ a.
          (a.calls + (reads rs a.cache).1 ≡ 0)
          × ((a.result ≡ v) × All (λ x. x ≡ v) (reads rs a.cache).0))
        (sym e) (omega (arith, w.0), (refl, w.1))

  -- After the worker has failed to answer at time `t`, reads that follow one another, each from the
  -- cache that the one before left and the first from the one that the failure left, with no other
  -- writer in between, do not ask the worker again and each answer that the version is unknown, if
  -- each starts before `t + failure_ttl` and when the version that was cached before the failure, if
  -- any, has expired.
  pub get_analyzer_version-outage :
      (t : ℕ) (c : VersionCache) (rs : List Read)
      → All (λ r. (r.now < t + failure_ttl) × (c.expires_at ≤ r.now)) rs
      → let after = reads rs (get_analyzer_version none t c).1 in
        (after.1 ≡ 0) × All (λ x. x ≡ none) after.0
  unfolding cached get_analyzer_version
  get_analyzer_version-outage t c rs h = cached-reads none (get_analyzer_version none t c).1 rs (
      All-map (λ (r : Read). (r.now < t + failure_ttl) × (c.expires_at ≤ r.now)) _ rs
        (λ r k. silent r k) h)
    where
      silent :
          (r : Read)
          → (r.now < t + failure_ttl) × (c.expires_at ≤ r.now)
          → cached r.now (record c { retry_after = t + failure_ttl }) ≡ some none
      silent r k = ground (arith, k.0, k.1)

  -- After the worker has answered `v` at time `t`, reads that follow one another, each from the cache
  -- that the one before left and the first from the one that the answer left, with no other writer in
  -- between, do not ask the worker again and each answer `v`, if each starts before `t + ttl`.
  pub get_analyzer_version-fresh :
      (v : Text) (t : ℕ) (c : VersionCache) (rs : List Read)
      → All (λ r. r.now < t + ttl) rs
      → let after = reads rs (get_analyzer_version (some v) t c).1 in
        (after.1 ≡ 0) × All (λ x. x ≡ some v) after.0
  unfolding cached get_analyzer_version
  get_analyzer_version-fresh v t c rs h =
      cached-reads (some v) (get_analyzer_version (some v) t c).1 rs
        (All-map (λ (r : Read). r.now < t + ttl) _ rs (λ r k. fresh r k) h)
    where
      fresh :
          (r : Read)
          → r.now < t + ttl
          → cached r.now (record c { version = some v; expires_at = t + ttl }) ≡ some (some v)
      fresh r k = rw (lt→ltb r.now (t + ttl) k) refl
