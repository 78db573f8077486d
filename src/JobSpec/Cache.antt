-- ===== src/JobSpec/Cache.antt =====
-- The cache of `_domain_capabilities` (app/services/job_spec.py), over the answers that the database
-- gives at each time. Times are in seconds of a monotonic clock.
use tuzka_as_a_service.Prelude.{
  ℕ, ◌+◌, ◌≤◌, ◌<◌, ◌≡◌, refl, Option, none, some, List, [], ◌∷◌, Text, arith, ltb, if◌then◌else◌,
  text_eq, text_eq_iff, Bool-cases, inl, inr, Option-cases, All,
}
use tuzka_as_a_service.JobSpec.{BackendCapability}

abbrev pub capabilities_ttl : ℕ
capabilities_ttl = 5

-- Domain → when its backends were loaded, and which.
abbrev pub Cache : Type 0
Cache = Text → Option (ℕ × List BackendCapability)

abbrev pub put : Text → Option (ℕ × List BackendCapability) → Cache → Cache
put name entry cache m = if text_eq name m then entry else cache m

-- `clear_capabilities_cache`.
abbrev pub clear_capabilities_cache : Cache
clear_capabilities_cache name = none

-- Only served domains are cached.
abbrev pub remember : ℕ → Text → List BackendCapability → Cache → Cache
remember now name [] cache = cache
remember now name (b ∷ backends) cache = put name (some (now, b ∷ backends)) cache

-- `_domain_capabilities` at a time: the cache after it, and its answer.
unfoldable pub domain_capabilities :
    (Text → List BackendCapability) → ℕ → Text → Cache → Cache × List BackendCapability
unfolding text_eq
domain_capabilities db now name cache =
    let loaded : Cache × List BackendCapability = (remember now name (db name) cache, db name) in
    elim (cache name) [
      | none ↦ loaded
      | some (at, backends) ↦ if ltb now (at + capabilities_ttl) then (cache, backends) else loaded
    ]

-- Requests at their times, one after another, each with the answer it got.
unfoldable pub serve_requests :
    (ℕ → Text → List BackendCapability)
    → List (ℕ × Text)
    → Cache
    → List (ℕ × Text × List BackendCapability)
unfolding domain_capabilities
serve_requests db [] cache = []
serve_requests db ((now, name) ∷ requests) cache =
    let (cache1, backends) = domain_capabilities (db now) now name cache in
    (now, name, backends) ∷ serve_requests db requests cache1

-- Every entry is what the database answered when it was loaded.
abbrev IsHistory : (ℕ → Text → List BackendCapability) → ℕ → Cache → Type 0
IsHistory db now cache =
    (name : Text) (at : ℕ) (backends : List BackendCapability)
    → cache name ≡ some (at, backends)
    → (at ≤ now) × (backends ≡ db at name)

-- The answer is what the database said less than five seconds ago.
abbrev pub IsRecent :
    (ℕ → Text → List BackendCapability) → ℕ × Text × List BackendCapability → Type 0
IsRecent db (now, name, backends) =
    (at : ℕ) × (at ≤ now) × (now < at + capabilities_ttl) × (backends ≡ db at name)

-- The times do not run backwards.
abbrev pub Follow : ℕ → List (ℕ × Text) → Type 0
Follow before [] = Unit
Follow before ((now, name) ∷ requests) = (before ≤ now) × Follow now requests

module _ (db : ℕ → Text → List BackendCapability) where
  later-IsHistory :
      (before now : ℕ) (cache : Cache)
      → before ≤ now
      → IsHistory db before cache
      → IsHistory db now cache
  later-IsHistory before now cache h k name at backends q =
      let (a, b) = k name at backends q in (omega (arith, a, h), b)

  put-IsHistory :
      (now : ℕ) (name : Text) (answer : List BackendCapability) (cache : Cache)
      → answer ≡ db now name
      → IsHistory db now cache
      → IsHistory db now (put name (some (now, answer)) cache)
  put-IsHistory now name answer cache q k m at backends found = elim (Bool-cases (text_eq name m)) [
    | inl same ↦
        let e : name ≡ m = (text_eq_iff name m).0 same in
        let loaded_at : now ≡ at = ground (arith, found, same) in
        let loaded : answer ≡ backends = ground (arith, found, same) in
        (omega (arith, loaded_at), cc (q, e, loaded_at, loaded))
    | inr apart ↦ k m at backends (ground (arith, found, apart))
  ]

  remember-IsHistory :
      (now : ℕ) (name : Text) (answer : List BackendCapability) (cache : Cache)
      → answer ≡ db now name
      → IsHistory db now cache
      → IsHistory db now (remember now name answer cache)
  remember-IsHistory now name [] cache q k = k
  remember-IsHistory now name (b ∷ answer) cache q k = put-IsHistory now name (b ∷ answer) cache q k

  abbrev Answered : ℕ → Text → Cache × List BackendCapability → Type 0
  Answered now name (cache, backends) = IsHistory db now cache × IsRecent db (now, name, backends)

  loaded_answer :
      (now : ℕ) (name : Text) (cache : Cache)
      → IsHistory db now cache
      → Answered now name (remember now name (db now name) cache, db now name)
  loaded_answer now name cache k = (
    remember-IsHistory now name (db now name) cache refl k,
    (now, omega arith, omega arith, refl),
  )

  domain_capabilities-IsRecent :
      (now : ℕ) (name : Text) (cache : Cache)
      → IsHistory db now cache
      → Answered now name (domain_capabilities (db now) now name cache)
  unfolding domain_capabilities
  domain_capabilities-IsRecent now name cache k = elim (Option-cases (cache name)) [
    | inl e ↦ rw (e, domain_capabilities) (loaded_answer now name cache k)
    | inr ((at, backends), e) ↦ elim (Bool-cases (ltb now (at + capabilities_ttl))) [
      | inr old ↦ rw (e, domain_capabilities, old) (loaded_answer now name cache k)
      | inl fresh ↦
          rw (e, domain_capabilities, fresh)
            (k, (at, (k name at backends e).0, ground arith, (k name at backends e).1))
    ]
  ]

  requests-IsRecent :
      (requests : List (ℕ × Text)) (before : ℕ) (cache : Cache)
      → Follow before requests
      → IsHistory db before cache
      → All (IsRecent db) (serve_requests db requests cache)
  unfolding serve_requests
  requests-IsRecent [] before cache f k = tt
  requests-IsRecent ((now, name) ∷ requests) before cache f k =
      let (k1, recent) =
        domain_capabilities-IsRecent now name cache (later-IsHistory before now cache f.0 k) in
      (
        recent,
        requests-IsRecent requests now (domain_capabilities (db now) now name cache).0 f.1 k1,
      )

-- Whatever the requests, a domain's capabilities are never five seconds old: each answer is what the
-- database said of that domain less than five seconds before, from an empty cache and with a clock
-- that does not run backwards.
pub serve_requests-IsRecent :
    (db : ℕ → Text → List BackendCapability) (requests : List (ℕ × Text))
    → Follow 0 requests
    → All (IsRecent db) (serve_requests db requests clear_capabilities_cache)
serve_requests-IsRecent db requests f =
    requests-IsRecent db requests 0 clear_capabilities_cache f (λ name at backends q. absurd (cc q))
