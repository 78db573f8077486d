-- ===== src/RateLimit.antt =====
-- The request limiter (app/services/rate_limit.py): GCRA in a Redis script. Times are ticks of the
-- Redis clock; `interval` is the emission interval T and `tau` the burst tolerance.
use tuzka_as_a_service.Prelude.{
  ℕ, zero, suc, ◌+◌, ◌-◌, ◌*◌, ◌≤◌, ◌≡◌, Bool, true, false, Option, none, some, List, [], ◌∷◌, ltb,
  ◌==◌, if◌then◌else◌, max, arith,
}

-- The TAT key with the time at which it expires.
pub record Bucket : Type 0 where
  pub tat : ℕ
  pub expires : ℕ

pub record RateLimitResult : Type 0 where
  pub allowed : Bool
  pub retry_after : ℕ

-- GET of the key, which is gone once it expired.
abbrev live_tat : Option Bucket → ℕ → Option ℕ
live_tat none now = none
live_tat (some b) now = if ltb now b.expires then some b.tat else none

-- `if tat == nil or tat < now then tat = now end`.
abbrev pub tat_at : Option ℕ → ℕ → ℕ
tat_at none now = now
tat_at (some tat) now = max tat now

-- `GCRA_LUA`; `second` is the length of one second, in ticks, by which the expiry is rounded up.
unfoldable pub gcra : ℕ → ℕ → ℕ → ℕ → Option Bucket → Option Bucket × RateLimitResult
gcra interval tau second now key =
    let tat = tat_at (live_tat key now) now in
    if ltb tau (tat - now)
    then (key, record { allowed = false; retry_after = tat - tau - now })
    else (
      some (record { tat = tat + interval; expires = now + tau + interval + second }),
      record { allowed = true; retry_after = 0 },
    )

-- `check`, for a limit per minute whose interval and tolerance are worked out; `minute` ticks.
unfoldable pub check : ℕ → ℕ → ℕ → ℕ → ℕ → ℕ → Option Bucket → Option Bucket × RateLimitResult
unfolding gcra
check per_minute interval burst second minute now key =
    if per_minute == 0
    then (key, record { allowed = false; retry_after = minute })
    else gcra interval (interval * burst) second now key

-- Requests of one user in turn: how many are allowed.
unfoldable pub serve : ℕ → ℕ → ℕ → List ℕ → Option Bucket → Option Bucket × ℕ
unfolding gcra
serve interval tau second [] key = (key, 0)
serve interval tau second (now ∷ times) key =
    let (key1, result) = gcra interval tau second now key in
    let (key2, n) = serve interval tau second times key1 in
    (key2, if result.allowed then suc n else n)

-- Times do not go back, from `since` to `until`.
abbrev pub Ordered : ℕ → ℕ → List ℕ → Type 0
Ordered since until [] = since ≤ until
Ordered since until (now ∷ times) = (since ≤ now) × Ordered now until times

-- What the key stands for at a time: an arrival time that its expiry does not hide while it lies
-- ahead.
abbrev pub IsKept : Option Bucket → Type 0
IsKept none = Unit
IsKept (some b) = b.tat ≤ b.expires

abbrev ahead : Option Bucket → ℕ
ahead none = 0
ahead (some b) = b.tat

abbrev pub replicate : ℕ → ℕ → List ℕ
replicate zero a = []
replicate (suc n) a = a ∷ replicate n a

-- A refused request changes nothing, and the same request made when the limiter says is allowed.
pub retry_after_suffices :
    (interval tau second now : ℕ) (key : Option Bucket)
    → IsKept key
    → (gcra interval tau second now key).1.allowed ≡ false
    → ((gcra interval tau second now key).0 ≡ key)
      × ((gcra interval tau second
            (now + (gcra interval tau second now key).1.retry_after)
            key).1.allowed
          ≡ true)
unfolding gcra
retry_after_suffices interval tau second now none k h = ground arith
retry_after_suffices interval tau second now (some b) k h = (ground arith, ground arith)
