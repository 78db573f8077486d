-- ===== src/Redis/ZSet.antt =====
-- Redis sorted sets: members with scores, by score and then by member. The pending, delayed and
-- harvest queues of app/services/redis_jobs.py are such sets of job ids scored by times.
use tuzka_as_a_service.Prelude.{
  ℕ, ◌≡◌, Bool, true, false, ◌&&◌, ◌||◌, Option, none, some, List, [], ◌∷◌, arith, ltb, leb, ◌==◌,
  if◌then◌else◌, keep,
}

-- Entries are (member, score).
abbrev pub ZSet : Type 0
ZSet = List (ℕ × ℕ)

-- The order in which Redis lists entries.
abbrev pub before : ℕ × ℕ → ℕ × ℕ → Bool
before (a, s) (b, t) = ltb s t || (s == t && ltb a b)

-- ZREM.
abbrev pub zrem : ℕ → ZSet → ZSet
zrem a [] = []
zrem a ((b, t) ∷ z) = let rest = zrem a z in if b == a then rest else (b, t) ∷ rest

abbrev pub place : ℕ × ℕ → ZSet → ZSet
place e [] = e ∷ []
place e (x ∷ z) = let rest = place e z in if before e x then e ∷ x ∷ z else x ∷ rest

-- ZADD, which moves a member that is there.
abbrev pub zadd : ℕ → ℕ → ZSet → ZSet
zadd a s z = place (a, s) (zrem a z)

-- ZSCORE.
abbrev pub zscore : ℕ → ZSet → Option ℕ
zscore a [] = none
zscore a ((b, t) ∷ z) = let rest = zscore a z in if b == a then some t else rest

abbrev pub zhas : ℕ → ZSet → Bool
zhas a z = elim (zscore a z) [ none ↦ false | some t ↦ true ]

-- ZRANGEBYSCORE -inf now.
abbrev pub zuntil : ℕ → ZSet → ZSet
zuntil now z = keep (λ e. leb e.1 now) z

pub zscore-zrem : (a b : ℕ) (z : ZSet) → zscore b (zrem a z) ≡ (if a == b then none else zscore b z)
zscore-zrem a b [] = ground arith
zscore-zrem a b ((c, t) ∷ z) = ground (arith, zscore-zrem a b z)

zscore-place :
    (a s b : ℕ) (z : ZSet)
    → zscore a z ≡ none
    → zscore b (place (a, s) z) ≡ (if a == b then some s else zscore b z)
zscore-place a s b [] h = ground arith
zscore-place a s b ((c, t) ∷ z) h = ground (arith, zscore-place a s b z)

-- After ZADD the member has the new score, and the others keep theirs.
pub zscore-zadd :
    (a s b : ℕ) (z : ZSet) → zscore b (zadd a s z) ≡ (if a == b then some s else zscore b z)
zscore-zadd a s b z =
    ground (arith, zscore-place a s b (zrem a z), zscore-zrem a a z, zscore-zrem a b z)
