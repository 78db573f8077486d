-- ===== src/Prelude/Sets.antt =====
-- Redis sets of ids as lists without repetition.
use Prim.Native.Nat.{ℕ}
use mathlib.Core.Path.{◌≡◌, refl}
use mathlib.Core.Bool.{Bool, false, ◌||◌}
use mathlib.Core.List.{List, [], ◌∷◌}
use native.Mathlib.Omega.{arith}
use tuzka_as_a_service.Prelude.Tests.{◌==◌, if◌then◌else◌}

-- SISMEMBER.
abbrev pub member : ℕ → List ℕ → Bool
member a [] = false
member a (x ∷ xs) = x == a || member a xs

-- SADD.
abbrev pub sadd : ℕ → List ℕ → List ℕ
sadd a xs = if member a xs then xs else a ∷ xs

-- SREM.
abbrev pub srem : ℕ → List ℕ → List ℕ
srem a [] = []
srem a (x ∷ xs) = let rest = srem a xs in if x == a then rest else x ∷ rest

abbrev pub IsDistinct : List ℕ → Type 0
IsDistinct [] = Unit
IsDistinct (x ∷ xs) = (member x xs ≡ false) × IsDistinct xs

pub member-srem :
    (a b : ℕ) (xs : List ℕ) → member b (srem a xs) ≡ (if a == b then false else member b xs)
member-srem a b [] = ground arith
member-srem a b (x ∷ xs) = ground (arith, member-srem a b xs)

pub srem-IsDistinct : (a : ℕ) (xs : List ℕ) → IsDistinct xs → IsDistinct (srem a xs)
srem-IsDistinct a [] h = tt
srem-IsDistinct a (x ∷ xs) h = ground (arith, srem-IsDistinct a xs h.1, member-srem a x xs)

pub srem_absent : (a : ℕ) (xs : List ℕ) → member a xs ≡ false → srem a xs ≡ xs
srem_absent a [] h = refl
srem_absent a (x ∷ xs) h = ground (arith, srem_absent a xs)
