-- ===== src/Prelude/Texts.antt =====
-- Text as a list of code points: Python's comparisons, `join`, `split` and `partition`.
use Prim.Native.Nat.{ℕ}
use Prim.Native.Char.{code}
use Prim.Native.String.{String}
use mathlib.Core.Path.{◌≡◌, refl, ap, ◌∙◌}
use mathlib.Core.Logic.{◌↔◌}
use mathlib.Core.Bool.{Bool, true, false, ◌&&◌, ◌||◌, not}
use mathlib.Core.List.{List, [], ◌∷◌, ◌++◌}
use native.Mathlib.Omega.{arith}
use tuzka_as_a_service.Prelude.Tests.{◌==◌, ltb, if◌then◌else◌}
use tuzka_as_a_service.Prelude.Lists.{all}

abbrev pub Text : Type 0
Text = List ℕ

abbrev pub codes : String → Text
codes String.[] = []
codes (String.◌∷◌ c s) = code c ∷ codes s

unfoldable pub text_eq : Text → Text → Bool
text_eq [] [] = true
text_eq (x ∷ xs) (y ∷ ys) = x == y && text_eq xs ys
text_eq _ _ = false

pub text_eq_iff : (s t : Text) → (text_eq s t ≡ true) ↔ (s ≡ t)
unfolding text_eq
text_eq_iff [] [] = ground arith
text_eq_iff [] (y ∷ ys) = ground arith
text_eq_iff (x ∷ xs) [] = ground arith
text_eq_iff (x ∷ xs) (y ∷ ys) = ground (arith, text_eq_iff xs ys)

-- `s < t` of two Python strings.
unfoldable pub text_ltb : Text → Text → Bool
text_ltb [] [] = false
text_ltb [] (y ∷ ys) = true
text_ltb (x ∷ xs) [] = false
text_ltb (x ∷ xs) (y ∷ ys) = ltb x y || (x == y && text_ltb xs ys)

-- `t in ts`.
unfoldable pub text_in : Text → List Text → Bool
unfolding text_eq
text_in t [] = false
text_in t (u ∷ us) = text_eq u t || text_in t us

-- `outputs <= others`.
unfoldable pub subset : List Text → List Text → Bool
unfolding text_in
subset ts us = all (λ t. text_in t us) ts

unfoldable pub insert_text : Text → List Text → List Text
insert_text t [] = t ∷ []
insert_text t (u ∷ us) =
    let rest = insert_text t us in if text_ltb u t then u ∷ rest else t ∷ u ∷ us

-- `sorted(ts)`.
unfoldable pub sort_texts : List Text → List Text
unfolding insert_text text_ltb
sort_texts [] = []
sort_texts (t ∷ ts) = insert_text t (sort_texts ts)

-- `sep.join(ts)` with one character.
unfoldable pub join : ℕ → List Text → Text
join c [] = []
join c (t ∷ []) = t
join c (t ∷ u ∷ us) = t ++ (c ∷ join c (u ∷ us))

abbrev onto_head : ℕ → List Text → List Text
onto_head x [] = (x ∷ []) ∷ []
onto_head x (t ∷ ts) = (x ∷ t) ∷ ts

-- `s.split(sep)`.
unfoldable pub split : ℕ → Text → List Text
split c [] = [] ∷ []
split c (x ∷ xs) = let rest = split c xs in if x == c then [] ∷ rest else onto_head x rest

-- The head and the tail of `s.partition(sep)`; without `sep` all is the head.
unfoldable pub partition : ℕ → Text → Text × Text
partition c [] = ([], [])
partition c (x ∷ xs) = let (h, t) = partition c xs in if x == c then ([], xs) else (x ∷ h, t)

abbrev pub is_free_of : ℕ → Text → Bool
is_free_of c t = all (λ x. not (x == c)) t

pub partition-append :
    (c : ℕ) (s t : Text) → is_free_of c s ≡ true → partition c (s ++ (c ∷ t)) ≡ (s, t)
unfolding partition
partition-append c [] t h = ground arith
partition-append c (x ∷ s) t h = ground (arith, partition-append c s t)

split_free : (c : ℕ) (t : Text) → is_free_of c t ≡ true → split c t ≡ t ∷ []
unfolding split
split_free c [] h = refl
split_free c (x ∷ t) h = ground (arith, split_free c t)

split-append : (c : ℕ) (s t : Text) → is_free_of c s ≡ true → split c (s ++ (c ∷ t)) ≡ s ∷ split c t
unfolding split
split-append c [] t h = ground arith
split-append c (x ∷ s) t h = ground (arith, split-append c s t)

pub split-join :
    (c : ℕ) (t : Text) (ts : List Text)
    → all (is_free_of c) (t ∷ ts) ≡ true
    → split c (join c (t ∷ ts)) ≡ t ∷ ts
unfolding join
split-join c t [] h = split_free c t (ground arith)
split-join c t (u ∷ us) h =
    split-append c t (join c (u ∷ us)) (ground arith)
    ∙ ap (λ l. t ∷ l) (split-join c u us (ground arith))

all-insert_text :
    (p : Text → Bool) (t : Text) (ts : List Text) → all p (insert_text t ts) ≡ (p t && all p ts)
unfolding insert_text
all-insert_text p t [] = refl
all-insert_text p t (u ∷ us) = ground (arith, all-insert_text p t us)

pub all-sort_texts : (p : Text → Bool) (ts : List Text) → all p (sort_texts ts) ≡ all p ts
unfolding sort_texts
all-sort_texts p [] = refl
all-sort_texts p (t ∷ ts) =
    all-insert_text p t (sort_texts ts) ∙ ap (λ b. p t && b) (all-sort_texts p ts)
