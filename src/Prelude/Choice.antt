-- ===== src/Prelude/Choice.antt =====
-- Membership of a list, and Python's `min(xs, key=...)`.
use mathlib.Core.Path.{◌≡◌, refl, sym, subst, ◌∙◌}
use mathlib.Core.Logic.{◌⊎◌, inl, inr}
use mathlib.Core.Bool.{Bool, true, false}
use mathlib.Core.List.{List, [], ◌∷◌}
use native.Mathlib.Omega.{arith}
use tuzka_as_a_service.Prelude.Tests.{if◌then◌else◌, Bool-cases}
use tuzka_as_a_service.Prelude.Lists.{keep, all, All}

module _ {A : Type 0} where
  abbrev pub In : A → List A → Type 0
  In x [] = ⊥
  In x (y ∷ ys) = (x ≡ y) ⊎ In x ys

  pub In-keep : (p : A → Bool) (x : A) (xs : List A) → In x (keep p xs) → In x xs × (p x ≡ true)
  In-keep p x [] h = absurd h
  In-keep p x (y ∷ ys) h =
      let rest = In-keep p x ys in
      elim (Bool-cases (p y)) [
        | inl e ↦ kept e rest (rw e at h)
        | inr e ↦ let (m, q) = rest (rw e at h) in (inr m, q)
      ]
    where
      kept :
          p y ≡ true
          → (In x (keep p ys) → In x ys × (p x ≡ true))
          → (x ≡ y) ⊎ In x (keep p ys)
          → ((x ≡ y) ⊎ In x ys) × (p x ≡ true)
      kept e rest (inl q) = (inl q, subst (λ z. p z ≡ true) (sym q) e)
      kept e rest (inr m) = (inr (rest m).0, (rest m).1)

  pub keep-In : (p : A → Bool) (x : A) (xs : List A) → In x xs → p x ≡ true → In x (keep p xs)
  keep-In p x [] h e = absurd h
  keep-In p x (y ∷ ys) (inl q) e = rw (subst (λ z. p z ≡ true) q e) (inl q)
  keep-In p x (y ∷ ys) (inr m) e = elim (Bool-cases (p y)) [
    | inl f ↦ rw f (inr (keep-In p x ys m e))
    | inr f ↦ rw f (keep-In p x ys m e)
  ]

  pub all-In : (p : A → Bool) (x : A) (xs : List A) → all p xs ≡ true → In x xs → p x ≡ true
  all-In p x [] h m = absurd m
  all-In p x (y ∷ ys) h (inl q) = subst (λ z. p z ≡ true) (sym q) (ground arith)
  all-In p x (y ∷ ys) h (inr m) = all-In p x ys (ground arith) m

  pub All-of : (P : A → Type 0) (xs : List A) → ((x : A) → In x xs → P x) → All P xs
  All-of P [] f = tt
  All-of P (x ∷ xs) f = (f x (inl refl), All-of P xs (λ y m. f y (inr m)))

  module _ {K : Type 0} (le : K → K → Bool) (key : A → K) where
    abbrev lesser : A → A → A
    lesser x y = if le (key x) (key y) then x else y

    -- The first of the least by the key among `x` and the rest.
    unfoldable pub least : A → List A → A
    least x [] = x
    least x (y ∷ ys) = least (lesser x y) ys

    one_of : (x y : A) → (lesser x y ≡ x) ⊎ (lesser x y ≡ y)
    one_of x y = elim (Bool-cases (le (key x) (key y))) [ inl e ↦ inl (rw e) | inr e ↦ inr (rw e) ]

    among : (v w x y : A) (ys : List A) → (w ≡ x) ⊎ (w ≡ y) → In v (w ∷ ys) → In v (x ∷ y ∷ ys)
    among v w x y ys (inl e) (inl q) = inl (q ∙ e)
    among v w x y ys (inr e) (inl q) = inr (inl (q ∙ e))
    among v w x y ys e (inr m) = inr (inr m)

    pub least-In : (x : A) (ys : List A) → In (least x ys) (x ∷ ys)
    unfolding least
    least-In x [] = inl refl
    least-In x (y ∷ ys) =
        among (least (lesser x y) ys) (lesser x y) x y ys (one_of x y) (least-In (lesser x y) ys)

    module _ (total : (a b : K) → (le a b ≡ true) ⊎ (le b a ≡ true))
        (trans : (a b c : K) → le a b ≡ true → le b c ≡ true → le a c ≡ true) where
      below : (a b : K) → le a b ≡ false → le b a ≡ true
      below a b e = elim (total a b) [ inl q ↦ cc | inr q ↦ q ]

      reflex : (a : K) → le a a ≡ true
      reflex a = elim (total a a) [ inl q ↦ q | inr q ↦ q ]

      lesser-le :
          (x y : A)
          → (le (key (lesser x y)) (key x) ≡ true) × (le (key (lesser x y)) (key y) ≡ true)
      lesser-le x y = elim (Bool-cases (le (key x) (key y))) [
        | inl e ↦ rw e (reflex (key x), e)
        | inr e ↦ rw e (below (key x) (key y) e, reflex (key y))
      ]

      pub least-le :
          (x : A) (ys : List A) (z : A) → In z (x ∷ ys) → le (key (least x ys)) (key z) ≡ true
      unfolding least
      least-le x [] z (inl q) = rw q (reflex (key x))
      least-le x [] z (inr m) = absurd m
      least-le x (y ∷ ys) z (inl q) =
          rw q (trans _ _ _ (least-le (lesser x y) ys (lesser x y) (inl refl)) (lesser-le x y).0)
      least-le x (y ∷ ys) z (inr (inl q)) =
          rw q (trans _ _ _ (least-le (lesser x y) ys (lesser x y) (inl refl)) (lesser-le x y).1)
      least-le x (y ∷ ys) z (inr (inr m)) = least-le (lesser x y) ys z (inr m)
