-- ===== src/Load.antt =====
-- The counter fields behind GET /load (app/services/load.py); Totals has the sums.
pub mod Totals
pub mod Groups
use tuzka_as_a_service.Prelude.{
  ℕ, ◌+◌, ◌*◌, ◌≡◌, sym, ap, ◌∙◌, ◌&&◌, Text, List, [], ◌∷◌, ◌++◌, join, sort_texts, partition,
  split, keep, not, Bool, true, false, all, is_free_of, partition-append, split-join,
  all-sort_texts, arith, Option, none, some, or_else, text_in, text_eq, subset, if◌then◌else◌, refl,
  map,
}
use tuzka_as_a_service.Prelude.Int.{ℤ, pos_part, pos}

-- The counter field of a (domain, outputs) pair: `default|alto,txt`.
unfoldable pub load_field : Text → List Text → Text
load_field domain outputs = domain ++ (b'|' ∷ join b',' (sort_texts outputs))

abbrev pub is_empty : Text → Bool
is_empty [] = true
is_empty (c ∷ t) = false

unfoldable pub parse_load_field : Text → Text × List Text
parse_load_field field =
    let (domain, outputs) = partition b'|' field in
    (domain, keep (λ o. not (is_empty o)) (split b',' outputs))

-- A name that a field can carry: it is not empty and has no comma.
abbrev pub is_name : Text → Bool
is_name o = is_free_of b',' o && not (is_empty o)

keep_names : (os : List Text) → all is_name os ≡ true → keep (λ o. not (is_empty o)) os ≡ os
keep_names [] h = refl
keep_names (o ∷ os) h = ground (arith, keep_names os)

free_names : (os : List Text) → all is_name os ≡ true → all (is_free_of b',') os ≡ true
free_names [] h = refl
free_names (o ∷ os) h = ground (arith, free_names os)

names_of_join :
    (os : List Text)
    → all is_name os ≡ true
    → keep (λ o. not (is_empty o)) (split b',' (join b',' os)) ≡ os
unfolding split join
names_of_join [] h = refl
names_of_join (o ∷ os) h =
    ap (λ l. keep (λ x. not (is_empty x)) l) (split-join b',' o os (free_names (o ∷ os) h))
    ∙ keep_names (o ∷ os) h

-- A counter field names the domain and the outputs, sorted, that it was made of, whenever the
-- domain has no `|`, and no output is empty or has a comma.
pub load_roundtrip :
    (domain : Text) (outputs : List Text)
    → is_free_of b'|' domain ≡ true
    → all is_name outputs ≡ true
    → parse_load_field (load_field domain outputs) ≡ (domain, sort_texts outputs)
unfolding parse_load_field load_field
load_roundtrip domain outputs f h =
    rw
      (
        partition-append b'|' domain (join b',' (sort_texts outputs)) f,
        names_of_join (sort_texts outputs) (all-sort_texts is_name outputs ∙ h),
      )
      refl
