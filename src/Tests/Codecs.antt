-- ===== src/Tests/Codecs.antt =====
-- The theorem on the encoding of a job's hash at a concrete job.
use mathlib.Core.List.{append-nil}
use tuzka_as_a_service.Prelude.{
  ℕ, zero, suc, ◌+◌, ◌≡◌, refl, true, false, ◌&&◌, none, some, [], ◌∷◌, Text, codes, length, arith,
  is_blank, Option, ap, sort_texts, is_free_of, ◌++◌, ◌∙◌, subst, all, text_eq,
}
use tuzka_as_a_service.Redis.State.{Json, EngineRun, JobState}
use tuzka_as_a_service.Redis.Codec.{Format, is_item, from_hash, to_hash}
use tuzka_as_a_service.Redis.Flat.{to_flat, is_metric}
use tuzka_as_a_service.Redis.Written.{is_dict, IsFormat, IsStorable}
use tuzka_as_a_service.Redis.RoundTrip.{from_hash-to_hash}
use tuzka_as_a_service.Tests.Keyspace.{running_page}

-- A stroke for each unit, and one more.
abbrev strokes : ℕ → Text
strokes zero = 124 ∷ []
strokes (suc n) = 124 ∷ strokes n

abbrev count_strokes : Text → Option ℕ
count_strokes [] = none
count_strokes (c ∷ t) = some (length t)

abbrev run : EngineRun
run = record {
  created_at = some (codes "8:00");
  started_at = none;
  finished_at = some (codes "8:01");
  metrics = (codes "n_lines", codes "42") ∷ [];
}

-- A plain writing of objects: 0 before a name, 1 before a value, and every letter moved up by 2.
abbrev shifted : Text → Text → Text
shifted [] t = t
shifted (c ∷ s) t = suc (suc c) ∷ shifted s t

abbrev with_value : Option Text → Text → Text
with_value none t = t
with_value (some s) t = 1 ∷ shifted s t

abbrev entries : Json → Text
entries [] = []
entries ((name, o) ∷ rest) = 0 ∷ shifted name (with_value o (entries rest))

-- The letters before the next mark, the value that they follow, and the entries after them.
abbrev step : ℕ → Text × Option Text × Json → Text × Option Text × Json
step zero (name, o, rest) = ([], none, (name, o) ∷ rest)
step (suc zero) (s, o, rest) = ([], some s, rest)
step (suc (suc c)) (s, o, rest) = (c ∷ s, o, rest)

abbrev parsed : Text → Text × Option Text × Json
parsed [] = ([], none, [])
parsed (c ∷ t) = step c (parsed t)

abbrev parse_object : Text → Option Json
parse_object [] = none
parse_object (c ∷ t) = some (parsed t).2

abbrev format : Format
format = record {
  number = strokes;
  read_number = count_strokes;
  dumps = λ d. 123 ∷ entries d;
  loads = parse_object;
}

parsed-shifted :
    (s t u : Text) (o : Option Text) (d : Json)
    → parsed t ≡ (u, o, d)
    → parsed (shifted s t) ≡ (s ++ u, o, d)
parsed-shifted [] t u o d h = h
parsed-shifted (c ∷ s) t u o d h = ap (step (suc (suc c))) (parsed-shifted s t u o d h)

parsed-with_value :
    (o : Option Text) (t : Text) (d : Json)
    → parsed t ≡ ([], none, d)
    → parsed (with_value o t) ≡ ([], o, d)
parsed-with_value none t d h = h
parsed-with_value (some s) t d h =
    ap (step 1) (parsed-shifted s t [] none d h) ∙ rw (append-nil s) refl

parsed-entries : (d : Json) → parsed (entries d) ≡ ([], none, d)
parsed-entries [] = refl
parsed-entries ((name, o) ∷ d) =
    ap (step 0) (
      parsed-shifted name (with_value o (entries d)) [] o d
        (parsed-with_value o (entries d) d (parsed-entries d)))
    ∙ rw (append-nil name) refl

length-strokes : (n : ℕ) → length (strokes n) ≡ n + 1
length-strokes zero = refl
length-strokes (suc n) = omega (arith, length-strokes n)

strokes_read : (n : ℕ) → count_strokes (strokes n) ≡ some n
strokes_read zero = refl
strokes_read (suc n) = ap some (omega (arith, length-strokes n))

strokes_shown : (n : ℕ) → is_blank (strokes n) ≡ false
strokes_shown zero = refl
strokes_shown (suc n) = refl

free_strokes : (n : ℕ) → is_free_of 44 (strokes n) ≡ true
free_strokes zero = refl
free_strokes (suc n) = free_strokes n

strokes_item : (n : ℕ) → (is_item (strokes n) && is_free_of 44 (strokes n)) ≡ true
strokes_item zero = refl
strokes_item (suc n) = free_strokes n

format-IsFormat : IsFormat format
format-IsFormat = record {
  number_read = strokes_read;
  number_shown = strokes_shown;
  number_item = strokes_item;
  json_shown = λ d. refl;
  json_read = λ d h. ap (λ (r : Text × Option Text × Json). some r.2) (parsed-entries d);
}

-- The page 7 as it runs, with an option and its engine's last status.
abbrev harvested_page : JobState
harvested_page = record running_page {
  options = (codes "dpi", some (codes "300")) ∷ (codes "lang", none) ∷ [];
  external_id = some (codes "uuid:1");
  avoid_backends = 1 ∷ [];
  harvest_times = some run;
}

some-inj : {a b : EngineRun} → some a ≡ some b → a ≡ b
some-inj q = cc q

storable : IsStorable format harvested_page
unfolding sort_texts to_flat text_eq
storable = record {
  texts_filled = refl;
  options_filled = refl;
  some_output = λ q. cc q;
  outputs_named = refl;
  outputs_sorted = refl;
  avoid_sorted = refl;
  options_named = refl;
  run_named = λ r q.
      let same : run ≡ r = some-inj q in
      (
        subst (λ x. is_dict (to_flat x) ≡ true) same refl,
        subst (λ (x : EngineRun). all is_metric x.metrics ≡ true) same refl,
      );
  trace_stored = refl;
}

from_hash-to_hash_example : from_hash format (to_hash format harvested_page) ≡ some harvested_page
from_hash-to_hash_example = from_hash-to_hash format format-IsFormat harvested_page storable
