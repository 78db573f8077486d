-- ===== src/Redis/Written.antt =====
-- A job's hash field by field, as it is written and read (app/schemas/redis.py).
use tuzka_as_a_service.Prelude.{
  ℕ, ◌≡◌, ◌≢◌, refl, ◌∙◌, ap, Bool, true, false, ◌&&◌, Option, none, some, List, [], ◌∷◌, Text,
  arith, codes, if◌then◌else◌, text_eq, map, sort_texts, join, is_free_of, split-join, all, keep,
  Bool-cases, inl, inr, is_blank, not, any,
}
use tuzka_as_a_service.Redis.State.{
  JobStatus, queued, running, storing, done, failed, Json, EngineRun, JobState,
}
use tuzka_as_a_service.Redis.Flat.{to_flat, from_flat, is_metric, from_flat-to_flat}
use tuzka_as_a_service.Redis.Codec.{
  RawHash, Format, status_text, read_status, value, put, build, with_text, trace_of, fields_of,
  to_hash, optional, required, with_default, bind, read_all, is_item, items, cons_trace,
  read_outputs,
}

abbrev pub text_or : Option Text → Text → Text
text_or none rest = rest
text_or (some t) rest = t

-- A field's text by the fields before None is left out.
abbrev pick : Text → List (Text × Option Text) → Text
pick key [] = []
pick key ((k, o) ∷ fields) =
    let rest = pick key fields in if text_eq k key then text_or o rest else rest

value-put :
    (key k : Text) (o : Option Text) (raw : RawHash)
    → value key (put k o raw) ≡ (if text_eq k key then text_or o (value key raw) else value key raw)
unfolding value
value-put key k none raw = elim (Bool-cases (text_eq k key)) [
  | inl e ↦ rw e refl
  | inr e ↦ rw e refl
]
value-put key k (some t) raw = refl

value-build :
    (key : Text) (fields : List (Text × Option Text)) → value key (build fields) ≡ pick key fields
unfolding value build
value-build key [] = refl
value-build key ((k, o) ∷ fields) =
    value-put key k o (build fields) ∙ rw (value-build key fields) refl

pub value-to_hash :
    (e : Format) (s : JobState) (key : Text) → value key (to_hash e s) ≡ pick key (fields_of e s)
unfolding to_hash
value-to_hash e s key = value-build key (fields_of e s)

-- No name stands twice.
abbrev pub is_dict : Json → Bool
is_dict [] = true
is_dict ((name, o) ∷ rest) = not (any (λ (k, v). text_eq k name) rest) && is_dict rest

-- What the code relies on of Python's texts of numbers: reading gives back the number that was
-- written, and the text has neither a comma nor only spaces. A dict's JSON is not empty and loads as
-- that dict.
pub record IsFormat (e : Format) : Type 0 where
  pub number_read : (n : ℕ) → e.read_number (e.number n) ≡ some n
  pub number_shown : (n : ℕ) → is_blank (e.number n) ≡ false
  pub number_item : (n : ℕ) → (is_item (e.number n) && is_free_of 44 (e.number n)) ≡ true
  pub json_shown : (d : Json) → is_blank (e.dumps d) ≡ false
  pub json_read : (d : Json) → is_dict d ≡ true → e.loads (e.dumps d) ≡ some d

-- A text that is there is not empty.
abbrev pub is_filled : Option Text → Bool
is_filled none = true
is_filled (some t) = not (is_blank t)

abbrev pub is_output : Text → Bool
is_output t = is_item t && is_free_of 44 t

-- What the encoding can tell apart: no text is empty, there is an output, the outputs are names without
-- commas, both sets are in the order in which they are written, the options and the run have no name
-- twice, no metric has a name that the run's object reserves, and the trace holds the headers that are stored, in their order.
pub record IsStorable (e : Format) (s : JobState) : Type 0 where
  pub texts_filled :
      (not (is_blank s.username)
        && not (is_blank s.fmt)
        && not (is_blank s.domain)
        && not (is_blank s.ext))
      ≡ true
  pub options_filled :
      (is_filled s.external_id
        && is_filled s.engine_job_id
        && is_filled s.backend_url
        && is_filled s.error)
      ≡ true
  pub some_output : s.outputs ≢ []
  pub outputs_named : all is_output s.outputs ≡ true
  pub outputs_sorted : sort_texts s.outputs ≡ s.outputs
  pub avoid_sorted : sort_texts (map e.number s.avoid_backends) ≡ map e.number s.avoid_backends
  pub options_named : is_dict s.options ≡ true
  pub run_named :
      (r : EngineRun)
      → s.harvest_times ≡ some r
      → (is_dict (to_flat r) ≡ true) × (all is_metric r.metrics ≡ true)
  pub trace_stored :
      cons_trace (codes "traceparent") (text_or (trace_of (codes "traceparent") s.trace) []) (
        cons_trace
          (codes "tracestate")
          (text_or (trace_of (codes "tracestate") s.trace) [])
          (cons_trace (codes "baggage") (text_or (trace_of (codes "baggage") s.trace) []) []))
      ≡ s.trace

pub filled_read {ℓ} :
    {A : Type ℓ} (read : Text → Option A) (a : A) (t : Text)
    → is_blank t ≡ false
    → with_default a read t ≡ read t
filled_read read a [] h = cc
filled_read read a (c ∷ t) h = refl

pub required_read {ℓ} :
    {A : Type ℓ} (read : Text → Option A) (t : Text) → is_blank t ≡ false → required read t ≡ read t
required_read read [] h = cc
required_read read (c ∷ t) h = refl

pub optional_filled : (o : Option Text) → is_filled o ≡ true → optional some (text_or o []) ≡ some o
optional_filled none h = refl
optional_filled (some []) h = cc
optional_filled (some (c ∷ t)) h = refl

optional_one {ℓ} :
    {A : Type ℓ} (read : Text → Option A) (t : Text) (a : A)
    → is_blank t ≡ false
    → read t ≡ some a
    → optional read t ≡ some (some a)
optional_one read [] a b h = cc
optional_one read (c ∷ t) a b h = rw h refl

pub optional_read {ℓ} :
    {A : Type ℓ} (read : Text → Option A) (write : A → Text) (o : Option A)
    → ((a : A) → o ≡ some a → (is_blank (write a) ≡ false) × (read (write a) ≡ some a))
    → optional read (text_or (with_text write o) []) ≡ some o
optional_read read write none h = refl
optional_read read write (some a) h =
    let (shown, back) = h a refl in optional_one read (write a) a shown back

keep_items : (ts : List Text) → all is_output ts ≡ true → keep is_item ts ≡ ts
keep_items [] h = refl
keep_items (t ∷ ts) h = ground (arith, keep_items ts, h)

free_items : (ts : List Text) → all is_output ts ≡ true → all (is_free_of 44) ts ≡ true
free_items [] h = refl
free_items (t ∷ ts) h = ground (arith, free_items ts, h)

items-join :
    (t : Text) (ts : List Text) → all is_output (t ∷ ts) ≡ true → items (join 44 (t ∷ ts)) ≡ t ∷ ts
items-join t ts h = rw (split-join 44 t ts (free_items (t ∷ ts) h)) (keep_items (t ∷ ts) h)

join_filled : (t : Text) (ts : List Text) → is_output t ≡ true → is_blank (join 44 (t ∷ ts)) ≡ false
unfolding join
join_filled [] ts h = cc
join_filled (c ∷ t) [] h = refl
join_filled (c ∷ t) (u ∷ us) h = refl

read_outputs_filled : (fmt t : Text) → is_blank t ≡ false → read_outputs fmt t ≡ some (items t)
read_outputs_filled fmt [] h = cc
read_outputs_filled fmt (c ∷ t) h = refl

pub outputs_read :
    (fmt : Text) (outputs : List Text)
    → outputs ≢ []
    → all is_output outputs ≡ true
    → read_outputs fmt (join 44 outputs) ≡ some outputs
outputs_read fmt [] n h = absurd (n refl)
outputs_read fmt (t ∷ ts) n h =
    read_outputs_filled fmt (join 44 (t ∷ ts)) (join_filled t ts (ground (arith, h)))
    ∙ ap some (items-join t ts h)

module _ (e : Format) (f : IsFormat e) where
  numbers_named : (ns : List ℕ) → all is_output (map e.number ns) ≡ true
  numbers_named [] = refl
  numbers_named (n ∷ ns) = ground (arith, numbers_named ns, f.number_item n)

  read_all_numbers : (ns : List ℕ) → read_all e.read_number (map e.number ns) ≡ some ns
  read_all_numbers [] = refl
  read_all_numbers (n ∷ ns) = rw (f.number_read n, read_all_numbers ns) refl

  pub avoid_read :
      (ns : List ℕ)
      → with_default [] (λ t. read_all e.read_number (items t)) (join 44 (map e.number ns))
        ≡ some ns
  unfolding join
  avoid_read [] = refl
  avoid_read (n ∷ ns) =
      filled_read (λ t. read_all e.read_number (items t)) [] (join 44 (map e.number (n ∷ ns)))
        (join_filled (e.number n) (map e.number ns) (f.number_item n))
      ∙ rw (items-join (e.number n) (map e.number ns) (numbers_named (n ∷ ns)))
          (read_all_numbers (n ∷ ns))

-- A run's JSON reads back as the run.
pub run_read :
    (e : Format) (f : IsFormat e) (run : EngineRun)
    → is_dict (to_flat run) ≡ true
    → all is_metric run.metrics ≡ true
    → bind (e.loads (e.dumps (to_flat run))) from_flat ≡ some run
run_read e f run d m = rw (f.json_read (to_flat run) d) (from_flat-to_flat run m)

pub status_read :
    (status : JobStatus) → with_default queued read_status (status_text status) ≡ some status
unfolding read_status text_eq
status_read queued = refl
status_read running = refl
status_read storing = refl
status_read done = refl
status_read failed = refl
