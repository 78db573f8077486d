-- ===== src/Redis/Codec.antt =====
-- The encoding of a job's hash: `JobState.to_hash` and `JobState.from_hash` of app/schemas/redis.py.
-- The texts of numbers and Python's `json.dumps` and `json.loads` are arguments.
-- Trace fields are those that the code names.
use tuzka_as_a_service.Prelude.{
  ℕ, Bool, Option, none, some, List, [], ◌∷◌, Text, codes, if◌then◌else◌, text_eq, map, sort_texts,
  join, split, all, is_space, not, keep,
}
use tuzka_as_a_service.Redis.State.{
  JobStatus, queued, running, storing, done, failed, Json, JobState,
}
use tuzka_as_a_service.Redis.Flat.{to_flat, from_flat}

-- A reply of HGETALL.
abbrev pub RawHash : Type 0
RawHash = List (Text × Text)

-- How numbers and JSON objects are written and read.
pub record Format : Type 0 where
  pub number : ℕ → Text
  pub read_number : Text → Option ℕ
  pub dumps : Json → Text
  pub loads : Text → Option Json

abbrev pub status_text : JobStatus → Text
status_text queued = codes "queued"
status_text running = codes "running"
status_text storing = codes "storing"
status_text done = codes "done"
status_text failed = codes "failed"

unfoldable pub read_status : Text → Option JobStatus
unfolding text_eq
read_status t =
    if text_eq t (codes "queued")
    then some queued
    else (if text_eq t (codes "running")
        then some running
        else (if text_eq t (codes "storing")
            then some storing
            else (if text_eq t (codes "done")
                then some done
                else (if text_eq t (codes "failed") then some failed else none))))

-- A field's text; one that is missing reads like the empty text, which stands for none.
unfoldable pub value : Text → RawHash → Text
unfolding text_eq
value key [] = []
value key ((k, t) ∷ raw) = let rest = value key raw in if text_eq k key then t else rest

abbrev pub put : Text → Option Text → RawHash → RawHash
put key none raw = raw
put key (some t) raw = (key, t) ∷ raw

-- None is left out.
unfoldable pub build : List (Text × Option Text) → RawHash
build [] = []
build ((key, o) ∷ fields) = put key o (build fields)

abbrev pub with_text {ℓ} : {A : Type ℓ} → (A → Text) → Option A → Option Text
with_text f none = none
with_text f (some a) = some (f a)

-- The trace headers, as fields of the hash.
abbrev pub trace_of : Text → List (Text × Text) → Option Text
trace_of name [] = none
trace_of name ((k, t) ∷ trace) =
    let rest = trace_of name trace in if text_eq k name then some t else rest

-- `_encode` of each field, before None is left out.
abbrev pub fields_of : Format → JobState → List (Text × Option Text)
fields_of e s =
    (codes "status", some (status_text s.status))
    ∷ (codes "username", some s.username)
    ∷ (codes "external_id", s.external_id)
    ∷ (codes "batch_id", with_text e.number s.batch_id)
    ∷ (codes "fmt", some s.fmt)
    ∷ (codes "domain", some s.domain)
    ∷ (codes "outputs", some (join 44 (sort_texts s.outputs)))
    ∷ (codes "options", some (e.dumps s.options))
    ∷ (codes "ext", some s.ext)
    ∷ (codes "mp", some (e.number s.megapixels))
    ∷ (codes "submitted_at", some (e.number s.submitted_at))
    ∷ (codes "priority", some (e.number s.priority))
    ∷ (codes "claimed_at", with_text e.number s.claimed_at)
    ∷ (codes "queue_score", with_text e.number s.queue_score)
    ∷ (codes "avoid_backends", some (join 44 (sort_texts (map e.number s.avoid_backends))))
    ∷ (codes "requeues", some (e.number s.requeues))
    ∷ (codes "engine_job_id", s.engine_job_id)
    ∷ (codes "backend_url", s.backend_url)
    ∷ (codes "backend_id", with_text e.number s.backend_id)
    ∷ (codes "next_poll_at", with_text e.number s.next_poll_at)
    ∷ (codes "last_poll", with_text e.number s.last_poll)
    ∷ (codes "harvest_times", with_text (λ run. e.dumps (to_flat run)) s.harvest_times)
    ∷ (codes "harvest_attempts", some (e.number s.harvest_attempts))
    ∷ (codes "error", s.error)
    ∷ (codes "finished_at", with_text e.number s.finished_at)
    ∷ (codes "traceparent", trace_of (codes "traceparent") s.trace)
    ∷ (codes "tracestate", trace_of (codes "tracestate") s.trace)
    ∷ (codes "baggage", trace_of (codes "baggage") s.trace)
    ∷ []

-- `JobState.to_hash`.
unfoldable pub to_hash : Format → JobState → RawHash
unfolding build join sort_texts
to_hash e s = build (fields_of e s)

abbrev pub bind {ℓ κ} : {A : Type ℓ} {B : Type κ} → Option A → (A → Option B) → Option B
bind none f = none
bind (some a) f = f a

abbrev pub optional {ℓ} : {A : Type ℓ} → (Text → Option A) → Text → Option (Option A)
optional read [] = some none
optional read (c ∷ t) = bind (read (c ∷ t)) (λ a. some (some a))

abbrev pub required {ℓ} : {A : Type ℓ} → (Text → Option A) → Text → Option A
required read [] = none
required read (c ∷ t) = read (c ∷ t)

abbrev pub with_default {ℓ} : {A : Type ℓ} → A → (Text → Option A) → Text → Option A
with_default a read [] = some a
with_default a read (c ∷ t) = read (c ∷ t)

abbrev pub read_all {ℓ} : {A : Type ℓ} → (Text → Option A) → List Text → Option (List A)
read_all read [] = some []
read_all read (t ∷ ts) = bind (read t) (λ a. bind (read_all read ts) (λ rest. some (a ∷ rest)))

-- `item.strip()` is not empty.
abbrev pub is_item : Text → Bool
is_item t = not (all is_space t)

abbrev pub items : Text → List Text
items t = keep is_item (split 44 t)

abbrev pub cons_trace : Text → Text → List (Text × Text) → List (Text × Text)
cons_trace name [] rest = rest
cons_trace name (c ∷ t) rest = (name, c ∷ t) ∷ rest

-- The fmt's outputs, for a hash that an older release wrote.
abbrev pub fmt_outputs : Text → Option (List Text)
fmt_outputs fmt =
    if text_eq fmt (codes "alto")
    then some (codes "alto" ∷ [])
    else (if text_eq fmt (codes "txt")
        then some (codes "txt" ∷ [])
        else (if text_eq fmt (codes "multi") then some (codes "alto" ∷ codes "txt" ∷ []) else none))

abbrev pub read_outputs : Text → Text → Option (List Text)
read_outputs fmt [] = fmt_outputs fmt
read_outputs fmt (c ∷ t) = some (items (c ∷ t))

-- `JobState.from_hash`; `none` is its error.
unfoldable pub from_hash : Format → RawHash → Option JobState
unfolding value read_status split text_eq
from_hash e raw = bind (with_default queued read_status (value (codes "status") raw)) (λ status.
    bind (required some (value (codes "username") raw)) (λ username.
      bind (optional some (value (codes "external_id") raw)) (λ external_id.
        bind (optional e.read_number (value (codes "batch_id") raw)) (λ batch_id.
          bind (required some (value (codes "fmt") raw)) (λ fmt.
            bind (with_default (codes "default") some (value (codes "domain") raw)) (λ domain.
              bind (read_outputs fmt (value (codes "outputs") raw)) (λ outputs.
                bind (with_default [] e.loads (value (codes "options") raw)) (λ options.
                  bind (with_default (codes ".jpg") some (value (codes "ext") raw)) (λ ext.
                    bind (with_default 1 e.read_number (value (codes "mp") raw)) (λ megapixels.
                      bind (required e.read_number (value (codes "submitted_at") raw))
                        (λ submitted_at.
                          bind (with_default 0 e.read_number (value (codes "priority") raw))
                            (λ priority.
                              bind (optional e.read_number (value (codes "claimed_at") raw))
                                (λ claimed_at.
                                  bind (optional e.read_number (value (codes "queue_score") raw))
                                    (λ queue_score.
                                      bind
                                        (with_default [] (λ t. read_all e.read_number (items t))
                                          (value (codes "avoid_backends") raw))
                                        (λ avoid_backends.
                                          bind
                                            (with_default 0 e.read_number
                                              (value (codes "requeues") raw))
                                            (λ requeues.
                                              bind
                                                (optional some (value (codes "engine_job_id") raw))
                                                (λ engine_job_id.
                                                  bind
                                                    (optional some
                                                      (value (codes "backend_url") raw))
                                                    (λ backend_url.
                                                      bind
                                                        (optional e.read_number
                                                          (value (codes "backend_id") raw))
                                                        (λ backend_id.
                                                          bind
                                                            (optional e.read_number
                                                            (value (codes "next_poll_at") raw))
                                                            (λ next_poll_at.
                                                            bind
                                                            (optional e.read_number
                                                            (value (codes "last_poll") raw))
                                                            (λ last_poll.
                                                            bind
                                                            (optional
                                                            (λ t. bind (e.loads t) from_flat)
                                                            (value (codes "harvest_times") raw))
                                                            (λ harvest_times.
                                                            bind
                                                            (with_default 0 e.read_number
                                                            (value (codes "harvest_attempts") raw))
                                                            (λ harvest_attempts.
                                                            bind
                                                            (optional some
                                                            (value (codes "error") raw))
                                                            (λ error.
                                                            bind
                                                            (optional e.read_number
                                                            (value (codes "finished_at") raw))
                                                            (λ finished_at. some (record {
                                                            status = status;
                                                            username = username;
                                                            external_id = external_id;
                                                            batch_id = batch_id;
                                                            fmt = fmt;
                                                            domain = domain;
                                                            outputs = outputs;
                                                            options = options;
                                                            ext = ext;
                                                            megapixels = megapixels;
                                                            submitted_at = submitted_at;
                                                            priority = priority;
                                                            trace =
                                                            cons_trace (codes "traceparent")
                                                            (value (codes "traceparent") raw)
                                                            (cons_trace (codes "tracestate")
                                                            (value (codes "tracestate") raw)
                                                            (cons_trace (codes "baggage")
                                                            (value (codes "baggage") raw) []));
                                                            claimed_at = claimed_at;
                                                            queue_score = queue_score;
                                                            avoid_backends = avoid_backends;
                                                            requeues = requeues;
                                                            engine_job_id = engine_job_id;
                                                            backend_url = backend_url;
                                                            backend_id = backend_id;
                                                            next_poll_at = next_poll_at;
                                                            last_poll = last_poll;
                                                            harvest_times = harvest_times;
                                                            harvest_attempts = harvest_attempts;
                                                            error = error;
                                                            finished_at = finished_at;
                                                            }))))))))))))))))))))))))))
