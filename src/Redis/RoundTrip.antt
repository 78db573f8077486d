-- ===== src/Redis/RoundTrip.antt =====
-- Reading back a job's hash (app/schemas/redis.py).
use tuzka_as_a_service.Prelude.{ℕ, ◌≡◌, refl, ◌∙◌, Option, some, [], arith, codes, text_eq}
use tuzka_as_a_service.Redis.State.{queued, JobState}
use tuzka_as_a_service.Redis.Codec.{
  Format, read_status, value, with_text, to_hash, optional, required, with_default, bind, read_all,
  items, cons_trace, read_outputs, from_hash,
}
use tuzka_as_a_service.Redis.Flat.{to_flat, from_flat}
use tuzka_as_a_service.Redis.Written.{
  IsFormat, IsStorable, value-to_hash, filled_read, required_read, optional_filled, optional_read,
  outputs_read, avoid_read, run_read, status_read, text_or,
}

module _ (e : Format) (f : IsFormat e) (s : JobState) (h : IsStorable e s) where
  default_number : (a n : ℕ) → with_default a e.read_number (e.number n) ≡ some n
  default_number a n = filled_read e.read_number a (e.number n) (f.number_shown n) ∙ f.number_read n

  optional_number :
      (o : Option ℕ) → optional e.read_number (text_or (with_text e.number o) []) ≡ some o
  optional_number o =
      optional_read e.read_number e.number o (λ n q. (f.number_shown n, f.number_read n))

  status_back :
      with_default queued read_status (value (codes "status") (to_hash e s)) ≡ some s.status
  unfolding text_eq
  status_back = rw (value-to_hash e s (codes "status")) (status_read s.status)

  username_back : required some (value (codes "username") (to_hash e s)) ≡ some s.username
  unfolding text_eq
  username_back =
      rw (value-to_hash e s (codes "username"))
        (required_read some s.username (ground (arith, h.texts_filled)))

  external_id_back : optional some (value (codes "external_id") (to_hash e s)) ≡ some s.external_id
  unfolding text_eq
  external_id_back =
      rw (value-to_hash e s (codes "external_id"))
        (optional_filled s.external_id (ground (arith, h.options_filled)))

  batch_id_back : optional e.read_number (value (codes "batch_id") (to_hash e s)) ≡ some s.batch_id
  unfolding text_eq
  batch_id_back = rw (value-to_hash e s (codes "batch_id")) (optional_number s.batch_id)

  fmt_back : required some (value (codes "fmt") (to_hash e s)) ≡ some s.fmt
  unfolding text_eq
  fmt_back =
      rw (value-to_hash e s (codes "fmt"))
        (required_read some s.fmt (ground (arith, h.texts_filled)))

  domain_back :
      with_default (codes "default") some (value (codes "domain") (to_hash e s)) ≡ some s.domain
  unfolding text_eq
  domain_back =
      rw (value-to_hash e s (codes "domain"))
        (filled_read some (codes "default") s.domain (ground (arith, h.texts_filled)))

  outputs_back : read_outputs s.fmt (value (codes "outputs") (to_hash e s)) ≡ some s.outputs
  unfolding text_eq
  outputs_back =
      rw (value-to_hash e s (codes "outputs"))
        (rw h.outputs_sorted (outputs_read s.fmt s.outputs h.some_output h.outputs_named))

  options_back : with_default [] e.loads (value (codes "options") (to_hash e s)) ≡ some s.options
  unfolding text_eq
  options_back = rw (value-to_hash e s (codes "options")) (
      filled_read e.loads [] (e.dumps s.options) (f.json_shown s.options)
      ∙ f.json_read s.options h.options_named)

  ext_back : with_default (codes ".jpg") some (value (codes "ext") (to_hash e s)) ≡ some s.ext
  unfolding text_eq
  ext_back =
      rw (value-to_hash e s (codes "ext"))
        (filled_read some (codes ".jpg") s.ext (ground (arith, h.texts_filled)))

  megapixels_back :
      with_default 1 e.read_number (value (codes "mp") (to_hash e s)) ≡ some s.megapixels
  unfolding text_eq
  megapixels_back = rw (value-to_hash e s (codes "mp")) (default_number 1 s.megapixels)

  submitted_at_back :
      required e.read_number (value (codes "submitted_at") (to_hash e s)) ≡ some s.submitted_at
  unfolding text_eq
  submitted_at_back = rw (value-to_hash e s (codes "submitted_at")) (
      required_read e.read_number (e.number s.submitted_at) (f.number_shown s.submitted_at)
      ∙ f.number_read s.submitted_at)

  priority_back :
      with_default 0 e.read_number (value (codes "priority") (to_hash e s)) ≡ some s.priority
  unfolding text_eq
  priority_back = rw (value-to_hash e s (codes "priority")) (default_number 0 s.priority)

  claimed_at_back :
      optional e.read_number (value (codes "claimed_at") (to_hash e s)) ≡ some s.claimed_at
  unfolding text_eq
  claimed_at_back = rw (value-to_hash e s (codes "claimed_at")) (optional_number s.claimed_at)

  queue_score_back :
      optional e.read_number (value (codes "queue_score") (to_hash e s)) ≡ some s.queue_score
  unfolding text_eq
  queue_score_back = rw (value-to_hash e s (codes "queue_score")) (optional_number s.queue_score)

  avoid_backends_back :
      with_default []
        (λ t. read_all e.read_number (items t))
        (value (codes "avoid_backends") (to_hash e s))
      ≡ some s.avoid_backends
  unfolding text_eq
  avoid_backends_back =
      rw (value-to_hash e s (codes "avoid_backends"))
        (rw h.avoid_sorted (avoid_read e f s.avoid_backends))

  requeues_back :
      with_default 0 e.read_number (value (codes "requeues") (to_hash e s)) ≡ some s.requeues
  unfolding text_eq
  requeues_back = rw (value-to_hash e s (codes "requeues")) (default_number 0 s.requeues)

  engine_job_id_back :
      optional some (value (codes "engine_job_id") (to_hash e s)) ≡ some s.engine_job_id
  unfolding text_eq
  engine_job_id_back =
      rw (value-to_hash e s (codes "engine_job_id"))
        (optional_filled s.engine_job_id (ground (arith, h.options_filled)))

  backend_url_back : optional some (value (codes "backend_url") (to_hash e s)) ≡ some s.backend_url
  unfolding text_eq
  backend_url_back =
      rw (value-to_hash e s (codes "backend_url"))
        (optional_filled s.backend_url (ground (arith, h.options_filled)))

  backend_id_back :
      optional e.read_number (value (codes "backend_id") (to_hash e s)) ≡ some s.backend_id
  unfolding text_eq
  backend_id_back = rw (value-to_hash e s (codes "backend_id")) (optional_number s.backend_id)

  next_poll_at_back :
      optional e.read_number (value (codes "next_poll_at") (to_hash e s)) ≡ some s.next_poll_at
  unfolding text_eq
  next_poll_at_back = rw (value-to_hash e s (codes "next_poll_at")) (optional_number s.next_poll_at)

  last_poll_back :
      optional e.read_number (value (codes "last_poll") (to_hash e s)) ≡ some s.last_poll
  unfolding text_eq
  last_poll_back = rw (value-to_hash e s (codes "last_poll")) (optional_number s.last_poll)

  harvest_times_back :
      optional (λ t. bind (e.loads t) from_flat) (value (codes "harvest_times") (to_hash e s))
      ≡ some s.harvest_times
  unfolding text_eq
  harvest_times_back = rw (value-to_hash e s (codes "harvest_times")) (
      optional_read (λ t. bind (e.loads t) from_flat) (λ run. e.dumps (to_flat run)) s.harvest_times
        (λ r q. let (d, m) = h.run_named r q in (f.json_shown (to_flat r), run_read e f r d m)))

  harvest_attempts_back :
      with_default 0 e.read_number (value (codes "harvest_attempts") (to_hash e s))
      ≡ some s.harvest_attempts
  unfolding text_eq
  harvest_attempts_back =
      rw (value-to_hash e s (codes "harvest_attempts")) (default_number 0 s.harvest_attempts)

  error_back : optional some (value (codes "error") (to_hash e s)) ≡ some s.error
  unfolding text_eq
  error_back =
      rw (value-to_hash e s (codes "error"))
        (optional_filled s.error (ground (arith, h.options_filled)))

  finished_at_back :
      optional e.read_number (value (codes "finished_at") (to_hash e s)) ≡ some s.finished_at
  unfolding text_eq
  finished_at_back = rw (value-to_hash e s (codes "finished_at")) (optional_number s.finished_at)

  trace_back :
      cons_trace (codes "traceparent") (value (codes "traceparent") (to_hash e s)) (
        cons_trace
          (codes "tracestate")
          (value (codes "tracestate") (to_hash e s))
          (cons_trace (codes "baggage") (value (codes "baggage") (to_hash e s)) []))
      ≡ s.trace
  unfolding text_eq
  trace_back =
      rw
        (
          value-to_hash e s (codes "traceparent"),
          value-to_hash e s (codes "tracestate"),
          value-to_hash e s (codes "baggage"),
        )
        h.trace_stored

  -- A job's hash reads back as the job: `from_hash` gives back what `to_hash` wrote, the options and
  -- the engine's run as JSON among it, if the state is one that the encoding can tell apart, and numbers
  -- and dicts of JSON read back as they were written.
  pub from_hash-to_hash : from_hash e (to_hash e s) ≡ some s
  unfolding from_hash
  from_hash-to_hash =
      rw
        (
          status_back, username_back, external_id_back, batch_id_back, fmt_back, domain_back,
          outputs_back, options_back, ext_back, megapixels_back, submitted_at_back, priority_back,
          claimed_at_back, queue_score_back, avoid_backends_back, requeues_back, engine_job_id_back,
          backend_url_back, backend_id_back, next_poll_at_back, last_poll_back, harvest_times_back,
          harvest_attempts_back, error_back, finished_at_back, trace_back,
        )
        refl
