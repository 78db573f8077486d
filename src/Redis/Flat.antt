-- ===== src/Redis/Flat.antt =====
-- `EngineRun._to_flat` and `EngineRun._from_flat` of app/schemas/redis.py: the JSON object that an
-- engine's run is stored as.
use tuzka_as_a_service.Prelude.{
  ◌≡◌, refl, ap, Bool, true, false, ◌&&◌, ◌||◌, Option, none, some, List, [], ◌∷◌, Text, arith,
  codes, if◌then◌else◌, text_eq, all, any, not,
}
use tuzka_as_a_service.Redis.State.{Json, EngineRun}

-- `_RUN_STAMPS`.
abbrev pub is_stamp : Text → Bool
is_stamp name =
    text_eq name (codes "created_at")
    || text_eq name (codes "started_at")
    || text_eq name (codes "finished_at")

abbrev pub stamps_of : EngineRun → Json
stamps_of run =
    (codes "created_at", run.created_at)
    ∷ (codes "started_at", run.started_at)
    ∷ (codes "finished_at", run.finished_at)
    ∷ []

-- The metrics before the stamps, which take the place of a metric with a stamp's name.
abbrev pub beside : List (Text × Text) → Json → Json
beside [] stamps = stamps
beside ((name, number) ∷ metrics) stamps =
    let rest = beside metrics stamps in if is_stamp name then rest else (name, some number) ∷ rest

-- `_to_flat`.
unfoldable pub to_flat : EngineRun → Json
unfolding text_eq
to_flat run = beside run.metrics (stamps_of run)

abbrev pub entry_at : Text → Json → Option Text
entry_at key [] = none
entry_at key ((name, o) ∷ flat) =
    let rest = entry_at key flat in if text_eq name key then o else rest

abbrev pub metric : Text → Option Text → List (Text × Text) → List (Text × Text)
metric name none rest = rest
metric name (some number) rest = if is_stamp name then rest else (name, number) ∷ rest

abbrev pub metrics_in : Json → List (Text × Text)
metrics_in [] = []
metrics_in ((name, o) ∷ flat) = metric name o (metrics_in flat)

-- `_from_flat`. An entry `metrics` would be taken for the metrics themselves, and a plain value is none.
unfoldable pub from_flat : Json → Option EngineRun
unfolding text_eq
from_flat flat =
    if any (λ (name, o). text_eq name (codes "metrics")) flat
    then none
    else some (record {
      created_at = entry_at (codes "created_at") flat;
      started_at = entry_at (codes "started_at") flat;
      finished_at = entry_at (codes "finished_at") flat;
      metrics = metrics_in flat;
    })

-- A metric's name is neither a stamp's nor `metrics`.
abbrev pub is_metric : Text × Text → Bool
is_metric (name, number) = not (is_stamp name) && not (text_eq name (codes "metrics"))

entry_at-beside :
    (key : Text) (metrics : List (Text × Text)) (stamps : Json)
    → ((name : Text) → is_stamp name ≡ false → text_eq name key ≡ false)
    → all is_metric metrics ≡ true
    → entry_at key (beside metrics stamps) ≡ entry_at key stamps
entry_at-beside key [] stamps k h = refl
entry_at-beside key ((name, number) ∷ metrics) stamps k h =
    let s : is_stamp name ≡ false = ground (arith, h) in
    rw (s, k name s) (entry_at-beside key metrics stamps k (ground (arith, h)))

metrics_in-beside :
    (metrics : List (Text × Text)) (stamps : Json)
    → all is_metric metrics ≡ true
    → metrics_in stamps ≡ []
    → metrics_in (beside metrics stamps) ≡ metrics
metrics_in-beside [] stamps h e = e
metrics_in-beside ((name, number) ∷ metrics) stamps h e =
    let s : is_stamp name ≡ false = ground (arith, h) in
    rw (s, s)
      (ap (λ l. (name, number) ∷ l) (metrics_in-beside metrics stamps (ground (arith, h)) e))

unnamed :
    (metrics : List (Text × Text)) (stamps : Json)
    → all is_metric metrics ≡ true
    → any (λ (name, o). text_eq name (codes "metrics")) stamps ≡ false
    → any (λ (name, o). text_eq name (codes "metrics")) (beside metrics stamps) ≡ false
unnamed [] stamps h e = e
unnamed ((name, number) ∷ metrics) stamps h e =
    let s : is_stamp name ≡ false = ground (arith, h) in
    let n : text_eq name (codes "metrics") ≡ false = ground (arith, h) in
    rw (s, n) (unnamed metrics stamps (ground (arith, h)) e)

no_metrics : (run : EngineRun) → metrics_in (stamps_of run) ≡ []
unfolding text_eq
no_metrics run = ground arith

-- A run reads back from its flat object, if no metric has a name that the object reserves.
pub from_flat-to_flat :
    (run : EngineRun) → all is_metric run.metrics ≡ true → from_flat (to_flat run) ≡ some run
unfolding from_flat to_flat
from_flat-to_flat run h =
    let m = metrics_in-beside run.metrics (stamps_of run) h (no_metrics run) in
    let c =
      entry_at-beside (codes "created_at") run.metrics (stamps_of run) (λ n q. ground (arith, q))
        h in
    let s =
      entry_at-beside (codes "started_at") run.metrics (stamps_of run) (λ n q. ground (arith, q))
        h in
    let f =
      entry_at-beside (codes "finished_at") run.metrics (stamps_of run) (λ n q. ground (arith, q))
        h in
    rw (unnamed run.metrics (stamps_of run) h named, c, s, f, m) refl
  where
    named : any (λ (name, o). text_eq name (codes "metrics")) (stamps_of run) ≡ false
    named = refl
