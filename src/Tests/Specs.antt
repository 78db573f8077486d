-- ===== src/Tests/Specs.antt =====
-- The theorems on the job specification and the box's schedule at concrete inputs.
use tuzka_as_a_service.Prelude.{
  ℕ, ◌+◌, ◌*◌, ◌<◌, ◌≡◌, ◌↔◌, refl, true, none, some, List, [], ◌∷◌, codes, arith, All,
}
use tuzka_as_a_service.JobSpec.{
  no_object, tuzkam, Platform, BackendCapability, JobSpec, accepted, resolve_job_spec,
}
use tuzka_as_a_service.JobSpec.Accept.{IsAcceptable, resolve_job_spec_iff}
use tuzka_as_a_service.JobSpec.Cache.{
  clear_capabilities_cache, serve_requests, IsRecent, serve_requests-IsRecent,
}
use tuzka_as_a_service.Box.Windows.{Window, is_up}
use tuzka_as_a_service.Box.Calendar.{AnyCovers}
use tuzka_as_a_service.Box.Parse.{ok, parse_schedule}
use tuzka_as_a_service.Box.Parsed.{IsParsedWindow, parse_schedule-IsParsedWindow}

abbrev platform : Platform
platform = record {
  lower = λ c. c ∷ [];
  is_printable = λ c. true;
  loads = λ t. no_object;
  iter_errors = λ schema options. [];
}

abbrev maps : BackendCapability
maps = record {
  outputs = codes "alto" ∷ codes "geojson" ∷ [];
  options_schema = none;
  adapter = tuzkam;
}

abbrev spec : JobSpec
spec = record { domain = codes "maps"; outputs = codes "geojson" ∷ []; options = [] }

resolve_job_spec_iff_example :
    (resolve_job_spec platform (λ name. maps ∷ []) (some (codes "maps")) (codes "geojson" ∷ []) none
      ≡ accepted spec)
    ↔ IsAcceptable platform
        (λ name. maps ∷ [])
        (some (codes "maps"))
        (codes "geojson" ∷ [])
        none
        spec
resolve_job_spec_iff_example =
    resolve_job_spec_iff platform (λ name. maps ∷ []) (some (codes "maps")) (codes "geojson" ∷ [])
      none spec

serve_requests-IsRecent_example : All (IsRecent (λ t name. maps ∷ [])) (
    serve_requests
      (λ t name. maps ∷ [])
      ((10, codes "maps") ∷ (12, codes "maps") ∷ [])
      clear_capabilities_cache)
serve_requests-IsRecent_example =
    serve_requests-IsRecent (λ t name. maps ∷ []) ((10, codes "maps") ∷ (12, codes "maps") ∷ [])
      (omega arith, (omega arith, tt))

abbrev week : List Window
week =
    record { days = 4 ∷ 3 ∷ 2 ∷ 1 ∷ 0 ∷ []; start = 1050; stop = 450 }
    ∷ record { days = 5 ∷ 6 ∷ []; start = 0; stop = 1440 }
    ∷ []

week_parses : parse_schedule (codes "Mon-Fri 17:30-07:30, Sat,Sun 00:00-24:00") ≡ ok week
unfolding parse_schedule
week_parses = refl

parse_schedule-IsParsedWindow_example :
    All IsParsedWindow week
    × ((today minute : ℕ)
        → today < 7
        → minute < 1440
        → (is_up week today minute ≡ true) ↔ AnyCovers week (today * 1440 + minute))
parse_schedule-IsParsedWindow_example =
    parse_schedule-IsParsedWindow (codes "Mon-Fri 17:30-07:30, Sat,Sun 00:00-24:00") week
      week_parses
