-- ===== src/JobSpec.antt =====
-- What a submitted job asks for and its validation (app/services/job_spec.py), with the adapters'
-- `validate_request` (app/engines/tuzkaocr/adapter.py, app/engines/tuzkam/adapter.py). JSON, the JSON
-- Schema validator and Python's Unicode tables are arguments. Sets of texts are lists.
pub mod Accept
pub mod Cache
use tuzka_as_a_service.Prelude.{
  ℕ, ◌+◌, Bool, true, false, ◌&&◌, ◌||◌, not, Option, none, some, List, [], ◌∷◌, ◌++◌, Text, codes,
  ltb, ◌==◌, if◌then◌else◌, member, map, keep, all, any, length, text_eq, text_in, subset,
  sort_texts, split, drop, lstrip, rstrip, strip, is_blank,
}
use tuzka_as_a_service.Vocabulary.{Fmt, alto, txt, multi, outputs_of_fmt, fmt_of_outputs}

-- A JSON value: a Boolean, or any other by its text.
pub data Json : Type 0 where
  boolean : Bool → Json
  other : Text → Json

abbrev pub Options : Type 0
Options = List (Text × Json)

-- What `json.loads` makes of a text: an error's message, an object, or another value.
pub data Loaded : Type 0 where
  malformed : Text → Loaded
  object : Options → Loaded
  no_object : Loaded

pub data AdapterId : Type 0 where
  tuzkaocr tuzkam : AdapterId

-- What the code takes from Python and its libraries: a JSON schema is known by its text, and
-- `iter_errors` gives the path and the message of each of its errors.
pub record Platform : Type 0 where
  pub lower : ℕ → Text
  pub is_printable : ℕ → Bool
  pub loads : Text → Loaded
  pub iter_errors : Text → Options → List (List Text × Text)

pub record BackendCapability : Type 0 where
  pub outputs : List Text
  pub options_schema : Option Text
  pub adapter : AdapterId

pub record JobSpec : Type 0 where
  pub domain : Text
  pub outputs : List Text
  pub options : Options

-- A result of parsing: the message of its ValueError, or a value.
pub data Parsed {ℓ} (A : Type ℓ) : Type ℓ where
  invalid : Text → Parsed A
  parsed : A → Parsed A

abbrev pub add_text : Text → List Text → List Text
add_text t ts = if text_in t ts then ts else t ∷ ts

-- `frozenset(ts)`.
abbrev pub text_set : List Text → List Text
text_set [] = []
text_set (t ∷ ts) = add_text t (text_set ts)

abbrev join_with : Text → List Text → Text
join_with sep [] = []
join_with sep (t ∷ []) = t
join_with sep (t ∷ u ∷ us) = t ++ (sep ++ join_with sep (u ∷ us))

abbrev concat_lower : (ℕ → Text) → Text → Text
concat_lower lower [] = []
concat_lower lower (c ∷ t) = lower c ++ concat_lower lower t

-- `parse_outputs`.
unfoldable pub parse_outputs : Platform → Option Text → Fmt → Parsed (List Text)
unfolding split lstrip rstrip text_in outputs_of_fmt
parse_outputs e none fmt = parsed (outputs_of_fmt fmt)
parse_outputs e (some raw) fmt =
    let items = map (λ item. concat_lower e.lower (strip item)) (split 44 raw) in
    if any is_blank items
    then invalid (codes "outputs must be a comma-separated list of output names")
    else parsed (text_set items)

abbrev pub external_id_max : ℕ
external_id_max = 255

-- `parse_external_id`.
unfoldable pub parse_external_id : Platform → Option Text → Parsed (Option Text)
parse_external_id e none = parsed none
parse_external_id e (some []) = parsed none
parse_external_id e (some (c ∷ raw)) =
    if ltb external_id_max (length (c ∷ raw))
    then invalid (codes "external_id is longer than 255 characters")
    else (if all e.is_printable (c ∷ raw)
        then parsed (some (c ∷ raw))
        else invalid (codes "external_id must be printable text"))

abbrev options_of : Loaded → Parsed Options
options_of (malformed msg) = invalid (codes "options must be a JSON object: " ++ msg)
options_of no_object = invalid (codes "options must be a JSON object")
options_of (object options) = parsed options

-- `parse_options`.
unfoldable pub parse_options : Platform → Option Text → Parsed Options
unfolding lstrip rstrip
parse_options e none = parsed []
parse_options e (some raw) = if is_blank (strip raw) then parsed [] else options_of (e.loads raw)

abbrev label_of : Option Fmt → Text
label_of none = codes "custom"
label_of (some alto) = codes "alto"
label_of (some txt) = codes "txt"
label_of (some multi) = codes "multi"

-- `fmt_label`.
unfoldable pub fmt_label : List Text → Text
unfolding fmt_of_outputs
fmt_label outputs = label_of (fmt_of_outputs outputs)

abbrev error_text : List Text × Text → Text
error_text (path, message) =
    let at = join_with (codes ".") path in
    if is_blank at then message else at ++ codes ": " ++ message

-- `options_errors`.
unfoldable pub options_errors : Platform → Option Text → Options → List Text
unfolding sort_texts
options_errors e none options =
    map (λ key. codes "unknown option '" ++ key ++ codes "'")
      (sort_texts (map (λ (o : Text × Json). o.0) options))
options_errors e (some schema) options = sort_texts (map error_text (e.iter_errors schema options))

abbrev is_false_in : Options → Bool
is_false_in [] = false
is_false_in ((key, boolean b) ∷ options) =
    let rest = is_false_in options in if text_eq key (codes "georef") then not b else rest
is_false_in ((key, other value) ∷ options) =
    let rest = is_false_in options in if text_eq key (codes "georef") then false else rest

abbrev georef_outputs : List Text
georef_outputs = codes "geojson" ∷ codes "gcp" ∷ []

abbrev georef_reason : List Text → Text
georef_reason wanted =
    join_with (codes " and ") wanted
    ++ (if length wanted == 1 then codes " needs georef=true" else codes " need georef=true")

-- `validate_request` of both adapters; an object has each key once.
unfoldable pub validate_request : AdapterId → List Text → Options → Option Text
unfolding sort_texts text_in text_eq
validate_request tuzkaocr outputs options = none
validate_request tuzkam outputs options =
    let wanted = sort_texts (keep (λ o. text_in o georef_outputs) outputs) in
    if not (length wanted == 0) && is_false_in options then some (georef_reason wanted) else none

abbrev is_tuzkam : AdapterId → Bool
is_tuzkam tuzkam = true
is_tuzkam tuzkaocr = false

abbrev if_any {ℓ} : {A : Type ℓ} → Bool → A → List A → List A
if_any b a rest = if b then a ∷ rest else rest

-- `sorted(adapters)`: the adapters of a set by their ids, each once.
unfoldable pub sorted_adapters : List AdapterId → List AdapterId
sorted_adapters adapters =
    if_any (any is_tuzkam adapters) tuzkam
      (if_any (any (λ a. not (is_tuzkam a)) adapters) tuzkaocr [])

-- The loop of `adapter_rejection`, with the first reason so far.
unfoldable pub rejection_loop : List Text → Options → List AdapterId → Option Text → Option Text
unfolding validate_request
rejection_loop outputs options [] first = first
rejection_loop outputs options (a ∷ adapters) first = elim (validate_request a outputs options) [
  | none ↦ none
  | some reason ↦
      rejection_loop outputs options adapters (elim first [ none ↦ some reason | some r ↦ some r ])
]

-- `adapter_rejection`.
unfoldable pub adapter_rejection : List AdapterId → List Text → Options → Option Text
unfolding sorted_adapters rejection_loop
adapter_rejection adapters outputs options =
    rejection_loop outputs options (sorted_adapters adapters) none

-- Why a submit is refused, with what its message names.
pub data Refusal : Type 0 where
  unprintable_domain : Refusal
  bad_options : Text → Refusal
  not_served : Text → Refusal
  not_together : Text → List Text → List Text → Refusal
  invalid_options : Text → List Text → Refusal
  invalid_request : Text → Text → Refusal

-- The detail of the 422.
abbrev pub refusal_text : Refusal → Text
refusal_text unprintable_domain = codes "domain must be printable text — see GET /api/v1/domains"
refusal_text (bad_options msg) = msg
refusal_text (not_served name) =
    codes "No backend serves domain '" ++ name ++ codes "' — see GET /api/v1/domains"
refusal_text (not_together name outputs offered) =
    codes "Domain '"
    ++ name
    ++ codes "' can't produce outputs "
    ++ join_with (codes ", ") outputs
    ++ codes " together; its outputs are "
    ++ join_with (codes ", ") offered
refusal_text (invalid_options name errors) =
    codes "Invalid options for domain '" ++ name ++ codes "': " ++ join_with (codes "; ") errors
refusal_text (invalid_request name reason) =
    codes "Invalid request for domain '" ++ name ++ codes "': " ++ reason

pub data Resolved : Type 0 where
  refused : Refusal → Resolved
  accepted : JobSpec → Resolved

abbrev pub name_of : Option Text → Text
name_of none = codes "default"
name_of (some []) = codes "default"
name_of (some (c ∷ t)) = c ∷ t

abbrev offered_by : List BackendCapability → List Text
offered_by [] = []
offered_by (b ∷ backends) = b.outputs ++ offered_by backends

abbrev pub covering : List Text → List BackendCapability → List BackendCapability
covering outputs = keep (λ b. subset outputs b.outputs)

-- The end of `resolve_job_spec`: the adapters' verdict.
unfoldable pub resolve_adapters : Text → List Text → Options → List BackendCapability → Resolved
unfolding adapter_rejection
resolve_adapters name outputs options backends =
    elim (adapter_rejection (map (λ (b : BackendCapability). b.adapter) (covering outputs backends))
      outputs options) [
        | none ↦ accepted (record { domain = name; outputs = outputs; options = options })
        | some reason ↦ refused (invalid_request name reason)
      ]

-- The checks of `resolve_job_spec` on the backends that serve the domain.
unfoldable pub resolve_backends :
    Platform → Text → List Text → Options → List BackendCapability → Resolved
unfolding resolve_adapters options_errors sort_texts
resolve_backends e name outputs options [] = refused (not_served name)
resolve_backends e name outputs options (b ∷ backends) =
    if any (λ (b : BackendCapability). subset outputs b.outputs) (b ∷ backends)
    then (elim (options_errors e b.options_schema options) [
      | [] ↦ resolve_adapters name outputs options (b ∷ backends)
      | error ∷ errors ↦ refused (invalid_options name (error ∷ errors))
    ])
    else refused
        (not_together name (sort_texts outputs) (sort_texts (text_set (offered_by (b ∷ backends)))))

-- `resolve_job_spec`, with the backends that serve each domain.
unfoldable pub resolve_job_spec :
    Platform → (Text → List BackendCapability) → Option Text → List Text → Option Text → Resolved
unfolding parse_options resolve_backends
resolve_job_spec e capabilities domain outputs raw_options =
    let name = name_of domain in
    if all e.is_printable name
    then (elim (parse_options e raw_options) [
      | invalid msg ↦ refused (bad_options msg)
      | parsed options ↦ resolve_backends e name outputs options (capabilities name)
    ])
    else refused unprintable_domain
