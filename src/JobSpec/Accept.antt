-- ===== src/JobSpec/Accept.antt =====
-- Which submits `resolve_job_spec` accepts (app/services/job_spec.py).
use tuzka_as_a_service.Prelude.{
  list_cases, ◌≡◌, refl, sym, ap, Bool, true, false, ◌&&◌, ◌||◌, not, Option, none, some, List, [],
  ◌∷◌, Text, arith, all, any, map, subset, ◌↔◌, Bool-cases, inl, inr, ◌⊎◌, Option-cases, subst,
}
use tuzka_as_a_service.JobSpec.{
  Options, AdapterId, tuzkaocr, tuzkam, Platform, BackendCapability, JobSpec, Parsed, invalid,
  parsed, parse_options, options_errors, validate_request, is_tuzkam, sorted_adapters,
  rejection_loop, adapter_rejection, accepted, name_of, covering, resolve_adapters,
  resolve_backends, resolve_job_spec,
}

abbrev is_none {ℓ} : {A : Type ℓ} → Option A → Bool
is_none none = true
is_none (some a) = false

abbrev pub takes : List Text → Options → BackendCapability → Bool
takes outputs options b =
    subset outputs b.outputs && is_none (validate_request b.adapter outputs options)

abbrev pub schema_of : List BackendCapability → Option Text
schema_of [] = none
schema_of (b ∷ backends) = b.options_schema

-- What an accepted submit's spec fulfils, for the backends that serve its domain.
pub record IsAcceptable (e : Platform) (capabilities : Text → List BackendCapability)
    (domain : Option Text) (outputs : List Text) (raw_options : Option Text) (spec : JobSpec)
    : Type 0 where
  pub domain_named : spec.domain ≡ name_of domain
  pub domain_printable : all e.is_printable spec.domain ≡ true
  pub outputs_kept : spec.outputs ≡ outputs
  pub options_parsed : parse_options e raw_options ≡ parsed spec.options
  pub options_valid : options_errors e (schema_of (capabilities spec.domain)) spec.options ≡ []
  pub backend_takes : any (takes spec.outputs spec.options) (capabilities spec.domain) ≡ true

module _ (outputs : List Text) (options : Options) where
  abbrev refuses : List BackendCapability → Option Text
  refuses backends =
      adapter_rejection (map (λ (b : BackendCapability). b.adapter) (covering outputs backends))
        outputs options

  abbrev has_ocr : List BackendCapability → Bool
  has_ocr backends =
      any (λ a. not (is_tuzkam a))
        (map (λ (b : BackendCapability). b.adapter) (covering outputs backends))

  abbrev has_tuzkam : List BackendCapability → Bool
  has_tuzkam backends =
      any is_tuzkam (map (λ (b : BackendCapability). b.adapter) (covering outputs backends))

  abbrev tuzkam_takes : Bool
  tuzkam_takes = is_none (validate_request tuzkam outputs options)

  ocr_takes : validate_request tuzkaocr outputs options ≡ none
  unfolding validate_request
  ocr_takes = refl

  is_none_rejection :
      (adapters : List AdapterId)
      → is_none (adapter_rejection adapters outputs options)
        ≡ (not (any is_tuzkam adapters) || tuzkam_takes || any (λ a. not (is_tuzkam a)) adapters)
  unfolding adapter_rejection sorted_adapters rejection_loop
  is_none_rejection adapters = ground (arith, ocr_takes)

  any-takes :
      (backends : List BackendCapability)
      → any (takes outputs options) backends
        ≡ ((has_tuzkam backends && tuzkam_takes) || has_ocr backends)
  any-takes [] = refl
  any-takes (b ∷ backends) = ground (arith, any-takes backends, ocr_takes)

  any-covers :
      (backends : List BackendCapability)
      → any (λ (b : BackendCapability). subset outputs b.outputs) backends
        ≡ (has_tuzkam backends || has_ocr backends)
  any-covers [] = refl
  any-covers (b ∷ backends) = ground (arith, any-covers backends)

abbrev spec_of : Text → List Text → Options → JobSpec
spec_of name outputs options = record { domain = name; outputs = outputs; options = options }

-- What the checks on the backends accept.
abbrev Served : Platform → Text → List Text → Options → List BackendCapability → JobSpec → Type 0
Served e name outputs options backends spec =
    (spec_of name outputs options ≡ spec)
    × (options_errors e (schema_of backends) options ≡ [])
    × (any (takes outputs options) backends ≡ true)

resolve_adapters_iff :
    (name : Text) (outputs : List Text) (options : Options) (backends : List BackendCapability)
    (spec : JobSpec)
    → any (λ (b : BackendCapability). subset outputs b.outputs) backends ≡ true
    → (resolve_adapters name outputs options backends ≡ accepted spec)
      ↔ ((spec_of name outputs options ≡ spec) × (any (takes outputs options) backends ≡ true))
unfolding resolve_adapters
resolve_adapters_iff name outputs options backends spec c =
    let rejection =
      is_none_rejection outputs options
        (map (λ (b : BackendCapability). b.adapter) (covering outputs backends)) in
    let taken = any-takes outputs options backends in
    let covered = any-covers outputs options backends in
    elim (Option-cases (refuses outputs options backends)) [
      | inl r ↦
          rw (r, resolve_adapters)
            ((λ h. (cc, ground (arith, rejection, taken, covered, r, c))), (λ h. ap accepted h.0))
      | inr (reason, r) ↦
          rw (r, resolve_adapters)
            ((λ h. cc), (λ h. absurd (ground (arith, rejection, taken, covered, r, c, h.1))))
    ]

covers_of_takes :
    (outputs : List Text) (options : Options) (backends : List BackendCapability)
    → any (takes outputs options) backends ≡ true
    → any (λ (b : BackendCapability). subset outputs b.outputs) backends ≡ true
covers_of_takes outputs options [] h = h
covers_of_takes outputs options (b ∷ backends) h =
    ground (arith, covers_of_takes outputs options backends)

resolve_backends_iff :
    (e : Platform) (name : Text) (outputs : List Text) (options : Options)
    (backends : List BackendCapability) (spec : JobSpec)
    → (resolve_backends e name outputs options backends ≡ accepted spec)
      ↔ Served e name outputs options backends spec
unfolding resolve_backends
resolve_backends_iff e name outputs options [] spec = ((λ h. cc), (λ h. cc))
resolve_backends_iff e name outputs options (b ∷ backends) spec =
    elim (Bool-cases (any (λ (b : BackendCapability). subset outputs b.outputs) (b ∷ backends))) [
      | inr none_covers ↦ rw none_covers (
        (λ h. cc),
        (λ h. absurd (cc (none_covers, covers_of_takes outputs options (b ∷ backends) h.2))),
      )
      | inl covers ↦ rw covers (elim (list_cases (options_errors e b.options_schema options)) [
        | inr (x, xs, errors) ↦ rw errors ((λ h. cc), (λ h. absurd (cc h.1)))
        | inl valid ↦
            let last = resolve_adapters_iff name outputs options (b ∷ backends) spec covers in
            rw valid ((λ h. ((last.0 h).0, refl, (last.0 h).1)), (λ h. last.1 (h.0, h.2)))
      ])
    ]

parsed_cases {ℓ} :
    {A : Type ℓ} (r : Parsed A) → ((msg : Text) × (r ≡ invalid msg)) ⊎ ((a : A) × (r ≡ parsed a))
parsed_cases (invalid msg) = inl (msg, refl)
parsed_cases (parsed a) = inr (a, refl)

module _ (e : Platform) (capabilities : Text → List BackendCapability) (domain : Option Text)
    (outputs : List Text) where
  IsAcceptable-spec_of :
      (raw_options : Option Text) (options : Options)
      → all e.is_printable (name_of domain) ≡ true
      → parse_options e raw_options ≡ parsed options
      → options_errors e (schema_of (capabilities (name_of domain))) options ≡ []
      → any (takes outputs options) (capabilities (name_of domain)) ≡ true
      → IsAcceptable e capabilities domain outputs raw_options
          (spec_of (name_of domain) outputs options)
  IsAcceptable-spec_of raw_options options p o v t = record {
    domain_named = refl;
    domain_printable = p;
    outputs_kept = refl;
    options_parsed = o;
    options_valid = v;
    backend_takes = t;
  }

  IsAcceptable-Served :
      (raw_options : Option Text) (options : Options) (spec : JobSpec)
      → parse_options e raw_options ≡ parsed options
      → IsAcceptable e capabilities domain outputs raw_options spec
      → Served e (name_of domain) outputs options (capabilities (name_of domain)) spec
  IsAcceptable-Served raw_options options spec q a =
      let same : options ≡ spec.options = cc (q, a.options_parsed) in
      let named : name_of domain ≡ spec.domain = sym a.domain_named in
      let kept : outputs ≡ spec.outputs = sym a.outputs_kept in
      let built : spec_of (name_of domain) outputs options
          ≡ spec_of spec.domain spec.outputs spec.options =
        cc (same, named, kept) in
      (built, cc (a.options_valid, same, named), cc (a.backend_takes, same, named, kept))

-- `resolve_job_spec` accepts exactly the submits whose domain (`default` if none is given) is
-- printable, whose options parse and fulfil the domain's schema, and that some one backend of the
-- domain can take: it produces all the outputs and its adapter accepts the request. The spec it
-- gives is the domain, the outputs and the options asked for.
pub resolve_job_spec_iff :
    (e : Platform) (capabilities : Text → List BackendCapability) (domain : Option Text)
    (outputs : List Text) (raw_options : Option Text) (spec : JobSpec)
    → (resolve_job_spec e capabilities domain outputs raw_options ≡ accepted spec)
      ↔ IsAcceptable e capabilities domain outputs raw_options spec
unfolding resolve_job_spec
resolve_job_spec_iff e capabilities domain outputs raw_options spec =
    elim (Bool-cases (all e.is_printable (name_of domain))) [
      | inr p ↦ rw p ((λ h. cc), (λ h. absurd (cc (p, h.domain_printable, h.domain_named))))
      | inl p ↦ rw p (elim (parsed_cases (parse_options e raw_options)) [
        | inl (msg, o) ↦ rw o ((λ h. cc), (λ h. absurd (cc (o, h.options_parsed))))
        | inr (options, o) ↦
            let checks =
              resolve_backends_iff e (name_of domain) outputs options
                (capabilities (name_of domain)) spec in
            rw o (
              (λ h.
                  let (named, valid, takes) = checks.0 h in
                  subst (IsAcceptable e capabilities domain outputs raw_options) named (
                    IsAcceptable-spec_of e capabilities domain outputs raw_options options p o valid
                      takes)),
              (λ h.
                  checks.1 (
                    IsAcceptable-Served e capabilities domain outputs raw_options options spec o
                      h)),
            )
      ])
    ]
