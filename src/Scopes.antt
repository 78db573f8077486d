-- ===== src/Scopes.antt =====
-- What an API key may ask for (app/services/scopes.py).
use tuzka_as_a_service.Prelude.{
  ◌≡◌, refl, Bool, true, false, ◌&&◌, not, Option, none, some, List, [], ◌∷◌, if◌then◌else◌, arith,
  keep, all, Text, text_in, sort_texts, text_eq, text_eq_iff, Bool-cases, inl, inr, sym, ◌∙◌,
}

pub record Principal : Type 0 where
  pub username : Text
  pub allowed_domains : Option (List Text)
  pub allowed_outputs : Option (List Text)

-- Why a key may not submit a job; the texts name the domain or the outputs.
pub data Denial : Type 0 where
  domain_denied : Text → Denial
  outputs_denied : List Text → Denial

-- `outputs - allowed`.
abbrev minus : List Text → List Text → List Text
minus outputs allowed = keep (λ o. not (text_in o allowed)) outputs

abbrev domain_allowed : Option (List Text) → Text → Bool
domain_allowed none domain = true
domain_allowed (some domains) domain = text_in domain domains

abbrev deny_outputs : List Text → Option Denial
deny_outputs [] = none
deny_outputs (o ∷ denied) = some (outputs_denied (sort_texts (o ∷ denied)))

abbrev check_outputs : Option (List Text) → List Text → Option Denial
check_outputs none outputs = none
check_outputs (some allowed) outputs = deny_outputs (minus outputs allowed)

-- `check_scope`.
unfoldable pub check_scope : Principal → Text → List Text → Option Denial
check_scope p domain outputs =
    if domain_allowed p.allowed_domains domain
    then check_outputs p.allowed_outputs outputs
    else some (domain_denied domain)

abbrev in_scope : Option (List Text) → List Text → List Text
in_scope none outputs = outputs
in_scope (some allowed) outputs = keep (λ o. text_in o allowed) outputs

-- `in_scope_outputs`.
unfoldable pub in_scope_outputs : Principal → List Text → List Text
in_scope_outputs p outputs = in_scope p.allowed_outputs outputs

-- `visible_outputs`.
unfoldable pub visible_outputs : Principal → Text → List Text → List Text
unfolding in_scope_outputs
visible_outputs p domain outputs =
    if domain_allowed p.allowed_domains domain then in_scope_outputs p outputs else []

abbrev pub permitted : Option Denial → Bool
permitted none = true
permitted (some d) = false

text_in-keep :
    (q : Text → Bool) (o : Text) (outputs : List Text)
    → text_in o (keep q outputs) ≡ (text_in o outputs && q o)
unfolding text_in
text_in-keep q o [] = refl
text_in-keep q o (u ∷ outputs) = elim (Bool-cases (text_eq u o)) [
  | inl e ↦
      let h : u ≡ o = (text_eq_iff u o).0 e in
      rw h (ground (arith, text_in-keep q o outputs, text_eq_iff o o))
  | inr e ↦ ground (arith, text_in-keep q o outputs)
]

minus_nil :
    (outputs allowed : List Text)
    → permitted (deny_outputs (minus outputs allowed)) ≡ all (λ o. text_in o allowed) outputs
minus_nil [] allowed = refl
minus_nil (o ∷ outputs) allowed = ground (arith, minus_nil outputs allowed)

all_singles :
    (allowed outputs : List Text)
    → all (λ x. permitted (deny_outputs (minus (x ∷ []) allowed))) outputs
      ≡ all (λ o. text_in o allowed) outputs
all_singles allowed [] = refl
all_singles allowed (o ∷ outputs) =
    ground (arith, all_singles allowed outputs, minus_nil (o ∷ []) allowed)

all-true : (outputs : List Text) → all (λ x. true) outputs ≡ true
all-true [] = refl
all-true (o ∷ outputs) = all-true outputs

permitted_check :
    (allowed : Option (List Text)) (o : Text) (outputs : List Text)
    → permitted (check_outputs allowed (o ∷ outputs))
      ≡ all (λ x. permitted (check_outputs allowed (x ∷ []))) (o ∷ outputs)
permitted_check none o outputs = sym (all-true (o ∷ outputs))
permitted_check (some allowed) o outputs =
    minus_nil (o ∷ outputs) allowed ∙ sym (all_singles allowed (o ∷ outputs))

text_in-in_scope :
    (allowed : Option (List Text)) (o : Text) (outputs : List Text)
    → text_in o (in_scope allowed outputs)
      ≡ (text_in o outputs && permitted (check_outputs allowed (o ∷ [])))
text_in-in_scope none o outputs = ground arith
text_in-in_scope (some allowed) o outputs =
    ground (arith, text_in-keep (λ x. text_in x allowed) o outputs, minus_nil (o ∷ []) allowed)

-- What /domains lists for a key is what the key may submit: an output of a domain is shown exactly
-- when it is offered there and a job for it alone is permitted.
pub visible_iff_permitted :
    (p : Principal) (domain o : Text) (outputs : List Text)
    → text_in o (visible_outputs p domain outputs)
      ≡ (text_in o outputs && permitted (check_scope p domain (o ∷ [])))
unfolding visible_outputs check_scope in_scope_outputs text_in
visible_iff_permitted p domain o outputs =
    elim (Bool-cases (domain_allowed p.allowed_domains domain)) [
      | inl e ↦ rw e (text_in-in_scope p.allowed_outputs o outputs)
      | inr e ↦ rw e (ground arith)
    ]

by_outputs :
    (offered : Bool) (d : Denial) (allowed : Option (List Text)) (o : Text) (outputs : List Text)
    → permitted (if offered then check_outputs allowed (o ∷ outputs) else some d)
      ≡ all
          (λ x. permitted (if offered then check_outputs allowed (x ∷ []) else some d))
          (o ∷ outputs)
by_outputs true d allowed o outputs = permitted_check allowed o outputs
by_outputs false d allowed o outputs = refl

-- A job that asks for at least one output is permitted exactly when it is permitted for each of
-- its outputs alone.
pub permitted_outputs :
    (p : Principal) (domain o : Text) (outputs : List Text)
    → permitted (check_scope p domain (o ∷ outputs))
      ≡ all (λ x. permitted (check_scope p domain (x ∷ []))) (o ∷ outputs)
unfolding check_scope
permitted_outputs p domain o outputs =
    by_outputs (domain_allowed p.allowed_domains domain) (domain_denied domain) p.allowed_outputs o
      outputs
