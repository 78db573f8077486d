-- ===== src/Load/Totals.antt =====
-- `compute_load` and `group_load` (app/services/load.py). Seconds are natural numbers of one unit.
use tuzka_as_a_service.Prelude.{
  ℕ, ◌+◌, ◌*◌, ◌&&◌, Text, List, [], ◌∷◌, ◌++◌, sort_texts, keep, not, Bool, true, false, Option,
  none, some, or_else, text_in, text_eq, text_ltb, subset, if◌then◌else◌, map,
}
use tuzka_as_a_service.Prelude.Int.{ℤ, pos_part, pos}
use tuzka_as_a_service.Load.{parse_load_field}

pub data LoadGroupBy : Type 0 where
  by_domain by_adapter : LoadGroupBy

-- A dict with text keys.
abbrev pub Dict {ℓ} : Type ℓ → Type ℓ
Dict A = List (Text × A)

abbrev pub find {ℓ} : {A : Type ℓ} → Text → Dict A → Option A
find k [] = none
find k ((j, a) ∷ d) = if text_eq j k then some a else find k d

abbrev pub keys {ℓ} : {A : Type ℓ} → Dict A → List Text
keys [] = []
keys ((j, a) ∷ d) = j ∷ keys d

pub record LoadTotals : Type 0 where
  pub queued : ℕ
  pub inflight : ℕ
  pub backlog_s : ℕ

-- What `_counts` yields of one counter field.
pub record LoadRow : Type 0 where
  pub domain : Text
  pub outputs : List Text
  pub queued : ℤ
  pub inflight : ℤ

abbrev pub row : Dict ℤ → Dict ℤ → Text → LoadRow
unfolding parse_load_field
row queued inflight field =
    let (domain, outputs) = parse_load_field field in
    record {
      domain = domain;
      outputs = outputs;
      queued = or_else (find field queued) (pos 0);
      inflight = or_else (find field inflight) (pos 0);
    }

-- `_counts`.
unfoldable pub counts : Dict ℤ → Dict ℤ → List LoadRow
counts queued inflight =
    map (row queued inflight)
      (keys queued ++ keep (λ k. not (text_in k (keys queued))) (keys inflight))

abbrev in_domains : Option (List Text) → Text → Bool
in_domains none domain = true
in_domains (some domains) domain = text_in domain domains

abbrev covered : Option (List Text) → List Text → Bool
covered none outputs = false
covered (some served) outputs = subset outputs served

abbrev served_by : Option (Dict (List Text)) → Text → List Text → Bool
served_by none domain outputs = true
served_by (some caps) domain outputs = covered (find domain caps) outputs

-- `_matches`.
unfoldable pub matches : Text → List Text → Option (List Text) → Option (Dict (List Text)) → Bool
matches domain outputs domains caps = in_domains domains domain && served_by caps domain outputs

-- `max(n, 0)` is the positive part.
abbrev pub add_row : Dict ℕ → ℕ → LoadRow → LoadTotals → LoadTotals
add_row spp default_spp c t =
    let q = pos_part c.queued in
    let i = pos_part c.inflight in
    record {
      queued = t.queued + q;
      inflight = t.inflight + i;
      backlog_s = t.backlog_s + (q + i) * or_else (find c.domain spp) default_spp;
    }

unfoldable pub load_loop :
    Dict ℕ
    → ℕ
    → Option (List Text)
    → Option (Dict (List Text))
    → List LoadRow
    → LoadTotals
    → LoadTotals
unfolding matches
load_loop spp default_spp domains caps [] t = t
load_loop spp default_spp domains caps (c ∷ rows) t =
    load_loop spp default_spp domains caps rows
      (if matches c.domain c.outputs domains caps then add_row spp default_spp c t else t)

abbrev pub no_load : LoadTotals
no_load = record { queued = 0; inflight = 0; backlog_s = 0 }

-- `compute_load`.
unfoldable pub compute_load :
    Dict ℤ → Dict ℤ → Dict ℕ → ℕ → Option (List Text) → Option (Dict (List Text)) → LoadTotals
unfolding counts load_loop
compute_load queued inflight spp default_spp domains caps =
    load_loop spp default_spp domains caps (counts queued inflight) no_load

-- The set of some texts.
unfoldable pub distinct : List Text → List Text
distinct [] = []
distinct (t ∷ ts) = let rest = distinct ts in if text_in t rest then rest else t ∷ rest

insert_item : {A : Type 0} → Text → A → Dict A → Dict A
insert_item k a [] = (k, a) ∷ []
insert_item k a ((j, b) ∷ d) =
    let rest = insert_item k a d in if text_ltb j k then (j, b) ∷ rest else (k, a) ∷ (j, b) ∷ d

-- `sorted(d.items())`.
unfoldable pub sort_items : {A : Type 0} → Dict A → Dict A
unfolding insert_item
sort_items [] = []
sort_items ((k, a) ∷ d) = insert_item k a (sort_items d)

abbrev pub domains_of : List LoadRow → List Text
domains_of [] = []
domains_of (c ∷ rows) = c.domain ∷ domains_of rows

-- `group_load`.
unfoldable pub group_load :
    Dict ℤ
    → Dict ℤ
    → Dict ℕ
    → ℕ
    → LoadGroupBy
    → Dict (Dict (List Text))
    → Option (List Text)
    → Dict LoadTotals
unfolding compute_load sort_items distinct sort_texts
group_load queued inflight spp default_spp by_adapter adapter_caps domains =
    map (λ (name, caps). (name, compute_load queued inflight spp default_spp domains (some caps)))
      (sort_items adapter_caps)
group_load queued inflight spp default_spp by_domain adapter_caps domains =
    map (λ name. (name, compute_load queued inflight spp default_spp (some (name ∷ [])) none))
      (keep (in_domains domains) (sort_texts (distinct (domains_of (counts queued inflight)))))
