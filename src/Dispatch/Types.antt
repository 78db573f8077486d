-- ===== src/Dispatch/Types.antt =====
-- The values dispatch allocates (app/workers/submit/types.py), and what a backend can serve.
use tuzka_as_a_service.Prelude.{
  ℕ, ◌+◌, ◌-◌, Bool, false, Option, none, some, List, [], ◌∷◌, Text, text_eq, subset, if◌then◌else◌,
  max,
}
use tuzka_as_a_service.Prelude.Int.{ℤ, pos, ◌+ℤ◌}
use tuzka_as_a_service.Dispatch.Number.{Number}

pub record Backend : Type 0 where
  pub id : ℕ
  pub max_inflight : ℕ
  pub priority : ℕ

-- Domain → the outputs a backend produces for it.
abbrev pub Domains : Type 0
Domains = List (Text × List Text)

-- A batch the slot runs no page of counts 0. The counters may be below 0.
pub record BackendSlot : Type 0 where
  pub backend : Backend
  pub free : ℕ
  pub domains : Domains
  pub inflight : ℤ
  pub batches : ℕ → ℤ
  pub assigned : ℕ

abbrev pub outputs_of : Text → Domains → Option (List Text)
outputs_of domain [] = none
outputs_of domain ((d, outputs) ∷ rest) =
    let later = outputs_of domain rest in if text_eq d domain then some outputs else later

abbrev pub covers : List Text → Option (List Text) → Bool
covers outputs none = false
covers outputs (some offered) = subset outputs offered

-- `serves`.
unfoldable pub serves : Domains → Text → List Text → Bool
serves domains domain outputs = covers outputs (outputs_of domain domains)

-- `unstored_capacity`; the truncated difference is the `max` with 0.
unfoldable pub unstored_capacity : ℕ → ℕ → ℕ → ℕ
unstored_capacity limit inflight storing = limit - inflight - storing

module _ (N : Number) where
  open N use {Val, of_nat, of_int, times, over}

  pub record PendingJob : Type 0 where
    pub job_id : ℕ
    pub score : ℕ
    pub domain : Text
    pub outputs : List Text
    pub avoid : List ℕ
    pub megapixels : Val
    pub batch_id : Option ℕ

  -- `can_serve`.
  abbrev pub can_serve : BackendSlot → PendingJob → Bool
  can_serve slot job = serves slot.domains job.domain job.outputs

  -- `expected_finish`.
  unfoldable pub expected_finish : BackendSlot → PendingJob → Val → Val
  unfolding ◌+ℤ◌
  expected_finish slot job seconds_per_mp =
      over
        (times (times (of_int (slot.inflight +ℤ pos (slot.assigned + 1))) seconds_per_mp)
          job.megapixels)
        (of_nat (max 1 slot.backend.max_inflight))
