-- ===== src/Vocabulary.antt =====
-- The legacy `fmt` of a submit and an engine's state (app/vocabulary.py).
use tuzka_as_a_service.Prelude.{
  ◌≡◌, refl, Bool, true, false, ◌&&◌, Option, none, some, List, [], ◌∷◌, if◌then◌else◌, arith, Text,
  codes, subset, text_eq, text_in, text_eq_iff, Bool-cases, inl, inr, sym, ◌↔◌,
}

pub data Fmt : Type 0 where
  alto txt multi : Fmt

-- `Fmt.outputs`.
unfoldable pub outputs_of_fmt : Fmt → List Text
outputs_of_fmt alto = codes "alto" ∷ []
outputs_of_fmt txt = codes "txt" ∷ []
outputs_of_fmt multi = codes "alto" ∷ codes "txt" ∷ []

-- Two sets are equal.
abbrev pub same_set : List Text → List Text → Bool
same_set a b = subset a b && subset b a

-- `Fmt.from_outputs`; `none` is its ValueError.
unfoldable pub fmt_of_outputs : List Text → Option Fmt
unfolding outputs_of_fmt
fmt_of_outputs outputs =
    if same_set (outputs_of_fmt alto) outputs
    then some alto
    else (if same_set (outputs_of_fmt txt) outputs
        then some txt
        else (if same_set (outputs_of_fmt multi) outputs then some multi else none))

is_asked_for :
    (outputs : List Text) (f : Fmt)
    → fmt_of_outputs outputs ≡ some f
    → same_set (outputs_of_fmt f) outputs ≡ true
unfolding fmt_of_outputs
is_asked_for outputs f h = ground arith

subset-in :
    (t : Text) (ts us : List Text) → subset ts us ≡ true → text_in t ts ≡ true → text_in t us ≡ true
unfolding subset text_in
subset-in t [] us h m = cc
subset-in t (u ∷ ts) us h m = elim (Bool-cases (text_eq u t)) [
  | inl e ↦ let q : u ≡ t = (text_eq_iff u t).0 e in rw (sym q) (ground arith)
  | inr e ↦ subset-in t ts us (ground arith) (ground arith)
]

-- A set is not equal to two that differ in one text.
apart :
    (t : Text) (us vs outputs : List Text)
    → text_in t us ≡ true
    → text_in t vs ≡ false
    → same_set us outputs ≡ true
    → same_set vs outputs ≡ false
apart t us vs outputs m n h = elim (Bool-cases (subset outputs vs)) [
  | inl e ↦
      let asked : text_in t outputs ≡ true = subset-in t us outputs (ground arith) m in
      let also : text_in t vs ≡ true = subset-in t outputs vs e asked in absurd (ground arith)
  | inr e ↦ ground arith
]

in_txt : text_in (codes "txt") (outputs_of_fmt txt) ≡ true
unfolding text_in text_eq outputs_of_fmt
in_txt = refl

not_in_alto : text_in (codes "txt") (outputs_of_fmt alto) ≡ false
unfolding text_in text_eq outputs_of_fmt
not_in_alto = refl

txt_in_multi : text_in (codes "txt") (outputs_of_fmt multi) ≡ true
unfolding text_in text_eq outputs_of_fmt
txt_in_multi = refl

alto_in_multi : text_in (codes "alto") (outputs_of_fmt multi) ≡ true
unfolding text_in text_eq outputs_of_fmt
alto_in_multi = refl

not_in_txt : text_in (codes "alto") (outputs_of_fmt txt) ≡ false
unfolding text_in text_eq outputs_of_fmt
not_in_txt = refl

is_found :
    (outputs : List Text) (f : Fmt)
    → same_set (outputs_of_fmt f) outputs ≡ true
    → fmt_of_outputs outputs ≡ some f
unfolding fmt_of_outputs
is_found outputs alto h = rw h refl
is_found outputs txt h =
    rw
      (
        apart (codes "txt") (outputs_of_fmt txt) (outputs_of_fmt alto) outputs in_txt not_in_alto h,
        h,
      )
      refl
is_found outputs multi h =
    rw
      (
        apart (codes "txt") (outputs_of_fmt multi) (outputs_of_fmt alto) outputs txt_in_multi
            not_in_alto h,
        apart (codes "alto") (outputs_of_fmt multi) (outputs_of_fmt txt) outputs alto_in_multi
            not_in_txt h,
        h,
      )
      refl

-- `from_outputs` finds a fmt exactly when that fmt's outputs are the ones given, as sets.
pub fmt_of_outputs_iff :
    (outputs : List Text) (f : Fmt)
    → (fmt_of_outputs outputs ≡ some f) ↔ (same_set (outputs_of_fmt f) outputs ≡ true)
fmt_of_outputs_iff outputs f = (is_asked_for outputs f, is_found outputs f)

pub data EngineState : Type 0 where
  queued running done failed error unknown : EngineState

-- `EngineState.parse` of a text.
unfoldable pub parse_engine_state : Text → EngineState
parse_engine_state value =
    if text_eq value (codes "queued")
    then queued
    else (if text_eq value (codes "running")
        then running
        else (if text_eq value (codes "done")
            then done
            else (if text_eq value (codes "failed")
                then failed
                else (if text_eq value (codes "error") then error else unknown))))
