-- ===== src/Config/Services/Exclusion.antt =====
-- From the element `exclusions` of a configuration to the tables of a pull request's comment.
use text.Mathlib.Text.{◌==◌}
use mathlib.Core.Logic.{inl, inr}
use mathlib.Core.Path.{subst}
use text.Mathlib.TextEquality.{eq_iff}
use cxone_flow_buildwork.Prelude.{
  String, Bool, true, false, ◌||◌, ◌≡◌, refl, sym, ap, ◌∙◌, Option, none, some, List, [], ◌∷◌,
  contains, arith, Bool-cases, Option-cases,
}
use cxone_flow_buildwork.Prelude.Run.{ok, Result-cases}
use cxone_flow_buildwork.Decoration.{
  ResultStates, to_verify, not_exploitable, proposed_not_exploitable, confirmed, urgent,
  ResultSeverity, critical, high, medium, low, info, state_of, severity_of,
}
use cxone_flow_buildwork.Decoration.Report.{
  Found, is_kept, state_in, severity_in, test_in_states, test_in_severities,
}
use cxone_flow_buildwork.Config.Lookups.{Files, load_amqp_settings}
use cxone_flow_buildwork.Config.Services.{
  FeedbackConfig, PrFeedback, members, pr_feedback_service_factory,
}

state_in-head : (x : ResultStates) (xs : List ResultStates) → state_in x (x ∷ xs) ≡ true
unfolding state_in
state_in-head to_verify xs = refl
state_in-head not_exploitable xs = refl
state_in-head proposed_not_exploitable xs = refl
state_in-head confirmed xs = refl
state_in-head urgent xs = refl

severity_in-head : (x : ResultSeverity) (xs : List ResultSeverity) → severity_in x (x ∷ xs) ≡ true
unfolding severity_in
severity_in-head critical xs = refl
severity_in-head high xs = refl
severity_in-head medium xs = refl
severity_in-head low xs = refl
severity_in-head info xs = refl

module _ {A : Type 0} (enum : String → Option A) (test : Option A → List A → Bool)
    (head : (x : A) (xs : List A) → test (some x) (x ∷ xs) ≡ true)
    (tail : (o : Option A) (x : A) (xs : List A) → test o xs ≡ true → test o (x ∷ xs) ≡ true) where
  contains-members :
      (values : List String) {xs : List A} (value : String)
      → members enum values ≡ ok xs
      → contains value values ≡ true
      → test (enum value) xs ≡ true
  unfolding members
  contains-members [] value made there = absurd (ground arith)
  contains-members (v ∷ vs) {xs} value made there = elim (Option-cases (enum v)) [
    | inl e ↦ absurd (ground arith)
    | inr (x, e) ↦ elim (Result-cases (members enum vs)) [
      | inr (r, e2) ↦ absurd (ground arith)
      | inl (ys, e2) ↦
          let made2 : x ∷ ys ≡ xs = ground arith in
          elim (Bool-cases (value == v)) [
            | inl same ↦
                let at_x : enum value ≡ some x = ap enum ((eq_iff value v).0 same) ∙ e in
                subst (λ l. test (enum value) l ≡ true) made2
                  (subst (λ o. test o (x ∷ ys) ≡ true) (sym at_x) (head x ys))
            | inr other ↦
                subst (λ l. test (enum value) l ≡ true) made2
                  (tail (enum value) x ys (contains-members vs value e2 (ground arith)))
          ]
    ]
  ]

test_in_states-tail :
    (o : Option ResultStates) (x : ResultStates) (xs : List ResultStates)
    → test_in_states o xs ≡ true
    → test_in_states o (x ∷ xs) ≡ true
unfolding state_in
test_in_states-tail none x xs h = absurd (ground arith)
test_in_states-tail (some y) x xs h = ground arith

test_in_severities-tail :
    (o : Option ResultSeverity) (x : ResultSeverity) (xs : List ResultSeverity)
    → test_in_severities o xs ≡ true
    → test_in_severities o (x ∷ xs) ≡ true
unfolding severity_in
test_in_severities-tail none x xs h = absurd (ground arith)
test_in_severities-tail (some y) x xs h = ground arith

module _ (files : Files) (default_ssl : String) (c : FeedbackConfig) where
  -- what the factory's exclusions come from
  exclusions_from :
      {w : PrFeedback}
      → pr_feedback_service_factory files default_ssl (some c) ≡ ok w
      → (members state_of c.excluded_state ≡ ok w.exclusions.excluded_states)
        × (members severity_of c.excluded_severity ≡ ok w.exclusions.excluded_severities)
  unfolding pr_feedback_service_factory
  exclusions_from {w} h = elim (Result-cases (members state_of c.excluded_state)) [
    | inr (r, e) ↦ absurd (ground arith)
    | inl (states, e) ↦ elim (Result-cases (members severity_of c.excluded_severity)) [
      | inr (r, e2) ↦ absurd (ground arith)
      | inl (severities, e2) ↦ elim (Result-cases (load_amqp_settings files c.amqp default_ssl)) [
        | inr (r, e3) ↦ absurd (ground arith)
        | inl (amqp, e3) ↦ (ground arith, ground arith)
      ]
    ]
  ]

  -- What the configuration excludes is in no table: where the feedback service is made of a
  -- configuration, a result that has a state is not kept under the service's exclusions if its state is
  -- a text of the element exclusions/state or its severity is a text of exclusions/severity.
  pub excluded_is_not_kept :
      {w : PrFeedback} (f : Found) (state : String)
      → pr_feedback_service_factory files default_ssl (some c) ≡ ok w
      → f.state ≡ some state
      → (contains state c.excluded_state || contains f.severity c.excluded_severity) ≡ true
      → is_kept w.exclusions f ≡ false
  unfolding is_kept
  excluded_is_not_kept {w} f state made at there =
      let (states, severities) = exclusions_from made in
      elim (Bool-cases (contains state c.excluded_state)) [
        | inl by_state ↦
            let out =
              contains-members state_of test_in_states state_in-head test_in_states-tail
                c.excluded_state state states by_state in
            ground arith
        | inr other ↦
            let out =
              contains-members severity_of test_in_severities severity_in-head
                test_in_severities-tail c.excluded_severity f.severity severities (ground arith) in
            ground arith
      ]
