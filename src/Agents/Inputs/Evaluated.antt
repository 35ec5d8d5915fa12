-- ===== src/Agents/Inputs/Evaluated.antt =====
-- Which evaluations are accepted (crates/gcpx-agents/src/validate.rs).
use pulumi_rs_provider_gcpx.Base.{
  ℕ, ◌+◌, ◌≡◌, refl, Bool, true, false, not, ◌&&◌, List, [], ◌∷◌, Option, none, some, Text,
  is_empty, is_empty-append, all, trim, arith,
}
use pulumi_rs_provider_gcpx.Agents.Checks.{PatternFailure, validate_pattern}
use pulumi_rs_provider_gcpx.Agents.Inputs.{
  GoldenQuery, AgentEvalInputs, InputFailure, failed_if, asserts_something, as_bad_pattern,
  pattern_failures, query_failures, validate_agent_eval,
}

is_empty-failed_if : (b : Bool) (f : InputFailure) → is_empty (failed_if b f) ≡ not b
is_empty-failed_if true f = refl
is_empty-failed_if false f = refl

abbrev pub passes : Option PatternFailure → Bool
passes none = true
passes (some f) = false

abbrev pub valid_pattern : Option Text → Bool
valid_pattern none = true
valid_pattern (some p) = passes (validate_pattern p)

-- The query's question is not blank, some assertion is there, and its pattern is well formed where it
-- has one.
abbrev pub good_query : GoldenQuery → Bool
good_query q =
    not (is_empty (trim q.question)) && (asserts_something q && valid_pattern q.expect_sql_matches)

is_empty-as_bad_pattern :
    (i : ℕ) (o : Option PatternFailure) → is_empty (as_bad_pattern i o) ≡ passes o
is_empty-as_bad_pattern i none = refl
is_empty-as_bad_pattern i (some f) = refl

is_empty-pattern_failures :
    (i : ℕ) (o : Option Text) → is_empty (pattern_failures i o) ≡ valid_pattern o
is_empty-pattern_failures i none = refl
is_empty-pattern_failures i (some p) = is_empty-as_bad_pattern i (validate_pattern p)

involutive : (b : Bool) → not (not b) ≡ b
involutive b = ground arith

one_more : (a b c d : Bool) → (a && (b && (c && d))) ≡ ((a && (b && c)) && d)
one_more a b c d = ground arith

is_empty-query_failures :
    (i : ℕ) (qs : List GoldenQuery) → is_empty (query_failures i qs) ≡ all good_query qs
unfolding query_failures
is_empty-query_failures i [] = refl
is_empty-query_failures i (q ∷ rest) =
    simp
      (
        query_failures,
        is_empty-append,
        is_empty-failed_if,
        is_empty-pattern_failures i q.expect_sql_matches,
        is_empty-query_failures (i + 1) rest,
        involutive,
      )
      (one_more (not (is_empty (trim q.question))) (asserts_something q)
        (valid_pattern q.expect_sql_matches) (all good_query rest))

-- An evaluation is accepted exactly where its agent is given and every golden query has a question
-- that is not blank, has at least one of a table to reference, a pattern for the SQL, a text for the
-- answer (an empty one counts too) and the demand that there is no error, and has a well-formed
-- pattern where it has one.
pub is_empty-validate_agent_eval :
    (i : AgentEvalInputs)
    → is_empty (validate_agent_eval i) ≡ (not (is_empty i.agent) && all good_query i.golden_queries)
unfolding validate_agent_eval
is_empty-validate_agent_eval i = simp (
  validate_agent_eval,
  is_empty-append,
  is_empty-failed_if,
  is_empty-query_failures 0 i.golden_queries,
)
