-- ===== src/Agents/Inputs.antt =====
-- crates/gcpx-agents/src/validate.rs and types.rs: the checks on data agents, agent engines and
-- evaluations. A reason is structured data in place of its text.
pub mod Evaluated
use pulumi_rs_provider_gcpx.Base.{
  ℕ, ◌+◌, Bool, true, false, not, ◌||◌, ◌&&◌, List, [], ◌∷◌, ◌++◌, map, Option, none, some, Text,
  codes, text_eq, eq_ignore_case, is_empty, lower, trim, contains, starts_with, if◌then◌else◌,
}
use pulumi_rs_provider_gcpx.Agents.Checks.{
  IdFailure, invalid_resource_id, PatternFailure, validate_pattern,
}

pub record TableRef : Type 0 where
  pub project : Text
  pub dataset : Text
  pub table : Text

pub record ExploreRef : Type 0 where
  pub looker_instance_uri : Text
  pub lookml_model : Text
  pub explore : Text

pub data Datasources : Type 0 where
  big_query : List TableRef → Datasources
  looker : List ExploreRef → Datasources

abbrev pub has_no_datasource : Datasources → Bool
has_no_datasource (big_query ts) = is_empty ts
has_no_datasource (looker es) = is_empty es

pub record ExampleQuery : Type 0 where
  pub question : Text
  pub sql : Text

pub record GlossaryTerm : Type 0 where
  pub term : Text
  pub description : Text
  pub synonyms : List Text

pub record AgentOptions : Type 0 where
  pub chart_rendering : Option Text
  pub python_analysis : Option Bool
  pub model : Option Text

pub record AgentContext : Type 0 where
  pub system_instruction : Text
  pub datasources : Datasources
  pub options : AgentOptions
  pub example_queries : List ExampleQuery
  pub glossary_terms : List GlossaryTerm

pub record DataAgentInputs : Type 0 where
  pub project : Text
  pub location : Text
  pub agent_id : Text
  pub display_name : Option Text
  pub description : Option Text
  pub labels : List (Text × Text)
  pub kms_key : Option Text
  pub context : AgentContext
  pub publish : Bool

pub record AgentEngineInputs : Type 0 where
  pub project : Text
  pub location : Text
  pub engine_id : Option Text
  pub display_name : Text
  pub description : Option Text
  pub pickle_uri : Option Text
  pub requirements_uri : Option Text
  pub dependency_files_uri : Option Text
  pub python_version : Option Text
  pub env : List (Text × Text)
  pub secret_env : List (Text × Text)

pub record GoldenQuery : Type 0 where
  pub question : Text
  pub must_reference_tables : List Text
  pub expect_sql_matches : Option Text
  pub expect_answer_contains : Option Text
  pub must_not_error : Bool

pub record AgentEvalInputs : Type 0 where
  pub project : Text
  pub location : Text
  pub agent : Text
  pub golden_queries : List GoldenQuery
  pub fail_on_regression : Bool
  pub max_concurrency : ℕ

pub data InputFailure : Type 0 where
  empty_input : Text → InputFailure
  bad_agent_id : IdFailure → InputFailure
  no_datasource no_system_instruction nothing_to_publish global_location : InputFailure
  example_without_sql : ℕ → Text → InputFailure
  unknown_chart : Text → InputFailure
  not_a_storage_uri : Text → InputFailure
  not_a_secret : Text → InputFailure
  no_question : ℕ → InputFailure
  asserts_nothing : ℕ → Text → InputFailure
  bad_pattern : ℕ → PatternFailure → InputFailure

abbrev pub failed_if : Bool → InputFailure → List InputFailure
failed_if b f = if b then f ∷ [] else []

abbrev pub id_failures : Option IdFailure → List InputFailure
id_failures none = []
id_failures (some f) = bad_agent_id f ∷ []

unfoldable pub example_failures : ℕ → List ExampleQuery → List InputFailure
unfolding trim
example_failures i [] = []
example_failures i (q ∷ rest) =
    failed_if (is_empty (trim q.sql)) (example_without_sql i q.question)
    ++ example_failures (i + 1) rest

unfoldable pub is_chart : Text → Bool
unfolding text_eq
is_chart s =
    let t = map lower s in
    text_eq t (codes "none") || (text_eq t (codes "svg") || text_eq t (codes "image"))

abbrev pub chart_failures : Option Text → List InputFailure
chart_failures none = []
chart_failures (some chart) = failed_if (not (is_chart chart)) (unknown_chart chart)

unfoldable pub validate_data_agent : DataAgentInputs → List InputFailure
unfolding invalid_resource_id example_failures is_chart
validate_data_agent i =
    failed_if (is_empty i.project) (empty_input (codes "project"))
    ++ (failed_if (is_empty i.agent_id) (empty_input (codes "agentId"))
        ++ (id_failures (invalid_resource_id i.agent_id)
            ++ (failed_if (has_no_datasource i.context.datasources) no_datasource
                ++ (failed_if (is_empty i.context.system_instruction) no_system_instruction
                    ++ (failed_if (i.publish && has_no_datasource i.context.datasources)
                          nothing_to_publish
                        ++ (example_failures 0 i.context.example_queries
                            ++ chart_failures i.context.options.chart_rendering))))))

abbrev pub uri_failures : Text → Option Text → List InputFailure
uri_failures property none = []
uri_failures property (some uri) =
    failed_if (not (starts_with (codes "gs://") uri)) (not_a_storage_uri property)

unfoldable pub secret_failures : List (Text × Text) → List InputFailure
unfolding contains
secret_failures [] = []
secret_failures (e ∷ rest) =
    failed_if (not (contains (codes "/secrets/") e.1)) (not_a_secret e.0) ++ secret_failures rest

unfoldable pub validate_agent_engine : AgentEngineInputs → List InputFailure
unfolding eq_ignore_case secret_failures starts_with
validate_agent_engine i =
    failed_if (is_empty i.project) (empty_input (codes "project"))
    ++ (failed_if (is_empty i.display_name) (empty_input (codes "displayName"))
        ++ (failed_if (eq_ignore_case i.location (codes "global")) global_location
            ++ (uri_failures (codes "pickleUri") i.pickle_uri
                ++ (uri_failures (codes "requirementsUri") i.requirements_uri
                    ++ (uri_failures (codes "dependencyFilesUri") i.dependency_files_uri
                        ++ secret_failures i.secret_env)))))

abbrev pub is_given : Option Text → Bool
is_given none = false
is_given (some s) = true

abbrev pub asserts_something : GoldenQuery → Bool
asserts_something q =
    not (is_empty q.must_reference_tables)
    || (is_given q.expect_sql_matches || (is_given q.expect_answer_contains || q.must_not_error))

abbrev pub as_bad_pattern : ℕ → Option PatternFailure → List InputFailure
as_bad_pattern i none = []
as_bad_pattern i (some f) = bad_pattern i f ∷ []

abbrev pub pattern_failures : ℕ → Option Text → List InputFailure
pattern_failures i none = []
pattern_failures i (some p) = as_bad_pattern i (validate_pattern p)

unfoldable pub query_failures : ℕ → List GoldenQuery → List InputFailure
unfolding trim validate_pattern
query_failures i [] = []
query_failures i (q ∷ rest) =
    failed_if (is_empty (trim q.question)) (no_question i)
    ++ (failed_if (not (asserts_something q)) (asserts_nothing i q.question)
        ++ (pattern_failures i q.expect_sql_matches ++ query_failures (i + 1) rest))

unfoldable pub validate_agent_eval : AgentEvalInputs → List InputFailure
unfolding query_failures
validate_agent_eval i =
    failed_if (is_empty i.agent) (empty_input (codes "agent")) ++ query_failures 0 i.golden_queries
