-- ===== src/Examples/Agents.antt =====
-- crates/gcpx-agents/src/validate.rs at concrete inputs.
use pulumi_rs_provider_gcpx.Base.{
  Option, some, ℕ, length, arith, ok, Result, ◌≡◌, ◌≢◌, ◌↔◌, ◌≤◌, refl, true, false, not, ◌||◌,
  ◌&&◌, List, [], ◌∷◌, ◌++◌, none, codes, is_empty, all, byte_len, pos,
}
use pulumi_rs_provider_gcpx.Core.Sanitize.{encode_path_segment}
use pulumi_rs_provider_gcpx.Agents.Iam.{IamBinding, IamPolicyMeta, merge_bindings, live_bindings}
use pulumi_rs_provider_gcpx.Agents.Iam.Merged.{grants, grants-merge_bindings}
use pulumi_rs_provider_gcpx.Agents.Checks.{
  invalid_resource_id, max_id_len, validate_pattern, walk, walk_char,
}
use pulumi_rs_provider_gcpx.Agents.Checks.Ids.{encode_path_segment-invalid_resource_id}
use pulumi_rs_provider_gcpx.Agents.Checks.Patterns.{validate_pattern-Pattern}
use pulumi_rs_provider_gcpx.Agents.Checks.Grammar.{Pattern}
use pulumi_rs_provider_gcpx.Agents.Chat.{
  FrameParser, ChatError, new_parser, push_chunk, push_bytes, push_byte, accept_byte, close_value,
  max_frame_bytes,
}
use pulumi_rs_provider_gcpx.Agents.Chat.Chunks.{both_results, push_chunk-append}
use pulumi_rs_provider_gcpx.Agents.Chat.Bounds.{Inv, push_chunk-Inv}
use pulumi_rs_provider_gcpx.Agents.Inputs.{AgentEvalInputs, validate_agent_eval}
use pulumi_rs_provider_gcpx.Agents.Inputs.Evaluated.{good_query, is_empty-validate_agent_eval}

abbrev live_policy : IamPolicyMeta
live_policy = record {
  etag = codes "e";
  version = pos 1;
  bindings = (codes "roles/viewer", codes "user:a" ∷ []) ∷ [];
}

abbrev declared_bindings : List IamBinding
declared_bindings =
    record { role = codes "roles/viewer"; members = codes "user:a" ∷ codes "user:b" ∷ [] } ∷ []

grants-merge_bindings_example :
    grants (codes "roles/viewer") (codes "user:b") (merge_bindings live_policy declared_bindings)
    ≡ (grants (codes "roles/viewer") (codes "user:b") (live_bindings live_policy)
        || grants (codes "roles/viewer") (codes "user:b") declared_bindings)
grants-merge_bindings_example =
    grants-merge_bindings (codes "roles/viewer") (codes "user:b") live_policy declared_bindings

sales_id : invalid_resource_id (codes "sales-1") ≡ none
unfolding invalid_resource_id byte_len
sales_id = refl

encode_path_segment-invalid_resource_id_example :
    (encode_path_segment (codes "sales-1") ≡ codes "sales-1")
    × (byte_len (codes "sales-1") ≤ max_id_len)
encode_path_segment-invalid_resource_id_example =
    encode_path_segment-invalid_resource_id (codes "sales-1") sales_id

group_passes : validate_pattern (codes "(a[(]b)") ≡ none
unfolding validate_pattern walk walk_char
group_passes = refl

escape_passes : validate_pattern (codes "\\(") ≡ none
unfolding validate_pattern walk walk_char
escape_passes = refl

validate_pattern-Pattern_example :
    (validate_pattern (codes "(a[(]b)\\(") ≡ none)
    ↔ ((codes "(a[(]b)\\(" ≢ []) × Pattern (codes "(a[(]b)\\("))
validate_pattern-Pattern_example = validate_pattern-Pattern (codes "(a[(]b)\\(")

abbrev one_query : AgentEvalInputs
one_query = record {
  project = codes "p";
  location = codes "global";
  agent = codes "a";
  golden_queries =
      record {
        question = codes "how many?";
        must_reference_tables = [];
        expect_sql_matches = some (codes "(count");
        expect_answer_contains = none;
        must_not_error = false;
      }
      ∷ [];
  fail_on_regression = true;
  max_concurrency = 4;
}

is_empty-validate_agent_eval_example :
    is_empty (validate_agent_eval one_query)
    ≡ (not (is_empty one_query.agent) && all good_query one_query.golden_queries)
is_empty-validate_agent_eval_example = is_empty-validate_agent_eval one_query

-- A reader that takes the length of a value.
abbrev measured : List ℕ → Option ℕ
measured bytes = some (length bytes)

new_parser-Inv : Inv new_parser
new_parser-Inv = ((λ h. omega arith), omega arith, λ h. refl)

push_chunk-Inv_example : Inv (push_chunk measured new_parser (codes "[{\"a\":1},{")).0
push_chunk-Inv_example = push_chunk-Inv measured new_parser (codes "[{\"a\":1},{") new_parser-Inv

abbrev first_part : FrameParser × Result (List ℕ) ChatError
first_part = push_chunk measured new_parser (codes "[{\"}")

abbrev second_part : FrameParser × Result (List ℕ) ChatError
second_part = push_chunk measured first_part.0 (codes "\":1},{}]")

push_chunk-append_example :
    ((push_chunk measured new_parser (codes "[{\"}" ++ codes "\":1},{}]")).0 ≡ second_part.0)
    × ((push_chunk measured new_parser (codes "[{\"}" ++ codes "\":1},{}]")).1
        ≡ both_results measured first_part.1 second_part.1)
push_chunk-append_example =
    push_chunk-append measured new_parser (codes "[{\"}") (codes "\":1},{}]")

-- Two values, the first of them in two chunks.
two_values : both_results measured first_part.1 second_part.1 ≡ ok (7 ∷ 2 ∷ [])
unfolding push_chunk push_bytes push_byte accept_byte close_value max_frame_bytes
two_values = refl
