-- ===== src/Dbt/Model/Rules.antt =====
-- When a configuration follows the rules (crates/gcpx-dbt/src/validate.rs).
use pulumi_rs_provider_gcpx.Base.{
  ℕ, ◌≡◌, ◌==◌, refl, Bool, true, not, ◌||◌, ◌&&◌, List, [], ◌∷◌, Option, none, some, Text, codes,
  length, is_empty, is_empty-append, text_eq, leb, ltb, arith,
}
use pulumi_rs_provider_gcpx.Dbt.Options.{is_none}
use pulumi_rs_provider_gcpx.Dbt.Resolver.{is_some}
use pulumi_rs_provider_gcpx.Dbt.Ddl.{PartitionConfig}
use pulumi_rs_provider_gcpx.Dbt.Config.{ModelConfig}
use pulumi_rs_provider_gcpx.Dbt.Validate.Accepted.{is_empty-fail_if}
use pulumi_rs_provider_gcpx.Dbt.Model.{
  is_listed, is_true, strategy_failure, partition_failure, cluster_failure, materializations,
  rule_failures, config_failures,
}

abbrev pub where_given {ℓ} : {A : Type ℓ} → (A → Bool) → Option A → Bool
where_given f none = true
where_given f (some a) = f a

abbrev pub strategies : List Text
strategies = codes "merge" ∷ codes "delete+insert" ∷ codes "append" ∷ []

-- The rules for a configuration with a materialization.
abbrev pub follows_rules : ModelConfig → Bool
follows_rules c =
    let mat = c.materialization in
    is_listed mat materializations
    && ((not (text_eq mat (codes "incremental"))
          || (is_some c.unique_key || is_some c.unique_key_list))
        && (where_given (λ s. is_listed s strategies) c.incremental_strategy
            && (where_given (λ p. not (is_empty p.field)) c.partition_by
                && (where_given (λ cols. leb (length cols) 4) c.cluster_by
                    && ((not (is_true c.require_partition_filter) || is_some c.partition_by)
                        && ((is_none c.partition_expiration_days || is_some c.partition_by)
                            && ((not (is_true c.enable_refresh)
                                  || text_eq mat (codes "materialized_view"))
                                && (is_none c.refresh_interval_minutes
                                    || is_true c.enable_refresh))))))))

pub involutive : (a : Bool) → not (not a) ≡ a
involutive a = ground arith

pub implied : (a b : Bool) → not (a && not b) ≡ (not a || b)
implied a b = ground arith

pub implied_one : (a b c : Bool) → not (a && (not b && not c)) ≡ (not a || (b || c))
implied_one a b c = ground arith

is_empty-strategy_failure :
    (o : Option Text) → is_empty (strategy_failure o) ≡ where_given (λ s. is_listed s strategies) o
is_empty-strategy_failure none = refl
is_empty-strategy_failure (some s) = ground arith

is_empty-partition_failure :
    (o : Option PartitionConfig)
    → is_empty (partition_failure o) ≡ where_given (λ p. not (is_empty p.field)) o
is_empty-partition_failure none = refl
is_empty-partition_failure (some p) = ground arith

is_empty-cluster_failure :
    (o : Option (List Text))
    → is_empty (cluster_failure o) ≡ where_given (λ cols. leb (length cols) 4) o
is_empty-cluster_failure none = refl
is_empty-cluster_failure (some cols) = ground arith

is_none-is_some {ℓ} : {A : Type ℓ} (o : Option A) → is_none o ≡ not (is_some o)
is_none-is_some none = refl
is_none-is_some (some a) = refl

is_empty-rule_failures : (c : ModelConfig) → is_empty (rule_failures c) ≡ follows_rules c
unfolding rule_failures
is_empty-rule_failures c = simp (
  rule_failures, is_empty-append, is_empty-fail_if, is_empty-strategy_failure,
  is_empty-partition_failure, is_empty-cluster_failure, is_none-is_some, involutive, implied,
  implied_one,
)

-- No config block, or one with a materialization that follows the rules.
abbrev pub valid_config : ℕ → Bool → ModelConfig → Bool
valid_config count has_key c = count == 0 || (count == 1 && (has_key && follows_rules c))

pub is_empty-config_failures :
    (count : ℕ) (has_key : Bool) (c : ModelConfig)
    → (not (ltb 1 count) && is_empty (config_failures count has_key c))
      ≡ valid_config count has_key c
unfolding config_failures
is_empty-config_failures count has_key c = ground (arith, is_empty-rule_failures c)
