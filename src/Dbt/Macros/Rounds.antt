-- ===== src/Dbt/Macros/Rounds.antt =====
-- The rounds of an expansion, as relations on texts (crates/gcpx-dbt/src/macros.rs).
use pulumi_rs_provider_gcpx.Base.{
  ℕ, zero, suc, ◌≤◌, ◌<◌, ◌≡◌, ◌≢◌, Bool, true, false, ◌||◌, List, [], ◌∷◌, ◌++◌, Option, none,
  some, Text, length, byte_len, map_get, Result, ok, err,
}
use pulumi_rs_provider_gcpx.Dbt.Templates.{DbtSegment, call, scan}
use pulumi_rs_provider_gcpx.Dbt.Macros.{
  MacroDef, MacroError, unknown, arg_count, recursion_limit, input_too_large, max_input_size,
  max_iterations, rewritten, parse_call_args, substitute_args,
}

abbrev pub is_known : Option MacroDef → Bool
is_known none = false
is_known (some d) = true

module _ (macros : List (Text × MacroDef)) where
  -- A call of a declared macro.
  abbrev pub is_declared_call : DbtSegment → Bool
  is_declared_call (call name raw_args) = is_known (map_get name macros)
  is_declared_call _ = false

  abbrev pub has_declared_call : List DbtSegment → Bool
  has_declared_call [] = false
  has_declared_call (s ∷ rest) = is_declared_call s || has_declared_call rest

  -- `t` stands for the segment `s`: any but a declared call is written out again, and a declared
  -- call is the macro's body with the arguments put in, as many as the macro is declared with.
  pub data Stands : DbtSegment → Text → Type 0 where
    kept : (s : DbtSegment) → is_declared_call s ≡ false → Stands s (rewritten s)
    replaced :
        (name raw_args : Text) (d : MacroDef) (values : List Text)
        → map_get name macros ≡ some d
        → parse_call_args raw_args ≡ some values
        → length values ≡ length d.args
        → Stands (call name raw_args) (substitute_args d.sql d.args values)

  -- The text of a list of segments, one behind the other.
  pub data Written : List DbtSegment → Text → Type 0 where
    nothing : Written [] []
    behind :
        {s : DbtSegment} {rest : List DbtSegment} {t later : Text}
        → Stands s t
        → Written rest later
        → Written (s ∷ rest) (t ++ later)

  -- A round takes `s` to `t`; `declared` says whether there was a declared call.
  abbrev pub IsRound : Bool → Text → Text → Type 0
  IsRound declared s t =
      (segments : List DbtSegment) × (scan s ≡ some segments)
      × (has_declared_call segments ≡ declared)
      × Written segments t

  -- So many rounds that each replaced a declared call, none of them to a text above the limit.
  pub data Reaches : ℕ → Text → Text → Type 0 where
    here : (s : Text) → Reaches zero s s
    round :
        {n : ℕ} {s t u : Text}
        → IsRound true s t
        → byte_len t ≤ max_input_size
        → Reaches n t u
        → Reaches (suc n) s u

  -- A segment that calls a declared macro with another number of arguments.
  pub data BadCall : List DbtSegment → Text → ℕ → ℕ → Type 0 where
    bad :
        {rest : List DbtSegment} (name raw_args : Text) (d : MacroDef) (values : List Text)
        → map_get name macros ≡ some d
        → parse_call_args raw_args ≡ some values
        → length values ≢ length d.args
        → BadCall (call name raw_args ∷ rest) name (length d.args) (length values)
    later :
        {rest : List DbtSegment} {name : Text} {expected got : ℕ} (s : DbtSegment)
        → BadCall rest name expected got
        → BadCall (s ∷ rest) name expected got

  -- What a text reached after at most `left` rounds from `s` may give as the result.
  abbrev pub IsFailure : ℕ → Text → MacroError → Type 0
  IsFailure left s (unknown name) = ⊥
  IsFailure left s (arg_count name expected got) =
      (n : ℕ) × (t : Text) × (n ≤ left)
      × Reaches n s t
      × ((segments : List DbtSegment) × (scan t ≡ some segments)
          × BadCall segments name expected got)
  IsFailure left s (recursion_limit limit) =
      (limit ≡ max_iterations) × ((t : Text) × Reaches (suc left) s t)
  IsFailure left s (input_too_large size limit) =
      (limit ≡ max_input_size)
      × (limit < size)
      × ((n : ℕ) × (t u : Text) × (n ≤ left)
          × Reaches n s t
          × IsRound true t u
          × (byte_len u ≡ size))

  abbrev pub IsSettled : ℕ → Text → Text → Type 0
  IsSettled left s out = (n : ℕ) × (t : Text) × (n ≤ left) × Reaches n s t × IsRound false t out

  abbrev pub IsOutcome : ℕ → Text → Option (Result Text MacroError) → Type 0
  IsOutcome left s none = ⊥
  IsOutcome left s (some (ok out)) = IsSettled left s out
  IsOutcome left s (some (err e)) = IsFailure left s e
