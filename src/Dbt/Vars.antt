-- ===== src/Dbt/Vars.antt =====
-- crates/gcpx-dbt/src/preprocess.rs: `var('name')` calls. The map of variables is its list of
-- entries. The loop of `expand_vars` runs on fuel, and `none` says that it ran out.
pub mod Known
use pulumi_rs_provider_gcpx.Base.{
  ℕ, zero, suc, Bool, true, false, not, List, [], ◌∷◌, ◌++◌, if◌then◌else◌, Option, none, some,
  Text, codes, length, contains, strip_prefix, split_once, trim_start, map, joined_by, text_eq,
  Result, ok, err,
}
use pulumi_rs_provider_gcpx.Dbt.Preprocess.{PreprocessError, unknown_var}

-- `BTreeMap::get`.
unfoldable pub get_var : Text → List (Text × Text) → Option Text
get_var k [] = none
get_var k ((j, v) ∷ rest) = let later = get_var k rest in if text_eq j k then some v else later

-- The text before the call, the name, and the text behind the call.
pub record VarCall : Type 0 where
  pub before : Text
  pub name : Text
  pub after : Text

abbrev pub quoted_at : ℕ → Option Text → Option (ℕ × Text)
quoted_at quote none = none
quoted_at quote (some rest) = some (quote, rest)

-- The quote that opens the name, and the text behind it.
unfoldable pub opening_quote : Text → Option (ℕ × Text)
unfolding strip_prefix
opening_quote s = elim (strip_prefix (39 ∷ []) s) [
  | some rest ↦ some (39, rest)
  | none ↦ quoted_at 34 (strip_prefix (34 ∷ []) s)
]

-- The name up to the closing quote, and the text behind the closing parenthesis.
unfoldable pub closed_call : ℕ → Text → Option (Text × Text)
unfolding split_once trim_start strip_prefix
closed_call quote rest = elim (split_once (quote ∷ []) rest) [
  | none ↦ none
  | some found ↦ elim (strip_prefix (b')' ∷ []) (trim_start found.1)) [
    | none ↦ none
    | some after ↦ some (found.0, after)
  ]
]

-- The name and the text behind the call, where `var(` stands in front of `s`.
unfoldable pub call_at : Text → Option (Text × Text)
unfolding opening_quote closed_call
call_at s = elim (opening_quote s) [ none ↦ none | some q ↦ closed_call q.0 q.1 ]

-- The call that the search behind `front` found.
abbrev pub behind : Text → Option VarCall → Option VarCall
behind front none = none
behind front (some c) = some (record c { before = front ++ c.before })

-- Each round takes four characters, so the length of the text is fuel enough: `none` says that there
-- is no call.
unfoldable pub var_loop : ℕ → Text → Option VarCall
unfolding split_once call_at
var_loop zero s = none
var_loop (suc fuel) s = elim (split_once (codes "var(") s) [
  | none ↦ none
  | some found ↦
      (let later = behind (found.0 ++ codes "var(") (var_loop fuel found.1) in
        elim (call_at found.1) [
          | none ↦ later
          | some p ↦ some (record { before = found.0; name = p.0; after = p.1 })
        ])
]

unfoldable pub find_var_call : Text → Option VarCall
unfolding var_loop
find_var_call s = var_loop (length s) s

abbrev pub available : List (Text × Text) → Text
available vars = joined_by (codes ", ") (map (λ e. e.0) vars)

-- The value of a call and then the rest, or the error.
abbrev pub substituted :
    Text
    → Option Text
    → Text
    → Text
    → Option (Result Text PreprocessError)
    → Option (Result Text PreprocessError)
substituted before none name names later = some (err (unknown_var name names))
substituted before (some value) name names none = none
substituted before (some value) name names (some (err e)) = some (err e)
substituted before (some value) name names (some (ok t)) = some (ok (before ++ (value ++ t)))

unfoldable pub expand_loop : ℕ → List (Text × Text) → Text → Option (Result Text PreprocessError)
unfolding find_var_call get_var joined_by
expand_loop zero vars remaining = none
expand_loop (suc fuel) vars remaining = elim (find_var_call remaining) [
  | none ↦ some (ok remaining)
  | some c ↦
      substituted c.before (get_var c.name vars) c.name (available vars)
        (expand_loop fuel vars c.after)
]

unfoldable pub expand_vars : Text → List (Text × Text) → Option (Result Text PreprocessError)
unfolding expand_loop contains
expand_vars sql vars =
    if not (contains (codes "var(") sql)
    then some (ok sql)
    else expand_loop (suc (length sql)) vars sql
