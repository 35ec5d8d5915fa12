-- ===== src/Bq/Schema/Diff.antt =====
-- crates/gcpx-bq/src/schema/diff.rs: the DDL operations that lead from one schema to another,
-- and the temporary renames for cycles.
pub mod Quiet
pub mod Cycles
pub mod Reference
use pulumi_rs_provider_gcpx.Base.{
  ℕ, zero, suc, ◌+◌, Bool, true, false, not, ◌&&◌, ◌||◌, List, [], ◌∷◌, ◌++◌, map, any, find?, set,
  get_or, length, replicate, is_empty, ltb, if◌then◌else◌, Option, none, some, Text, codes, text_eq,
  eq_ignore_case, decimal,
}
use pulumi_rs_provider_gcpx.Bq.Schema.Types.{
  AlterAction, rename, insert, delete, FieldInfo, SchemaField, info, DdlOp, drop_column,
  rename_column, add_column, set_description, OwnedDdlOp, owned_rename, DiffResult,
}

-- `old_fields.iter().any(|o| o.name.eq_ignore_ascii_case(name))`.
unfoldable pub in_schema : List SchemaField → Text → Bool
in_schema old name = any (λ o. eq_ignore_case (info o).name name) old

unfoldable pub find_field : List SchemaField → Text → Option SchemaField
find_field old name = find? (λ o. eq_ignore_case (info o).name name) old

-- The four lists that the loop pushes to.
pub record Groups : Type 0 where
  pub drops : List DdlOp
  pub renames : List DdlOp
  pub adds : List DdlOp
  pub descriptions : List DdlOp

pub describe : Option SchemaField → FieldInfo → Groups → Groups
describe none f g = g
describe (some old_f) f g =
    if not (text_eq (info old_f).description f.description)
    then record g { descriptions = g.descriptions ++ set_description f.name f.description ∷ [] }
    else g

pub rename_from : List SchemaField → Option Text → FieldInfo → Groups → Groups
rename_from old none f g = g
rename_from old (some from) f g =
    if in_schema old from
    then record g { renames = g.renames ++ rename_column from f.name ∷ [] }
    else g

-- The `match f.alter` of one round.
pub push_field : List SchemaField → Option AlterAction → FieldInfo → Groups → Groups
push_field old (some delete) f g =
    if in_schema old f.name then record g { drops = g.drops ++ drop_column f.name ∷ [] } else g
push_field old (some rename) f g = rename_from old f.alter_from f g
push_field old (some insert) f g =
    if not (in_schema old f.name)
    then record g {
      adds =
          g.adds
          ++ add_column f.name f.canonical_type f.mode f.description f.default_value_expression
              f.rounding_mode
            ∷ [];
    }
    else g
push_field old none f g = describe (find_field old f.name) f g

pub push_fields : List SchemaField → List SchemaField → Groups → Groups
push_fields old [] g = g
push_fields old (f ∷ fs) g = push_fields old fs (push_field old (info f).alter (info f) g)

abbrev pub rename_pair : DdlOp → Option (Text × Text)
rename_pair (rename_column old_name new_name) = some (old_name, new_name)
rename_pair (drop_column n) = none
rename_pair (add_column n t m d e r) = none
rename_pair (set_description n d) = none

unfoldable pub rename_pairs : List DdlOp → List (Text × Text)
rename_pairs [] = []
rename_pairs (op ∷ ops) = elim (rename_pair op) [
  | none ↦ rename_pairs ops
  | some p ↦ p ∷ rename_pairs ops
]

-- The first pair, from index `i` on, that is not visited and whose old name is `target`.
pub find_next : List (Text × Text) → List Bool → Text → ℕ → Option ℕ
find_next [] visited target i = none
find_next ((old, new) ∷ pairs) visited target i =
    let later = find_next pairs visited target (i + 1) in
    if not (get_or visited i true) && eq_ignore_case old target then some i else later

abbrev pub pair_at : List (Text × Text) → ℕ → Text × Text
pair_at pairs i = get_or pairs i ([], [])

-- The chain from a start: what is visited, how long the chain is, and where it leads. The fuel
-- bounds its rounds; `none` means that it ran out.
pub walk : ℕ → List (Text × Text) → List Bool → ℕ → Text → Option (List Bool × ℕ × Text)
walk zero pairs visited chain target = none
walk (suc fuel) pairs visited chain target = elim (find_next pairs visited target 0) [
  | none ↦ some (visited, chain, target)
  | some i ↦ walk fuel pairs (set visited i true) (chain + 1) (pair_at pairs i).1
]

abbrev pub tmp_name : ℕ → Text
tmp_name k = codes "__gcpx_tmp_" ++ decimal k

-- What a chain from the pair `start` adds: the two renames that break a cycle, or nothing.
pub break_chain : Text × Text → ℕ → Text → ℕ → List OwnedDdlOp
break_chain (old, new) chain target tmp =
    if eq_ignore_case target old && ltb 1 chain
    then owned_rename old (tmp_name tmp) ∷ owned_rename (tmp_name tmp) new ∷ []
    else []

pub prepend : List OwnedDdlOp → Option (List OwnedDdlOp) → Option (List OwnedDdlOp)
prepend ops none = none
prepend ops (some rest) = some (ops ++ rest)

-- The loop over `start_idx`, of which `rounds` are left.
pub scan_chains : ℕ → ℕ → List (Text × Text) → List Bool → ℕ → Option (List OwnedDdlOp)
scan_chains zero start pairs visited tmp = some []
scan_chains (suc rounds) start pairs visited tmp =
    let skip = scan_chains rounds (start + 1) pairs visited tmp in
    let first = pair_at pairs start in
    if get_or visited start true
    then skip
    else elim (walk (suc (length pairs)) pairs (set visited start true) 1 first.1) [
      | none ↦ none
      | some (visited', chain, target) ↦
          let ops = break_chain first chain target tmp in
          let tmp' = if is_empty ops then tmp else tmp + 1 in
          prepend ops (scan_chains rounds (start + 1) pairs visited' tmp')
    ]

unfoldable pub break_rename_cycles : List DdlOp → Option (List OwnedDdlOp)
unfolding rename_pairs scan_chains prepend walk find_next break_chain
break_rename_cycles renames =
    let pairs = rename_pairs renames in
    scan_chains (length pairs) 0 pairs (replicate (length pairs) false) 0

abbrev pub push_ne : Text → Text → Text → List Text → List Text
push_ne old new key keys = if not (text_eq old new) then keys ++ key ∷ [] else keys

abbrev pub no_groups : Groups
no_groups = record { drops = []; renames = []; adds = []; descriptions = [] }

-- The struct that is returned, in the order: drops, renames, adds, descriptions.
abbrev pub assemble : List Text → Groups → List OwnedDdlOp → DiffResult
assemble keys g owned =
    let all_ops = g.drops ++ (g.renames ++ (g.adds ++ g.descriptions)) in
    record {
      ops = all_ops;
      owned_ops = owned;
      replace_keys = keys;
      has_schema_changes = not (is_empty all_ops) || not (is_empty owned);
    }

abbrev pub replace_keys_of : Text → Text → Text → Text → Text → Text → List Text
replace_keys_of old_project new_project old_dataset new_dataset old_table new_table =
    push_ne old_table new_table (codes "tableId") (
      push_ne old_dataset new_dataset (codes "dataset")
        (push_ne old_project new_project (codes "project") []))

pub with_owned : List Text → Groups → Option (List OwnedDdlOp) → Option DiffResult
with_owned keys g none = none
with_owned keys g (some owned) = some (assemble keys g owned)

-- `none` would be `walk` out of fuel; the child `Cycles` shows that it does not occur.
unfoldable pub compute_diff :
    Text
    → Text
    → Text
    → Text
    → Text
    → Text
    → List SchemaField
    → List SchemaField
    → Option DiffResult
compute_diff old_project new_project old_dataset new_dataset old_table new_table old new =
    let g = push_fields old new no_groups in
    with_owned (replace_keys_of old_project new_project old_dataset new_dataset old_table new_table)
      g (break_rename_cycles g.renames)
