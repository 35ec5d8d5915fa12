-- ===== src/Bq/Schema/Diff/Cycles.antt =====
-- The search for rename cycles ends, and what it adds to a swap of two columns.
use pulumi_rs_provider_gcpx.Base.{
  ℕ, zero, suc, ◌+◌, ◌≤◌, ◌<◌, ◌≡◌, ◌≢◌, refl, ◌⊎◌, Bool, true, false, not, ◌&&◌, List, [], ◌∷◌,
  arith, Bool-cases, inl, inr, set, get_or, length, replicate, if◌then◌else◌, is_empty, Option,
  Option-cases, none, some, Text, eq_ignore_case, eq_ignore_case_self,
}
use pulumi_rs_provider_gcpx.Bq.Schema.Types.{DdlOp, rename_column, OwnedDdlOp, owned_rename}
use pulumi_rs_provider_gcpx.Bq.Schema.Diff.{
  rename_pairs, find_next, pair_at, walk, break_chain, scan_chains, prepend, break_rename_cycles,
  tmp_name,
}

unvisited : List Bool → ℕ
unvisited [] = 0
unvisited (b ∷ bs) = (if b then 0 else 1) + unvisited bs

unvisited-set :
    (bs : List Bool) (i : ℕ)
    → get_or bs i true ≡ false
    → unvisited (set bs i true) + 1 ≡ unvisited bs
unfolding unvisited
unvisited-set [] i h = cc
unvisited-set (b ∷ bs) zero h = ground arith
unvisited-set (b ∷ bs) (suc i) h = omega (arith, unvisited-set bs i h)

unvisited-set_le : (bs : List Bool) (i : ℕ) → unvisited (set bs i true) ≤ unvisited bs
unfolding unvisited
unvisited-set_le [] i = omega arith
unvisited-set_le (b ∷ bs) zero = ground arith
unvisited-set_le (b ∷ bs) (suc i) = omega (arith, unvisited-set_le bs i)

unvisited-replicate : (n : ℕ) → unvisited (replicate n false) ≡ n
unfolding unvisited
unvisited-replicate zero = refl
unvisited-replicate (suc n) = omega (arith, unvisited-replicate n)

find_next_unvisited :
    (pairs : List (Text × Text)) (visited : List Bool) (target : Text) (i j : ℕ)
    → find_next pairs visited target i ≡ some j
    → get_or visited j true ≡ false
unfolding find_next
find_next_unvisited [] visited target i j h = cc
find_next_unvisited ((old, new) ∷ pairs) visited target i j h =
    elim (Bool-cases (not (get_or visited i true) && eq_ignore_case old target)) [
      | inl p ↦ ground arith
      | inr p ↦ find_next_unvisited pairs visited target (i + 1) j (ground arith)
    ]

abbrev Ends : List Bool → Option (List Bool × ℕ × Text) → Type 0
Ends visited o =
    (v : List Bool) × (chain : ℕ) × (target : Text) × (o ≡ some (v, chain, target))
    × (unvisited v ≤ unvisited visited)

walk_total :
    (fuel : ℕ) (pairs : List (Text × Text)) (visited : List Bool) (chain : ℕ) (target : Text)
    → unvisited visited < fuel
    → Ends visited (walk fuel pairs visited chain target)
unfolding walk
walk_total zero pairs visited chain target h = absurd (omega arith)
walk_total (suc f) pairs visited chain target h =
    elim (Option-cases (find_next pairs visited target 0)) [
      | inl e ↦ rw (e, walk) (visited, chain, target, refl, omega arith)
      | inr (i, e) ↦
          let fewer = unvisited-set visited i (find_next_unvisited pairs visited target 0 i e) in
          let (v, c, t, p, l) =
            walk_total f pairs (set visited i true) (chain + 1) (pair_at pairs i).1 (omega arith) in
          rw (e, walk) (v, c, t, p, omega arith)
    ]

prepend-ne-none :
    (ops : List OwnedDdlOp) (rest : Option (List OwnedDdlOp))
    → rest ≢ none
    → prepend ops rest ≢ none
unfolding prepend
prepend-ne-none ops none h = h
prepend-ne-none ops (some rest) h = λ e. cc

scan_chains-ne-none :
    (rounds start : ℕ) (pairs : List (Text × Text)) (visited : List Bool) (tmp : ℕ)
    → unvisited visited ≤ length pairs
    → scan_chains rounds start pairs visited tmp ≢ none
unfolding scan_chains
scan_chains-ne-none zero start pairs visited tmp h = λ e. cc
scan_chains-ne-none (suc r) start pairs visited tmp h =
    let first = pair_at pairs start in
    let (v, c, t, p, l) =
      walk_total (suc (length pairs)) pairs (set visited start true) 1 first.1
        (omega (arith, unvisited-set_le visited start)) in
    let ops = break_chain first c t tmp in
    elim (Bool-cases (get_or visited start true)) [
      | inl b ↦ rw b (scan_chains-ne-none r (start + 1) pairs visited tmp h)
      | inr b ↦
          rw (b, p)
            (prepend-ne-none ops _ (
              scan_chains-ne-none r (start + 1) pairs v (if is_empty ops then tmp else tmp + 1)
                (omega (arith, unvisited-set_le visited start))))
    ]

-- The search for rename cycles ends on every list of operations, within its fuel.
pub break_rename_cycles-ne-none : (renames : List DdlOp) → break_rename_cycles renames ≢ none
break_rename_cycles-ne-none renames =
    let pairs = rename_pairs renames in
    unfold break_rename_cycles in
    scan_chains-ne-none (length pairs) 0 pairs (replicate (length pairs) false) 0
      (omega (arith, unvisited-replicate (length pairs)))

break_swap :
    (a b : Text)
    → break_rename_cycles (rename_column a b ∷ rename_column b a ∷ [])
      ≡ some (owned_rename a (tmp_name 0) ∷ owned_rename (tmp_name 0) b ∷ [])
unfolding break_rename_cycles
break_swap a b = ground (arith, eq_ignore_case_self b, eq_ignore_case_self a)

-- The renames in the order in which their statements are run: those that break cycles first.
abbrev pub in_order : Option (List OwnedDdlOp) → List (Text × Text) → List (Text × Text)
in_order none pairs = pairs
in_order (some []) pairs = pairs
in_order (some (owned_rename old new ∷ ops)) pairs = (old, new) ∷ in_order (some ops) pairs

-- Running renames on a table one after the other, with `step` for one of them on a table of type
-- `T`; `none` is a refused statement.
abbrev pub run_renames :
    {T : Type 0} → (Text → Text → T → Option T) → List (Text × Text) → T → Option T
run_renames step [] t = some t
run_renames step ((old, new) ∷ rest) t = elim (step old new t) [
  | none ↦ none
  | some t' ↦ run_renames step rest t'
]

module _ {T : Type 0} (step : Text → Text → T → Option T) (has : T → Text → Bool)
    (taken : (old new : Text) (t : T) → has t new ≡ true → step old new t ≡ none)
    (kept : (old new name : Text) (t t' : T)
      → step old new t ≡ some t'
      → eq_ignore_case old name ≡ false
      → has t name ≡ true
      → has t' name ≡ true) where
  -- On tables where a rename to a column that is there is refused, and a rename keeps every other
  -- column: a swap of two columns that are named apart in more than case is never carried out. Of
  -- the renames that break its cycle, the second goes to the name of the other column, which is
  -- still there.
  pub swap_refused :
      (a b : Text) (t : T)
      → eq_ignore_case a b ≡ false
      → has t b ≡ true
      → run_renames step
          (in_order
            (break_rename_cycles (rename_column a b ∷ rename_column b a ∷ []))
            (rename_pairs (rename_column a b ∷ rename_column b a ∷ [])))
          t
        ≡ none
  unfolding rename_pairs
  swap_refused a b t h there = rw (break_swap a b) (first (Option-cases (step a (tmp_name 0) t)))
    where
      first :
          (step a (tmp_name 0) t ≡ none) ⊎ ((t' : T) × (step a (tmp_name 0) t ≡ some t'))
          → run_renames step ((a, tmp_name 0) ∷ (tmp_name 0, b) ∷ (a, b) ∷ (b, a) ∷ []) t ≡ none
      first (inl e) = rw (e, run_renames)
      first (inr (t', e)) =
          rw (e, run_renames)
            (rw (taken (tmp_name 0) b t' (kept a (tmp_name 0) b t t' e h there), run_renames))
