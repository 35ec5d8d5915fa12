-- ===== src/Dbt/Macros/Arguments.antt =====
-- The arguments of a macro call are read to the end (crates/gcpx-dbt/src/macros.rs).
use pulumi_rs_provider_gcpx.Base.{
  ℕ, zero, suc, ◌≤◌, ◌<◌, ◌≡◌, ◌==◌, refl, ap, List, [], ◌∷◌, Option, none, some, Text, length,
  is_empty, strip_prefix, split_once, trim, trim_le, trim_start_with, trim_start_with_le, arith,
  Bool-cases, inl, inr, IsCut, IsPrefix, split_once-IsCut, strip_prefix-IsPrefix, cut_shorter,
}
use pulumi_rs_provider_gcpx.Dbt.Macros.{push, one_arg, args_loop, parse_call_args}

abbrev pub IsRead : Option (List Text) → Type 0
IsRead o = (values : List Text) × (o ≡ some values)

push-IsRead : (a : Text) (o : Option (List Text)) → IsRead o → IsRead (push a o)
push-IsRead a o (values, h) = (a ∷ values, rw h refl)

module _ (later : Text → Option (List Text)) (n : ℕ)
    (reads : (t : Text) → length t < n → IsRead (later t)) where
  quoted-IsRead :
      (remaining rest : Text) (o : Option (Text × Text))
      → length rest < n
      → IsCut (39 ∷ []) rest o
      → IsRead (elim o [
        | some found ↦ push found.0 (later (trim (trim_start_with (λ c. c == b',') found.1)))
        | none ↦ some (remaining ∷ [])
      ])
  quoted-IsRead remaining rest none h k = (remaining ∷ [], refl)
  quoted-IsRead remaining rest (some found) h k =
      let behind = trim_start_with (λ c. c == b',') found.1 in
      push-IsRead found.0 (later (trim behind)) (
        reads (trim behind) (
          omega (
            arith,
            trim_le behind,
            trim_start_with_le (λ c. c == b',') found.1,
            cut_shorter (39 ∷ []) rest found k,
          )))

  bare-IsRead :
      (remaining : Text) (o : Option (Text × Text))
      → length remaining ≤ n
      → IsCut (b',' ∷ []) remaining o
      → IsRead (elim o [
        | some found ↦ push (trim found.0) (later found.1)
        | none ↦ some (trim remaining ∷ [])
      ])
  bare-IsRead remaining none h k = (trim remaining ∷ [], refl)
  bare-IsRead remaining (some found) h k =
      push-IsRead (trim found.0) (later found.1)
        (reads found.1 (omega (arith, cut_shorter (b',' ∷ []) remaining found k)))

  prefixed-IsRead :
      (remaining : Text) (o : Option Text)
      → length remaining ≤ n
      → IsPrefix (39 ∷ []) remaining o
      → IsRead (elim o [
        | some rest ↦ elim (split_once (39 ∷ []) rest) [
          | some found ↦ push found.0 (later (trim (trim_start_with (λ c. c == b',') found.1)))
          | none ↦ some (remaining ∷ [])
        ]
        | none ↦ elim (split_once (b',' ∷ []) remaining) [
          | some found ↦ push (trim found.0) (later found.1)
          | none ↦ some (trim remaining ∷ [])
        ]
      ])
  prefixed-IsRead remaining none h k =
      bare-IsRead remaining (split_once (b',' ∷ []) remaining) h
        (split_once-IsCut (b',' ∷ []) remaining)
  prefixed-IsRead remaining (some rest) h k =
      quoted-IsRead remaining rest (split_once (39 ∷ []) rest) (omega (arith, ap length k))
        (split_once-IsCut (39 ∷ []) rest)

  one_arg-IsRead : (remaining : Text) → length remaining ≤ n → IsRead (one_arg later remaining)
  unfolding one_arg
  one_arg-IsRead remaining h =
      prefixed-IsRead remaining (strip_prefix (39 ∷ []) remaining) h
        (strip_prefix-IsPrefix (39 ∷ []) remaining)

args_loop-IsRead : (fuel : ℕ) (s : Text) → length s < fuel → IsRead (args_loop fuel s)
unfolding args_loop
args_loop-IsRead zero s h = elim h [ ]
args_loop-IsRead (suc fuel) [] h = ([], refl)
args_loop-IsRead (suc fuel) (c ∷ s) h =
    one_arg-IsRead (args_loop fuel) (length (c ∷ s)) (λ t l. args_loop-IsRead fuel t (omega arith))
      (trim (c ∷ s)) (trim_le (c ∷ s))

-- Every text in the parentheses of a call is read as a list of arguments.
pub parse_call_args-IsRead : (s : Text) → IsRead (parse_call_args s)
unfolding parse_call_args
parse_call_args-IsRead s = elim (Bool-cases (is_empty (trim s))) [
  | inl e ↦ ([], rw e refl)
  | inr e ↦ rw e (from (strip_prefix (39 ∷ []) (trim s)))
]
  where
    from :
        (o : Option Text)
        → IsRead (elim o [
          | some rest ↦ args_loop (suc (length (trim s))) (trim s)
          | none ↦ some (trim s ∷ [])
        ])
    from none = (trim s ∷ [], refl)
    from (some rest) = args_loop-IsRead (suc (length (trim s))) (trim s) (omega arith)
