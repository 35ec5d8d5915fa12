-- ===== src/Dbt/Macros/Settled.antt =====
-- What the expansion of macros comes to (crates/gcpx-dbt/src/macros.rs).
use pulumi_rs_provider_gcpx.Base.{
  ℕ, zero, suc, ◌≤◌, ◌<◌, ◌≡◌, ◌==◌, refl, ◌∙◌, true, false, List, [], ◌∷◌, ◌⊎◌, if◌then◌else◌,
  Option, none, some, Text, length, is_empty, map, byte_len, ltb, map_get, Result, ok, err, arith,
  Bool-cases, inl, inr,
}
use pulumi_rs_provider_gcpx.Dbt.Scanner.Complete.{text_of_all-scan_spans}
use pulumi_rs_provider_gcpx.Dbt.Templates.{DbtSegment, config, ref, source, call, scan, segment_of}
use pulumi_rs_provider_gcpx.Dbt.Macros.{
  MacroDef, MacroError, unknown, arg_count, recursion_limit, input_too_large, max_input_size,
  max_iterations, rewritten, Piece, applied, parse_call_args, expand_segment, and_next,
  expand_segments, expand_round, after_round, expand_iterations, expand_macros,
}
use pulumi_rs_provider_gcpx.Dbt.Macros.Arguments.{IsRead, parse_call_args-IsRead}
use pulumi_rs_provider_gcpx.Dbt.Macros.Rounds.{
  is_declared_call, has_declared_call, Stands, kept, replaced, Written, nothing, behind, IsRound,
  here, round, BadCall, bad, later, IsFailure, IsOutcome,
}

-- The scanner comes to the end of every text.
pub scan_ends : (s : Text) → (xs : List DbtSegment) × (scan s ≡ some xs)
unfolding scan
scan_ends s = let (xs, h, k) = text_of_all-scan_spans s in (map segment_of xs, rw (scan, h) refl)

module _ (macros : List (Text × MacroDef)) where
  -- The error that a list of segments gives.
  abbrev IsBad : List DbtSegment → MacroError → Type 0
  IsBad segments (unknown name) = ⊥
  IsBad segments (arg_count name expected got) = BadCall macros segments name expected got
  IsBad segments (recursion_limit n) = ⊥
  IsBad segments (input_too_large n limit) = ⊥

  abbrev IsOne : DbtSegment → List DbtSegment → Piece → Type 0
  IsOne s rest none = ⊥
  IsOne s rest (some (err e)) = IsBad (s ∷ rest) e
  IsOne s rest (some (ok p)) = Stands macros s p.0 × (is_declared_call macros s ≡ p.1)

  abbrev IsMany : List DbtSegment → Piece → Type 0
  IsMany segments none = ⊥
  IsMany segments (some (err e)) = IsBad segments e
  IsMany segments (some (ok p)) =
      Written macros segments p.0 × (has_declared_call macros segments ≡ p.1)

  applied-IsOne :
      (name raw_args : Text) (rest : List DbtSegment) (d : MacroDef) (o : Option (List Text))
      → map_get name macros ≡ some d
      → parse_call_args raw_args ≡ o
      → IsRead o
      → IsOne (call name raw_args) rest (applied name d o)
  applied-IsOne name raw_args rest d none h e (values, k) = ground (arith, k)
  applied-IsOne name raw_args rest d (some vs) h e k =
      elim (Bool-cases (length vs == length d.args)) [
        | inl q ↦ rw q (replaced name raw_args d vs h e (ground (arith, q)), rw h refl)
        | inr q ↦ rw q (bad name raw_args d vs h e (λ same. ground (arith, q, same)))
      ]

  call-IsOne :
      (name raw_args : Text) (rest : List DbtSegment) (o : Option MacroDef)
      → map_get name macros ≡ o
      → IsOne (call name raw_args) rest (elim o [
        | some d ↦ applied name d (parse_call_args raw_args)
        | none ↦ some (ok (rewritten (call name raw_args), false))
      ])
  call-IsOne name raw_args rest none h =
      let foreign : is_declared_call macros (call name raw_args) ≡ false = rw h refl in
      (kept (call name raw_args) foreign, foreign)
  call-IsOne name raw_args rest (some d) h =
      applied-IsOne name raw_args rest d (parse_call_args raw_args) h refl
        (parse_call_args-IsRead raw_args)

  segment-IsOne : (s : DbtSegment) (rest : List DbtSegment) → IsOne s rest (expand_segment macros s)
  unfolding expand_segment
  segment-IsOne (call name raw_args) rest = call-IsOne name raw_args rest (map_get name macros) refl
  segment-IsOne (DbtSegment.sql s) rest = (kept (DbtSegment.sql s) refl, refl)
  segment-IsOne (config raw_args) rest = (kept (config raw_args) refl, refl)
  segment-IsOne (ref model) rest = (kept (ref model) refl, refl)
  segment-IsOne (source s table) rest = (kept (source s table) refl, refl)

  later-IsBad :
      (s : DbtSegment) (rest : List DbtSegment) (e : MacroError) → IsBad rest e → IsBad (s ∷ rest) e
  later-IsBad s rest (unknown name) h = h
  later-IsBad s rest (arg_count name expected got) h = later s h
  later-IsBad s rest (recursion_limit n) h = h
  later-IsBad s rest (input_too_large n limit) h = h

  next-IsMany :
      (s : DbtSegment) (rest : List DbtSegment) (p q : Piece)
      → IsOne s rest p
      → IsMany rest q
      → IsMany (s ∷ rest) (and_next p q)
  next-IsMany s rest none q h k = elim h [ ]
  next-IsMany s rest (some (ok p)) none h k = elim k [ ]
  next-IsMany s rest (some (err e)) q h k = h
  next-IsMany s rest (some (ok p)) (some (err e)) h k = later-IsBad s rest e k
  next-IsMany s rest (some (ok p)) (some (ok q)) h k = (behind h.0 k.0, rw (h.1, k.1) refl)

  segments-IsMany : (xs : List DbtSegment) → IsMany xs (expand_segments macros xs)
  unfolding expand_segments
  segments-IsMany [] = (nothing, refl)
  segments-IsMany (s ∷ rest) =
      next-IsMany s rest (expand_segment macros s) (expand_segments macros rest)
        (segment-IsOne s rest) (segments-IsMany rest)

  -- What a round from `s` gives.
  abbrev IsPiece : Text → Piece → Type 0
  IsPiece s p = (segments : List DbtSegment) × (scan s ≡ some segments) × IsMany segments p

  round-IsPiece : (s : Text) → IsPiece s (expand_round macros s)
  unfolding expand_round
  round-IsPiece s = let (xs, h) = scan_ends s in (xs, h, rw (expand_round, h) (segments-IsMany xs))

  bad-IsFailure :
      (left : ℕ) (s : Text) (xs : List DbtSegment) (e : MacroError)
      → scan s ≡ some xs
      → IsBad xs e
      → IsFailure macros left s e
  bad-IsFailure left s xs (unknown name) h k = k
  bad-IsFailure left s xs (arg_count name expected got) h k =
      (0, s, omega arith, here s, (xs, h, k))
  bad-IsFailure left s xs (recursion_limit n) h k = elim k [ ]
  bad-IsFailure left s xs (input_too_large n limit) h k = elim k [ ]

  -- A result of the text that a round came to is one of the text before the round.
  module _ (left : ℕ) (s t : Text) (step : IsRound macros true s t)
      (small : byte_len t ≤ max_input_size) where
    earlier-IsFailure :
        (e : MacroError) → IsFailure macros left t e → IsFailure macros (suc left) s e
    earlier-IsFailure (unknown name) h = h
    earlier-IsFailure (arg_count name expected got) (n, u, l, r, b) =
        (suc n, u, omega (arith, l), round step small r, b)
    earlier-IsFailure (recursion_limit n) (e, (u, r)) = (e, (u, round step small r))
    earlier-IsFailure (input_too_large size limit) (e, g, (n, u, v, l, r, b, q)) =
        (e, g, (suc n, u, v, omega (arith, l), round step small r, b, q))

    earlier-IsOutcome :
        (o : Option (Result Text MacroError))
        → IsOutcome macros left t o
        → IsOutcome macros (suc left) s o
    earlier-IsOutcome none h = h
    earlier-IsOutcome (some (err e)) h = earlier-IsFailure e h
    earlier-IsOutcome (some (ok out)) (n, u, l, r, quiet) =
        (suc n, u, omega (arith, l), round step small r, quiet)

  -- What the rounds behind a first one come to.
  abbrev Continues : ℕ → Text → Text → Option (Result Text MacroError) → Type 0
  Continues zero s t o = Unit
  Continues (suc left) s t o = IsOutcome macros left t o

  continued-IsOutcome :
      (left : ℕ) (s t : Text) (o : Option (Result Text MacroError))
      → IsRound macros true s t
      → byte_len t ≤ max_input_size
      → Continues left s t o
      → IsOutcome macros left s
          (if left == 0 then some (err (recursion_limit max_iterations)) else o)
  continued-IsOutcome zero s t o step small h = (refl, (t, round step small (here t)))
  continued-IsOutcome (suc left) s t o step small h =
      let nonzero : (suc left == 0) ≡ false = ground arith in
      rw nonzero (earlier-IsOutcome left s t step small o h)

  after-IsOutcome :
      (left : ℕ) (s : Text) (p : Piece) (next : Text → Option (Result Text MacroError))
      → IsPiece s p
      → ((t : Text) → Continues left s t (next t))
      → IsOutcome macros left s (after_round left p next)
  after-IsOutcome left s none next h k = elim h.2 [ ]
  after-IsOutcome left s (some (err e)) next (xs, h, b) k = bad-IsFailure left s xs e h b
  after-IsOutcome left s (some (ok p)) next (xs, h, w) k = elim (Bool-cases p.1) [
    | inr quiet ↦ rw quiet (0, s, omega arith, here s, (xs, h, w.1 ∙ quiet, w.0))
    | inl loud ↦
        (let step : IsRound macros true s p.0 = (xs, h, w.1 ∙ loud, w.0) in
          elim (Bool-cases (ltb max_input_size (byte_len p.0))) [
            | inl large ↦
                rw (loud, large)
                  (refl, ground (arith, large), (0, s, p.0, omega arith, here s, step, refl))
            | inr small ↦
                rw (loud, small)
                  (continued-IsOutcome left s p.0 (next p.0) step (ground (arith, small)) (k p.0))
          ])
  ]

  iterations-IsOutcome :
      (left : ℕ) (s : Text) → IsOutcome macros left s (expand_iterations macros (suc left) s)
  unfolding expand_iterations
  iterations-IsOutcome zero s =
      after-IsOutcome zero s (expand_round macros s) _ (round-IsPiece s) (λ t. tt)
  iterations-IsOutcome (suc left) s =
      after-IsOutcome (suc left) s (expand_round macros s) _ (round-IsPiece s)
        (λ t. iterations-IsOutcome left t)

-- Where macros are declared, a text above the size limit is refused, and from any other text `sql`
-- the result is one of these. A text: the rounds that begin at `sql`, each replacing the declared
-- calls of a text by the macros' bodies, come in nine rounds at most to a text in which the scanner
-- finds no declared call, and the result is its segments written out. A wrong number of arguments:
-- in a text that nine rounds at most come to, the scanner finds a call of that macro with that
-- number. Too large: the next round from such a text gives one above the limit. The recursion
-- limit: ten rounds each replaced a call. It never gives `unknown`, and always a result.
pub expand_macros-IsOutcome :
    (sql : Text) (macros : List (Text × MacroDef))
    → is_empty macros ≡ false
    → ((max_input_size < byte_len sql)
        × (expand_macros sql macros ≡ some (err (input_too_large (byte_len sql) max_input_size))))
      ⊎ ((byte_len sql ≤ max_input_size) × IsOutcome macros 9 sql (expand_macros sql macros))
unfolding expand_macros
expand_macros-IsOutcome sql macros h = elim (Bool-cases (ltb max_input_size (byte_len sql))) [
  | inl large ↦ rw large (inl (ground (arith, large), refl))
  | inr small ↦ rw (small, h) (inr (ground (arith, small), iterations-IsOutcome macros 9 sql))
]

ends-IsOutcome :
    (macros : List (Text × MacroDef)) (s : Text) (o : Option (Result Text MacroError))
    → IsOutcome macros 9 s o
    → (r : Result Text MacroError) × (o ≡ some r)
ends-IsOutcome macros s none h = elim h [ ]
ends-IsOutcome macros s (some (ok t)) h = (ok t, refl)
ends-IsOutcome macros s (some (err e)) h = (err e, refl)

pub expand_macros_ends :
    (sql : Text) (macros : List (Text × MacroDef))
    → (r : Result Text MacroError) × (expand_macros sql macros ≡ some r)
unfolding expand_macros
expand_macros_ends sql [] = elim (Bool-cases (ltb max_input_size (byte_len sql))) [
  | inl large ↦ (err (input_too_large (byte_len sql) max_input_size), rw large refl)
  | inr small ↦ (ok sql, rw small refl)
]
expand_macros_ends sql (m ∷ macros) = elim (expand_macros-IsOutcome sql (m ∷ macros) refl) [
  | inl large ↦ (err (input_too_large (byte_len sql) max_input_size), large.1)
  | inr h ↦ ends-IsOutcome (m ∷ macros) sql (expand_macros sql (m ∷ macros)) h.1
]
