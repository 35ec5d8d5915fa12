-- ===== src/Dbt/Options/Clause.antt =====
-- The OPTIONS clause and the literals in it (crates/gcpx-dbt/src/options.rs).
use pulumi_rs_provider_gcpx.Base.{
  is_empty-append, ℕ, ◌≡◌, ◌==◌, ◌↔◌, refl, sym, ◌∙◌, true, false, List, [], ◌∷◌, ◌++◌, Option,
  none, some, Text, is_empty, if◌then◌else◌, arith, Bool-cases, inl, inr,
}
use pulumi_rs_provider_gcpx.Core.Sanitize.{replace_char}
use pulumi_rs_provider_gcpx.Dbt.Options.{
  TableOptions, is_none, has_no_options, escape_ddl_string, part, labels_part, option_parts,
  options_ddl,
}

is_empty-part {ℓ} : {A : Type ℓ} (f : A → Text) (o : Option A) → is_empty (part f o) ≡ is_none o
is_empty-part f none = refl
is_empty-part f (some a) = refl

is_empty-labels_part : (m : List (Text × Text)) → is_empty (labels_part m) ≡ is_empty m
is_empty-labels_part [] = refl
is_empty-labels_part (e ∷ m) = refl

is_empty-option_parts : (o : TableOptions) → is_empty (option_parts o) ≡ has_no_options o
unfolding option_parts has_no_options
is_empty-option_parts o =
    simp (has_no_options, is_empty-append, is_empty-part, is_empty-labels_part)

-- The clause is left out exactly where no option is given.
pub options_ddl-has_no_options :
    (o : TableOptions) → (options_ddl o ≡ []) ↔ (has_no_options o ≡ true)
unfolding options_ddl
options_ddl-has_no_options o = elim (Bool-cases (is_empty (option_parts o))) [
  | inl h ↦ rw h ((λ k. sym (is_empty-option_parts o) ∙ h), λ k. refl)
  | inr h ↦ rw h ((λ k. ground (arith, k)), λ k. ground (arith, h, k, is_empty-option_parts o))
]

abbrev pub with_char : ℕ → Option (Text × Text) → Option (Text × Text)
with_char c none = none
with_char c (some p) = some (c ∷ p.0, p.1)

-- A reader of a double-quoted literal behind its opening quote: a backslash takes the next character
-- as it is, and a bare quote closes. It returns the text and the rest.
unfoldable pub read_double : Text → Option (Text × Text)
read_double [] = none
read_double (c ∷ []) = if c == 34 then some ([], []) else none
read_double (c ∷ d ∷ s) =
    let escaped = with_char d (read_double s) in
    let plain = with_char c (read_double (d ∷ s)) in
    if c == 34 then some ([], d ∷ s) else if c == 92 then escaped else plain

read_double-quote : (s : Text) → read_double (34 ∷ s) ≡ some ([], s)
unfolding read_double
read_double-quote [] = refl
read_double-quote (d ∷ s) = refl

read_double-pair : (d : ℕ) (s : Text) → read_double (92 ∷ d ∷ s) ≡ with_char d (read_double s)
unfolding read_double
read_double-pair d s = refl

read_double-plain :
    (c : ℕ) (s : Text)
    → (c == 34) ≡ false
    → (c == 92) ≡ false
    → read_double (c ∷ s) ≡ with_char c (read_double s)
unfolding read_double
read_double-plain c [] h k = rw h refl
read_double-plain c (d ∷ s) h k = rw (h, k) refl

-- Any text is read back from its literal in the clause, backslashes and quotes included, and the
-- reader stops right at the closing quote.
pub read_double-escape_ddl_string :
    (s rest : Text) → read_double (escape_ddl_string s ++ 34 ∷ rest) ≡ some (s, rest)
unfolding escape_ddl_string replace_char
read_double-escape_ddl_string [] rest = read_double-quote rest
read_double-escape_ddl_string (c ∷ s) rest =
    let tail = escape_ddl_string s ++ 34 ∷ rest in
    let ih = read_double-escape_ddl_string s rest in
    elim (Bool-cases (c == 92)) [
      | inl h ↦ rw h (read_double-pair 92 tail ∙ rw ih (ground (arith, h)))
      | inr h ↦ elim (Bool-cases (c == 34)) [
        | inl k ↦ rw (h, k) (read_double-pair 34 tail ∙ rw ih (ground (arith, k)))
        | inr k ↦ rw (h, k) (read_double-plain c tail k h ∙ rw ih refl)
      ]
    ]
