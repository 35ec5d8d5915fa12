-- ===== src/Bq/Schema/Ddl/Literals.antt =====
-- How the description's literal in a statement reads.
use pulumi_rs_provider_gcpx.Base.{
  ℕ, ◌≡◌, refl, ap, false, [], ◌∷◌, ◌++◌, arith, has_char, ◌==◌, Option, none, some, Text,
  if◌then◌else◌,
}
use pulumi_rs_provider_gcpx.Core.Sanitize.{replace_char}
use pulumi_rs_provider_gcpx.Bq.Schema.Ddl.{escape_description}

abbrev pub with_char : ℕ → Option (Text × Text) → Option (Text × Text)
with_char c none = none
with_char c (some (text, rest)) = some (c ∷ text, rest)

-- A reader of a single-quoted literal, after its opening quote: a backslash takes the next
-- character as it is, and a bare quote closes. It returns the text and the rest.
unfoldable pub read_literal : Text → Option (Text × Text)
read_literal [] = none
read_literal (c ∷ []) = if c == 39 then some ([], []) else none
read_literal (c ∷ d ∷ s) =
    let escaped = with_char d (read_literal s) in
    let plain = with_char c (read_literal (d ∷ s)) in
    if c == 39 then some ([], d ∷ s) else if c == 92 then escaped else plain

read_literal-quote : (s : Text) → read_literal (39 ∷ s) ≡ some ([], s)
unfolding read_literal
read_literal-quote [] = refl
read_literal-quote (d ∷ s) = refl

read_literal-pair : (d : ℕ) (s : Text) → read_literal (92 ∷ d ∷ s) ≡ with_char d (read_literal s)
unfolding read_literal
read_literal-pair d s = refl

read_literal-plain :
    (c : ℕ) (s : Text)
    → (c == 39) ≡ false
    → (c == 92) ≡ false
    → read_literal (c ∷ s) ≡ with_char c (read_literal s)
unfolding read_literal
read_literal-plain c [] h k = rw h refl
read_literal-plain c (d ∷ s) h k = rw (h, k) refl

-- A description without a backslash is read back from its literal, and the reader stops right at
-- the closing quote.
pub read_literal-escape_description :
    (d rest : Text)
    → has_char 92 d ≡ false
    → read_literal (escape_description d ++ 39 ∷ rest) ≡ some (d, rest)
unfolding escape_description replace_char
read_literal-escape_description [] rest h = read_literal-quote rest
read_literal-escape_description (c ∷ d) rest h =
    let tail = escape_description d ++ 39 ∷ rest in
    ground (
      arith,
      read_literal-escape_description d rest,
      read_literal-pair 39 tail,
      read_literal-plain c tail,
    )

-- A description that starts with a backslash and a single quote closes its literal there: what
-- follows in the description is read as part of the statement.
pub escape_description_breaks :
    (s rest : Text)
    → read_literal (escape_description (92 ∷ 39 ∷ s) ++ 39 ∷ rest)
      ≡ some (92 ∷ [], escape_description s ++ 39 ∷ rest)
unfolding escape_description read_literal replace_char
escape_description_breaks s rest = ap (with_char 92) (read_literal-quote _)
