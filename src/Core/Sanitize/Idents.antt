-- ===== src/Core/Sanitize/Idents.antt =====
-- A quoted identifier cannot be broken out of, and names what it was made from.
use pulumi_rs_provider_gcpx.Base.{
  ℕ, ◌≡◌, refl, sym, ap, false, [], ◌∷◌, ◌++◌, append_assoc, arith, Bool-cases, inl, inr, has_char,
  Option, none, some, Text, ◌==◌, if◌then◌else◌, ◌||◌,
}
use pulumi_rs_provider_gcpx.Core.Sanitize.{replace_char, escape_bq_ident, bq_col_ref}

-- Both replacements as one pass.
escaped : Text → Text
escaped [] = []
escaped (c ∷ s) =
    (if c == 92 then 92 ∷ 92 ∷ [] else if c == b'`' then 92 ∷ b'`' ∷ [] else c ∷ []) ++ escaped s

replace_char_none : (c : ℕ) (by s : Text) → has_char c s ≡ false → replace_char c by s ≡ s
unfolding replace_char
replace_char_none c by [] h = refl
replace_char_none c by (d ∷ s) h = ground (arith, replace_char_none c by s)

replace_both :
    (s : Text) → replace_char b'`' (92 ∷ b'`' ∷ []) (replace_char 92 (92 ∷ 92 ∷ []) s) ≡ escaped s
unfolding replace_char escaped
replace_both [] = refl
replace_both (c ∷ s) = ground (arith, replace_both s)

escaped_none : (s : Text) → (has_char b'`' s || has_char 92 s) ≡ false → escaped s ≡ s
unfolding escaped
escaped_none [] h = refl
escaped_none (c ∷ s) h = ground (arith, escaped_none s)

-- The early return for a text with nothing to escape does not change the result.
escape-escaped : (s : Text) → escape_bq_ident s ≡ escaped s
unfolding escape_bq_ident
escape-escaped s = elim (Bool-cases (has_char b'`' s || has_char 92 s)) [
  | inl h ↦ rw h (replace_both s)
  | inr h ↦ rw h (sym (escaped_none s h))
]

-- A reader of a backquoted identifier, after its opening backtick: a backslash takes the next
-- character as it is, and a bare backtick closes. It returns the name and the rest.
unfoldable pub read_quoted : Text → Option (Text × Text)
read_quoted [] = none
read_quoted (c ∷ []) = if c == b'`' then some ([], []) else none
read_quoted (c ∷ d ∷ s) =
    let plain : Option (Text × Text) = elim (read_quoted (d ∷ s)) [
      | none ↦ none
      | some (n, r) ↦ some (c ∷ n, r)
    ] in
    let quoted : Option (Text × Text) = elim (read_quoted s) [
      | none ↦ none
      | some (n, r) ↦ some (d ∷ n, r)
    ] in
    if c == b'`' then some ([], d ∷ s) else if c == 92 then quoted else plain

read_quoted-plain :
    (c : ℕ) (s n r : Text)
    → (c == b'`') ≡ false
    → (c == 92) ≡ false
    → read_quoted s ≡ some (n, r)
    → read_quoted (c ∷ s) ≡ some (c ∷ n, r)
unfolding read_quoted
read_quoted-plain c [] n r p q h = cc
read_quoted-plain c (d ∷ s) n r p q h = rw (p, q, h)

read_quoted-pair :
    (d : ℕ) (s n r : Text)
    → read_quoted s ≡ some (n, r)
    → read_quoted (92 ∷ d ∷ s) ≡ some (d ∷ n, r)
unfolding read_quoted
read_quoted-pair d s n r h = rw h

read_quoted-escaped : (s rest : Text) → read_quoted (escaped s ++ b'`' ∷ rest) ≡ some (s, rest)
unfolding escaped
read_quoted-escaped [] [] = unfold read_quoted in refl
read_quoted-escaped [] (c ∷ rest) = unfold read_quoted in refl
read_quoted-escaped (c ∷ s) rest =
    let tail = escaped s ++ b'`' ∷ rest in
    let ih = read_quoted-escaped s rest in
    ground (
      arith,
      read_quoted-pair 92 tail s rest ih,
      read_quoted-pair b'`' tail s rest ih,
      read_quoted-plain c tail s rest,
    )

-- A column reference is read back as the column's name, whatever characters it holds, and the
-- reader stops right at its closing backtick: no name breaks out of the quotes.
pub read_quoted-bq_col_ref :
    (name rest : Text)
    → (quoted : Text) × (bq_col_ref name ++ rest ≡ b'`' ∷ quoted)
      × (read_quoted quoted ≡ some (name, rest))
unfolding bq_col_ref
read_quoted-bq_col_ref name rest = (
  (escaped name ++ b'`' ∷ rest),
  rw (escape-escaped name) (ap (◌∷◌ b'`') (append_assoc (escaped name) _ rest)),
  read_quoted-escaped name rest,
)
