-- ===== src/Core/Sanitize.antt =====
-- crates/gcpx-core/src/sanitize.rs: identifiers inside backticks, and URL path segments.
pub mod Idents
pub mod Segments
use pulumi_rs_provider_gcpx.Base.{
  ℕ, ◌+◌, ◌-◌, ◌/◌, ◌%◌, Bool, true, false, ◌||◌, List, [], ◌∷◌, ◌++◌, ◌==◌, leb, if◌then◌else◌,
  all, has_char, is_alphanumeric, Text, codes, ltb,
}

-- `str::replace` of a character by a text.
unfoldable pub replace_char : ℕ → Text → Text → Text
replace_char c by [] = []
replace_char c by (d ∷ s) = (if d == c then by else d ∷ []) ++ replace_char c by s

unfoldable pub escape_bq_ident : Text → Text
unfolding replace_char
escape_bq_ident s =
    if has_char b'`' s || has_char 92 s
    then replace_char b'`' (92 ∷ b'`' ∷ []) (replace_char 92 (92 ∷ 92 ∷ []) s)
    else s

unfoldable pub bq_table_ref : Text → Text → Text → Text
bq_table_ref project dataset table =
    b'`'
    ∷ (escape_bq_ident project
        ++ (b'.' ∷ (escape_bq_ident dataset ++ (b'.' ∷ (escape_bq_ident table ++ b'`' ∷ [])))))

unfoldable pub bq_col_ref : Text → Text
bq_col_ref name = b'`' ∷ (escape_bq_ident name ++ b'`' ∷ [])

-- `{:X}` of a digit below 16.
abbrev pub hex_digit : ℕ → ℕ
hex_digit d = if ltb d 10 then b'0' + d else b'A' + d - 10

unfoldable pub is_plain : ℕ → Bool
is_plain b = is_alphanumeric b || b == b'-' || b == b'_' || b == b'.'

pub is_unreserved : ℕ → Bool
is_unreserved b = is_alphanumeric b || b == b'-' || b == b'_' || b == b'.' || b == b'~'

pub encode_byte : ℕ → Text
unfolding is_unreserved
encode_byte b =
    if is_unreserved b then b ∷ [] else b'%' ∷ hex_digit (b / 16) ∷ hex_digit (b % 16) ∷ []

encode_bytes : List ℕ → Text
encode_bytes [] = []
encode_bytes (b ∷ s) = encode_byte b ++ encode_bytes s

-- The argument is the bytes of the segment, `s.bytes()`; the result is ASCII.
unfoldable pub encode_path_segment : List ℕ → Text
unfolding is_plain encode_bytes encode_byte
encode_path_segment s = if all is_plain s then s else encode_bytes s
