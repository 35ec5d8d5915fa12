-- ===== src/Dbt/Preprocess.antt =====
-- crates/gcpx-dbt/src/preprocess.rs: tags, conditional blocks and raw regions. Base64 comes from a
-- library that is no part of the repository: its two functions are parameters. A loop over the
-- rest of the text runs on fuel, and `none` says that it ran out.
pub mod Tags
pub mod Regions
pub mod Raw
use pulumi_rs_provider_gcpx.Base.{
  ℕ, zero, suc, Bool, true, false, not, List, [], ◌∷◌, ◌++◌, if◌then◌else◌, Option, none, some,
  Text, codes, length, is_empty, filter, has_char, eq_ignore_case, trim, trim_start_with,
  trim_end_with, is_whitespace, ◌==◌, split_once, replace, drop, Result, ok, err,
}

pub data PreprocessError : Type 0 where
  unknown_var : Text → Text → PreprocessError
  unsupported_input : Text → PreprocessError

pub data TagKind : Type 0 where
  if_is_incremental end_if raw end_raw : TagKind

abbrev pub tag_text : TagKind → Text
tag_text if_is_incremental = codes "ifis_incremental()"
tag_text end_if = codes "endif"
tag_text raw = codes "raw"
tag_text end_raw = codes "endraw"

unfoldable pub tag_matches : Text → TagKind → Bool
unfolding trim trim_start_with trim_end_with is_whitespace eq_ignore_case
tag_matches inner kind =
    let bare = trim_end_with (λ c. c == b'-') (trim_start_with (λ c. c == b'-') (trim inner)) in
    eq_ignore_case (filter (λ c. not (is_whitespace c)) bare) (tag_text kind)

-- A cut whose text before is longer by `front`.
abbrev pub in_front : Text → Option (Text × Text) → Option (Text × Text)
in_front front none = none
in_front front (some (before, after)) = some (front ++ before, after)

-- At a tag with text `inner`, `before` in front of it and `after` behind; `later` is what the
-- search behind the tag comes to.
abbrev pub at_tag : TagKind → Text → Text → Text → Option (Text × Text) → Option (Text × Text)
at_tag kind before inner after later =
    if tag_matches inner kind
    then some (before, after)
    else in_front (before ++ (codes "{%" ++ (inner ++ codes "%}"))) later

-- The `while let` loop.
unfoldable pub tag_loop : ℕ → TagKind → Text → Option (Text × Text)
unfolding split_once tag_matches
tag_loop zero kind input = none
tag_loop (suc fuel) kind input = elim (split_once (codes "{%") input) [
  | none ↦ none
  | some opened ↦ elim (split_once (codes "%}") opened.1) [
    | none ↦ none
    | some closed ↦ at_tag kind opened.0 closed.0 closed.1 (tag_loop fuel kind closed.1)
  ]
]

unfoldable pub split_at_tag : Text → TagKind → Option (Text × Text)
unfolding tag_loop
split_at_tag input kind = tag_loop (length input) kind input

-- The loop of `handle_incremental_blocks` and of `protect_raw_regions`: what is between two tags is
-- rewritten, and a region that is not closed is left as it is.
unfoldable pub rewrite_regions : ℕ → TagKind → TagKind → (Text → Text) → Text → Option Text
unfolding split_at_tag
rewrite_regions zero open_tag close_tag f rest = none
rewrite_regions (suc fuel) open_tag close_tag f rest = elim (split_at_tag rest open_tag) [
  | none ↦ some rest
  | some opened ↦ elim (split_at_tag opened.1 close_tag) [
    | none ↦ some (opened.0 ++ drop (length opened.0) rest)
    | some closed ↦ elim (rewrite_regions fuel open_tag close_tag f closed.1) [
      | none ↦ none
      | some later ↦ some (opened.0 ++ (f closed.0 ++ later))
    ]
  ]
]

unfoldable pub handle_incremental_blocks : Text → Bool → Option Text
unfolding rewrite_regions
handle_incremental_blocks sql keep =
    rewrite_regions (suc (length sql)) if_is_incremental end_if (λ body. if keep then body else [])
      sql

abbrev pub sentinel_prefix : Text
sentinel_prefix = 0 ∷ codes "RAW:"

abbrev pub sentinel_suffix : ℕ
sentinel_suffix = 0

unfoldable pub contains_raw_tag : Text → Bool
unfolding split_at_tag
contains_raw_tag sql = elim (split_at_tag sql raw) [ none ↦ false | some p ↦ true ]

abbrev pub as_ok : Option Text → Option (Result Text PreprocessError)
as_ok none = none
as_ok (some t) = some (ok t)

-- `encode` is base64's, on the bytes of a text.
unfoldable pub protect_raw_regions : (Text → Text) → Text → Option (Result Text PreprocessError)
unfolding rewrite_regions contains_raw_tag
protect_raw_regions encode sql =
    if has_char 0 sql
    then some (err (unsupported_input (codes "SQL may not contain NUL bytes")))
    else if not (contains_raw_tag sql)
    then some (ok sql)
    else as_ok (
        rewrite_regions (suc (length sql)) raw end_raw
          (λ body. sentinel_prefix ++ (encode body ++ sentinel_suffix ∷ [])) sql)

-- The loop of `restore_raw_regions`. `decode` is base64's with its default, the empty text.
unfoldable pub restore_loop : ℕ → (Text → Text) → Text → Option Text
unfolding split_once
restore_loop zero decode rest = none
restore_loop (suc fuel) decode rest = elim (split_once sentinel_prefix rest) [
  | none ↦ some rest
  | some found ↦ elim (split_once (sentinel_suffix ∷ []) found.1) [
    | none ↦ some (found.0 ++ drop (length found.0) rest)
    | some payload ↦ elim (restore_loop fuel decode payload.1) [
      | none ↦ none
      | some later ↦ some (found.0 ++ (decode payload.0 ++ later))
    ]
  ]
]

-- The source returns early where there is no marker; the loop gives that text too.
unfoldable pub restore_raw_regions : (Text → Text) → Text → Option Text
unfolding restore_loop
restore_raw_regions decode text = restore_loop (suc (length text)) decode text

unfoldable pub is_entirely_raw : Text → Bool
unfolding split_at_tag trim
is_entirely_raw sql = elim (split_at_tag (trim sql) raw) [
  | none ↦ false
  | some opened ↦
      if not (is_empty (trim opened.0)) then false else (elim (split_at_tag opened.1 end_raw) [
        | none ↦ false
        | some closed ↦ is_empty (trim closed.1)
      ])
]

unfoldable pub replace_this : Text → Text → Text
unfolding replace
replace_this sql table_ref =
    replace (codes "{{this}}") table_ref (replace (codes "{{ this }}") table_ref sql)
