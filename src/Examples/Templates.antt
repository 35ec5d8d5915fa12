-- ===== src/Examples/Templates.antt =====
-- crates/gcpx-dbt/src/scanner.rs at concrete inputs.
use pulumi_rs_provider_gcpx.Base.{
  ◌≡◌, refl, List, some, codes, strip_prefix, trim, trim_start_with, trim_end_with, is_whitespace,
}
use pulumi_rs_provider_gcpx.Dbt.Scanner.{Span, scan_spans}
use pulumi_rs_provider_gcpx.Dbt.Templates.{
  sql, ref, source, classify_template, as_config, as_ref, as_source, as_call, arguments_of,
  strip_prefix_ci, strip_last, extract_single_quoted, extract_two_quoted, split_at_char,
}
use pulumi_rs_provider_gcpx.Dbt.Scanner.Complete.{text_of_all, text_of_all-scan_spans}

reads_ref : classify_template (codes "REF( 'a' )") ≡ ref (codes "a")
unfolding classify_template as_config as_ref arguments_of strip_prefix_ci strip_last
    extract_single_quoted trim trim_start_with trim_end_with is_whitespace strip_prefix
reads_ref = refl

reads_source : classify_template (codes "source('a', 'b')") ≡ source (codes "a") (codes "b")
unfolding classify_template as_config as_ref as_source arguments_of strip_prefix_ci strip_last
    extract_single_quoted extract_two_quoted split_at_char trim trim_start_with trim_end_with
    is_whitespace strip_prefix
reads_source = refl

-- An expression that is no call loses its braces.
reads_word : classify_template (codes "x") ≡ sql (codes "x")
unfolding classify_template as_config as_ref as_source as_call arguments_of strip_prefix_ci
    split_at_char
reads_word = refl

text_of_all-scan_spans_example :
    (xs : List Span) × (scan_spans (codes "a {{ b }} { c") ≡ some xs)
    × (text_of_all xs ≡ codes "a {{ b }} { c")
text_of_all-scan_spans_example = text_of_all-scan_spans (codes "a {{ b }} { c")
