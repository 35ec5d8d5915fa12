-- ===== src/Bq/Schema/Ddl.antt =====
-- crates/gcpx-bq/src/schema/ddl.rs: the statements that carry out a schema diff.
pub mod Among
pub mod Literals
pub mod Statements
use pulumi_rs_provider_gcpx.Base.{
  ℕ, List, [], ◌∷◌, ◌++◌, map, Option, none, some, Text, codes, is_empty, if◌then◌else◌,
}
use pulumi_rs_provider_gcpx.Core.Sanitize.{replace_char, escape_bq_ident, bq_table_ref}
use pulumi_rs_provider_gcpx.Bq.Schema.Types.{
  DdlOp, drop_column, rename_column, add_column, set_description, OwnedDdlOp, owned_rename,
}

-- `filter_map`.
unfoldable pub filter_map : {A B : Type 0} → (A → Option B) → List A → List B
filter_map f [] = []
filter_map f (a ∷ rest) =
    let later = filter_map f rest in elim (f a) [ none ↦ later | some b ↦ b ∷ later ]

-- Texts with a comma between them.
unfoldable pub comma_joined : List Text → Text
comma_joined [] = []
comma_joined (a ∷ []) = a
comma_joined (a ∷ b ∷ rest) = a ++ (b',' ∷ comma_joined (b ∷ rest))

-- `description.replace('\'', "\\'")`.
unfoldable pub escape_description : Text → Text
unfolding replace_char
escape_description d = replace_char 39 (92 ∷ 39 ∷ []) d

abbrev pub alter_table : Text → Text
alter_table table_ref = codes "ALTER TABLE " ++ table_ref

abbrev pub dropped_name : DdlOp → Option Text
dropped_name (drop_column n) = some n
dropped_name (rename_column o n) = none
dropped_name (add_column n t m d e r) = none
dropped_name (set_description n d) = none

unfoldable pub drop_clause : Text → Text
drop_clause name = codes " DROP COLUMN IF EXISTS `" ++ (escape_bq_ident name ++ codes "`")

-- The names as the caller gives them: only the temporary renames are escaped.
abbrev pub rename_text : Text → Text → Text → Text
rename_text table_ref old new =
    alter_table table_ref
    ++ (codes " RENAME COLUMN `" ++ (old ++ (codes "` TO `" ++ (new ++ codes "`"))))

unfoldable pub owned_statement : Text → OwnedDdlOp → Text
owned_statement table_ref (owned_rename o n) =
    rename_text table_ref (escape_bq_ident o) (escape_bq_ident n)

abbrev pub rename_statement : Text → DdlOp → Option Text
rename_statement table_ref (drop_column n) = none
rename_statement table_ref (rename_column o n) = some (rename_text table_ref o n)
rename_statement table_ref (add_column n t m d e r) = none
rename_statement table_ref (set_description n d) = none

abbrev pub default_text : Option Text → Text
default_text none = []
default_text (some expr) = codes " DEFAULT " ++ expr

abbrev pub rounding_option : Option Text → List Text
rounding_option none = []
rounding_option (some mode) = (codes "rounding_mode='" ++ (mode ++ codes "'")) ∷ []

unfoldable pub add_options : Text → Option Text → List Text
add_options description rounding =
    let rest = rounding_option rounding in
    if is_empty description
    then rest
    else (codes "description='" ++ (escape_description description ++ codes "'")) ∷ rest

abbrev pub options_text : List Text → Text
options_text opts =
    if is_empty opts then [] else codes " OPTIONS(" ++ (comma_joined opts ++ codes ")")

-- The mode of an added column is not written.
abbrev pub add_clause : DdlOp → Option Text
add_clause (drop_column n) = none
add_clause (rename_column o n) = none
add_clause (add_column n t m d e r) = some (
    codes " ADD COLUMN IF NOT EXISTS `"
    ++ (escape_bq_ident n
        ++ (codes "` " ++ (t ++ (default_text e ++ options_text (add_options d r))))))
add_clause (set_description n d) = none

abbrev pub description_statement : Text → DdlOp → Option Text
description_statement table_ref (drop_column n) = none
description_statement table_ref (rename_column o n) = none
description_statement table_ref (add_column n t m d e r) = none
description_statement table_ref (set_description n d) = some (
    alter_table table_ref
    ++ (codes " ALTER COLUMN `"
        ++ (escape_bq_ident n
            ++ (codes "` SET OPTIONS(description='" ++ (escape_description d ++ codes "')")))))

-- One statement for all the clauses of a kind, and none for no clause.
unfoldable pub batched : Text → List Text → List Text
batched table_ref clauses =
    if is_empty clauses then [] else (alter_table table_ref ++ comma_joined clauses) ∷ []

unfoldable pub build_batch_ddl : Text → Text → Text → List DdlOp → List OwnedDdlOp → List Text
build_batch_ddl project dataset table_id ops owned_ops =
    let table_ref = bq_table_ref project dataset table_id in
    batched table_ref (map drop_clause (filter_map dropped_name ops))
    ++ (map (owned_statement table_ref) owned_ops
        ++ (filter_map (rename_statement table_ref) ops
            ++ (batched table_ref (filter_map add_clause ops)
                ++ filter_map (description_statement table_ref) ops)))
