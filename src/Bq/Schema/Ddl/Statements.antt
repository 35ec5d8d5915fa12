-- ===== src/Bq/Schema/Ddl/Statements.antt =====
-- The statements that a schema diff leads to (crates/gcpx-bq/src/schema/ddl.rs).
use pulumi_rs_provider_gcpx.Base.{
  ℕ, ◌+◌, Bool, true, false, ◌||◌, List, [], ◌∷◌, ◌++◌, map, Text, Option, codes, if◌then◌else◌,
}
use pulumi_rs_provider_gcpx.Core.Sanitize.{escape_bq_ident}
use pulumi_rs_provider_gcpx.Bq.Schema.Types.{
  DdlOp, drop_column, rename_column, add_column, set_description, OwnedDdlOp,
}
use pulumi_rs_provider_gcpx.Bq.Schema.Ddl.{
  filter_map, dropped_name, drop_clause, owned_statement, rename_statement, add_clause,
  default_text, options_text, add_options, alter_table, escape_description, description_statement,
  batched,
}
use pulumi_rs_provider_gcpx.Bq.Schema.Ddl.Among.{Among, InAlter}

-- The clause for a column that is added.
abbrev pub added : Text → Text → Text → Option Text → Option Text → Text
added n t d e mode =
    (codes " ADD COLUMN IF NOT EXISTS `"
      ++ (escape_bq_ident n
          ++ (codes "` " ++ (t ++ (default_text e ++ options_text (add_options d mode))))))

-- Where the statements carry out an operation: a dropped or an added column has its clause in a
-- statement that alters the table, a renamed or described one a statement of its own.
abbrev pub IsCarried : Text → List Text → DdlOp → Type 0
IsCarried r sts (drop_column n) =
    InAlter r (codes " DROP COLUMN IF EXISTS `" ++ (escape_bq_ident n ++ codes "`")) sts
IsCarried r sts (rename_column o n) =
    Among
      (alter_table r ++ (codes " RENAME COLUMN `" ++ (o ++ (codes "` TO `" ++ (n ++ codes "`")))))
      sts
IsCarried r sts (add_column n t m d e mode) = InAlter r (added n t d e mode) sts
IsCarried r sts (set_description n d) =
    Among
      (alter_table r
        ++ (codes " ALTER COLUMN `"
            ++ (escape_bq_ident n
                ++ (codes "` SET OPTIONS(description='" ++ (escape_description d ++ codes "')")))))
      sts

abbrev pub is_drop : DdlOp → Bool
is_drop (drop_column n) = true
is_drop _ = false

abbrev pub is_add : DdlOp → Bool
is_add (add_column n t m d e mode) = true
is_add _ = false

-- Some operation is of that kind.
abbrev pub some_op : (DdlOp → Bool) → List DdlOp → Bool
some_op p [] = false
some_op p (o ∷ ops) = p o || some_op p ops

-- The operations with a statement of their own.
abbrev pub single_ops : List DdlOp → ℕ
single_ops [] = 0
single_ops (rename_column o n ∷ ops) = single_ops ops + 1
single_ops (set_description n d ∷ ops) = single_ops ops + 1
single_ops (_ ∷ ops) = single_ops ops

abbrev pub one_if : Bool → ℕ
one_if b = if b then 1 else 0

module _ (r : Text) where
  abbrev drops : List DdlOp → List Text
  drops ops = batched r (map drop_clause (filter_map dropped_name ops))

  abbrev adds : List DdlOp → List Text
  adds ops = batched r (filter_map add_clause ops)

  abbrev renames : List DdlOp → List Text
  renames ops = filter_map (rename_statement r) ops

  abbrev texts : List DdlOp → List Text
  texts ops = filter_map (description_statement r) ops

  abbrev owns : List OwnedDdlOp → List Text
  owns owned = map (owned_statement r) owned

  -- The statements, group by group.
  abbrev grouped : List DdlOp → List OwnedDdlOp → List Text
  grouped ops owned = drops ops ++ (owns owned ++ (renames ops ++ (adds ops ++ texts ops)))
