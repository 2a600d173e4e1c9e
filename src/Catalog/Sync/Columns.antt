-- ===== src/Catalog/Sync/Columns.antt =====
-- The columns that a configuration names.
use mathlib.Core.List.Memᴰ
use mathlib.Core.Logic.{⊎_elim}
use schema_sentry.Prelude.{
  String, List, [], ◌∷◌, ◌++◌, map, concat_map, Memᴰ, ◌≡◌, inl, inr, sym, ap, ◌∙◌, subst, arith,
  String_eq, contains, contains_iff, Bool-cases, Memᴰ-append, Memᴰ-cons,
}
use schema_sentry.Prelude.Result.{ok, returned, ok_injective}
use schema_sentry.Prelude.Text.{split_on}
use schema_sentry.Domain.Models.{DatasetRef, ColumnRef, ColumnRef_eq}
use schema_sentry.Catalog.Config.{ColumnSetConfig}
use schema_sentry.Catalog.Sync.{dataset_columns, split_dataset, column_refs}

-- ---------------------------------------------------------------- columns

abbrev pub column : DatasetRef → String → ColumnRef
column dataset name = record { dataset = dataset; name = name }

abbrev pub dataset_of_parts : List String → DatasetRef
dataset_of_parts [] = record { schema = ""; table = "" }
dataset_of_parts (schema ∷ []) = record { schema = schema; table = "" }
dataset_of_parts (schema ∷ table ∷ rest) = record { schema = schema; table = table }

-- The columns that a list of column sets names, each as `schema.table` and a column.
unfoldable pub declared_columns : List ColumnSetConfig → List ColumnRef
declared_columns sets =
    concat_map (λ s. map (column (dataset_of_parts (split_on 46 s.dataset))) s.columns) sets

dataset_columns-eq-ok :
    (dataset : DatasetRef) (names : List String) (known refs : List ColumnRef)
    → dataset_columns dataset names known ≡ ok refs
    → (refs ≡ map (column dataset) names) × ((r : ColumnRef) → Memᴰ r refs → Memᴰ r known)
unfolding dataset_columns
dataset_columns-eq-ok dataset [] known refs h =
    let none_left = ok_injective [] refs h in
    (sym none_left, λ r m. absurd (Memᴰ.not-nil (subst (λ l. Memᴰ r l) (sym none_left) m)))
dataset_columns-eq-ok dataset (name ∷ names) known refs h =
    elim (Bool-cases (contains (column dataset name) known)) [
      | inr unknown ↦ absurd (ground (arith, rw (unknown, dataset_columns) at h))
      | inl here ↦
          let (more, first, same) =
            returned refs (dataset_columns dataset names known) _
              (rw (here, dataset_columns) at h) in
          let (is, all_known) = dataset_columns-eq-ok dataset names known more first in
          let whole = ok_injective (column dataset name ∷ more) refs same in
          (
            sym whole ∙ ap (λ l. column dataset name ∷ l) is,
            λ r m.
                ⊎_elim
                  (λ e.
                    subst (λ c. Memᴰ c known) (sym e)
                      ((contains_iff (column dataset name) known).0 here))
                  (all_known r)
                  ((Memᴰ-cons r (column dataset name) more).0
                    (subst (λ l. Memᴰ r l) (sym whole) m)),
          )
    ]

split_dataset-eq-ok :
    (parts : List String) (dataset : DatasetRef)
    → split_dataset parts ≡ ok dataset
    → dataset ≡ dataset_of_parts parts
unfolding split_dataset
split_dataset-eq-ok [] dataset h = absurd (ground (arith, h))
split_dataset-eq-ok (a ∷ []) dataset h = absurd (ground (arith, h))
split_dataset-eq-ok (a ∷ b ∷ []) dataset h = sym (ok_injective _ _ h)
split_dataset-eq-ok (a ∷ b ∷ c ∷ rest) dataset h = absurd (ground (arith, h))

-- `_column_refs` returns the declared columns, all of which are known.
pub column_refs-eq-ok :
    (sets : List ColumnSetConfig) (known refs : List ColumnRef)
    → column_refs sets known ≡ ok refs
    → (refs ≡ declared_columns sets) × ((r : ColumnRef) → Memᴰ r refs → Memᴰ r known)
unfolding column_refs declared_columns
column_refs-eq-ok [] known refs h =
    let none_left = ok_injective [] refs h in
    (sym none_left, λ r m. absurd (Memᴰ.not-nil (subst (λ l. Memᴰ r l) (sym none_left) m)))
column_refs-eq-ok (s ∷ sets) known refs h =
    let (dataset, named, h1) = returned refs (split_dataset (split_on 46 s.dataset)) _ h in
    let (here, first, h2) = returned refs (dataset_columns dataset s.columns known) _ h1 in
    let (more, others, h3) = returned refs (column_refs sets known) _ h2 in
    let (is, known_here) = dataset_columns-eq-ok dataset s.columns known here first in
    let (is_more, known_more) = column_refs-eq-ok sets known more others in
    let whole = ok_injective (here ++ more) refs h3 in
    let by_name =
      is
      ∙ ap (λ d. map (column d) s.columns)
          (split_dataset-eq-ok (split_on 46 s.dataset) dataset named) in
    (
      sym whole
          ∙ ap (λ l. l ++ more) by_name
          ∙ ap (λ l. map (column (dataset_of_parts (split_on 46 s.dataset))) s.columns ++ l)
              is_more,
      λ r m.
          ⊎_elim (known_here r) (known_more r)
            ((Memᴰ-append r here more).0 (subst (λ l. Memᴰ r l) (sym whole) m)),
    )
