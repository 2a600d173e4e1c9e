-- ===== src/Scan/Stored/Loaded.antt =====
-- What `load_expected_columns` reads of a baseline that the first scan stored.
use mathlib.Core.List.Memᴰ
use mathlib.Core.Logic.{⊎_elim}
use schema_sentry.Prelude.Int.{ℤ_ord}
use schema_sentry.Prelude.{
  String, some, List, [], ◌∷◌, Memᴰ, ◌≡◌, ◌↔◌, refl, sym, ap, ◌∙◌, subst, ◌==◌, ℕ_eq, String_eq,
  Memᴰ-cons, Memᴰ-filter,
}
use schema_sentry.Prelude.Dict.{Dict}
use schema_sentry.Prelude.Order.{String_ord, pair_ord, ℕ_ord}
use schema_sentry.Prelude.Result.{ok, ok_injective}
use schema_sentry.Prelude.Sort.{sort_by, Memᴰ-sort_by}
use schema_sentry.Domain.Models.{DatasetRef, DatasetRef_eq, ColumnRef_eq, ColumnDefinition}
use schema_sentry.Store.{Db, DataSourceRow, DatasetRow, ExpectedColumnRow, find}
use schema_sentry.Store.Types.{type_of_dict-type_dict}
use schema_sentry.Scan.Joins.{Memᴰ-joined}
use schema_sentry.Scan.Reading.{
  dataset_ref, datasets_of, joined, read_column, read_columns, expected_order,
  load_expected_columns, get_source, or_raise,
}
use schema_sentry.Scan.Baseline.{expected_row}
use schema_sentry.Scan.Stored.{IsStored}

-- The row of a column, in the column's dataset, is read back as the column.
read_column-expected_row :
    (c : ColumnDefinition) (r : ExpectedColumnRow) (d : DatasetRow)
    → r ≡ expected_row d.id c
    → dataset_ref d ≡ c.dataset
    → read_column (r, d) ≡ ok c
unfolding read_column expected_row
read_column-expected_row c r d is ref =
    ap (λ x. read_column (x, d)) is
    ∙ rw (type_of_dict-type_dict c.data_type, read_column, expected_row)
        (ap (λ x. ok (record c { dataset = x })) ref)

dataset_id-expected_row :
    (d : DatasetRow) (c : ColumnDefinition) → d.id ≡ (expected_row d.id c).dataset_id
unfolding expected_row
dataset_id-expected_row d c = refl

-- Rows that can all be read give the columns that they are read as.
read_columns-readable :
    (rows : List (ExpectedColumnRow × DatasetRow))
    → ((p : ExpectedColumnRow × DatasetRow)
        → Memᴰ p rows
        → (c : ColumnDefinition) × (read_column p ≡ ok c))
    → (cs : List ColumnDefinition) × (read_columns rows ≡ ok cs)
      × ((c : ColumnDefinition)
          → Memᴰ c cs
            ↔ ((p : ExpectedColumnRow × DatasetRow) × Memᴰ p rows × (read_column p ≡ ok c)))
unfolding read_columns
read_columns-readable [] h =
    ([], refl, λ c. (λ m. absurd (Memᴰ.not-nil m), λ (p, m, e). absurd (Memᴰ.not-nil m)))
read_columns-readable (p ∷ ps) h =
    let (c0, first) = h p (Memᴰ.head refl) in
    let (cs, rest, iff) = read_columns-readable ps (λ q m. h q (Memᴰ.tail m)) in
    (
      c0 ∷ cs,
      rw (first, rest) refl,
      λ c. (
        λ m.
            ⊎_elim (λ same. (p, Memᴰ.head refl, first ∙ ap ok (sym same)))
              (λ k. let (q, n, e) = (iff c).0 k in (q, Memᴰ.tail n, e)) ((Memᴰ-cons c c0 cs).0 m),
        λ (q, m, e).
            ⊎_elim (λ same. Memᴰ.head (ok_injective c c0 (sym e ∙ ap read_column same ∙ first)))
              (λ k. Memᴰ.tail ((iff c).1 (q, k, e))) ((Memᴰ-cons q p ps).0 m),
      ),
    )

module _ (source : DataSourceRow) (key : String) (before : List DataSourceRow)
    (has_source : find (λ s. s.key == key) before ≡ some source) where
  -- A stored baseline is loaded.
  pub load-IsStored :
      (db : Db) (datasets : Dict DatasetRef DatasetRow) (done : List ColumnDefinition)
      → IsStored source.id before db datasets done
      → (loaded : List ColumnDefinition) × (load_expected_columns key db ≡ (ok loaded, db))
        × ((c : ColumnDefinition) → Memᴰ c loaded ↔ Memᴰ c done)
  unfolding load_expected_columns get_source or_raise
  load-IsStored db datasets done h =
      let rows =
        joined (λ (c : ExpectedColumnRow). c.dataset_id) (datasets_of source.id db) db.expected in
      let (cs, reads, iff) =
        read_columns-readable (sort_by expected_order rows)
          (λ p m. readable p ((Memᴰ-sort_by expected_order p rows).0 m)) in
      (
        cs,
        rw (h.same_sources, has_source, reads) refl,
        λ c. (
          λ m.
              let (p, n, e) = (iff c).0 m in
              let (b, there, is) = readable_done p ((Memᴰ-sort_by expected_order p rows).0 n) in
              subst (λ x. Memᴰ x done) (ok_injective b c (sym is ∙ e)) there,
          λ m.
              let (d, n, s, ref, row) = h.of_column c m in
              (iff c).1 (
                (expected_row d.id c, d),
                (Memᴰ-sort_by expected_order (expected_row d.id c, d) rows).1 (
                    (Memᴰ-joined (λ (x : ExpectedColumnRow). x.dataset_id)
                        (datasets_of source.id db) (expected_row d.id c) d db.expected).1
                      (
                        row,
                        (Memᴰ-filter (λ x. x.source_id == source.id) d db.datasets).1
                            (n, (ℕ_eq.test_iff d.source_id source.id).1 s),
                        dataset_id-expected_row d c,
                      )),
                read_column-expected_row c (expected_row d.id c) d refl ref,
              ),
        ),
      )
    where
      readable_done :
          (p : ExpectedColumnRow × DatasetRow)
          → Memᴰ p (joined (λ c. c.dataset_id) (datasets_of source.id db) db.expected)
          → (c : ColumnDefinition) × Memᴰ c done × (read_column p ≡ ok c)
      readable_done p m =
          let (n, k, e) =
            (Memᴰ-joined (λ (x : ExpectedColumnRow). x.dataset_id) (datasets_of source.id db) p.0
                p.1 db.expected).0
              m in
          let (there, test) = (Memᴰ-filter (λ x. x.source_id == source.id) p.1 db.datasets).0 k in
          let (c, of_done, is, ref) =
            h.of_row p.0 p.1 n there ((ℕ_eq.test_iff p.1.source_id source.id).0 test) e in
          (c, of_done, read_column-expected_row c p.0 p.1 is ref)

      readable :
          (p : ExpectedColumnRow × DatasetRow)
          → Memᴰ p (joined (λ c. c.dataset_id) (datasets_of source.id db) db.expected)
          → (c : ColumnDefinition) × (read_column p ≡ ok c)
      readable p m = let (c, _, is) = readable_done p m in (c, is)
