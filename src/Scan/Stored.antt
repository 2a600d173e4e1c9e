-- ===== src/Scan/Stored.antt =====
-- The baseline that the first scan of a source stores, while the loop over the observed columns runs.
pub mod Loaded
pub mod Again
use mathlib.Core.List.Memᴰ
use mathlib.Core.Logic.{⊎_elim}
use schema_sentry.Prelude.{
  ℕ, suc, ◌≤◌, ◌<◌, Bool, true, false, Option, none, some, List, [], ◌∷◌, ◌++◌, map, Memᴰ, ◌≡◌, ◌⊎◌,
  inl, inr, refl, sym, ap, ◌∙◌, subst, arith, ◌==◌, ℕ_eq, All, Bool-cases, Option-cases, Memᴰ-cons,
  Memᴰ-append, append-nil, append_assoc, eq_of_IsUnique-map, if◌then◌else◌,
}
use schema_sentry.Prelude.Dict
use schema_sentry.Prelude.Dict.{Dict}
use schema_sentry.Domain.Models.{DatasetRef, DatasetRef_eq, ColumnDefinition}
use schema_sentry.Store.{Db, DataSourceRow, DatasetRow, ExpectedColumnRow}
use schema_sentry.Store.Ids.{HasIds, ids-append_new}
use schema_sentry.Scan.Reading.{dataset_ref}
use schema_sentry.Scan.Baseline.{expected_row, add_expected, new_dataset, add_dataset, add_baseline}

-- An element of a list with one more at its end.
mem_of_snoc : {A : Type 0} (a x : A) (xs : List A) → Memᴰ a (xs ++ x ∷ []) → Memᴰ a xs ⊎ (a ≡ x)
mem_of_snoc a x xs m =
    ⊎_elim (λ k. inl k)
      (λ k. inr (⊎_elim (λ e. e) (λ n. absurd (Memᴰ.not-nil n)) ((Memᴰ-cons a x []).0 k)))
      ((Memᴰ-append a xs (x ∷ [])).0 m)

module _ (source_id : ℕ) (sources : List DataSourceRow) where
  -- The columns of the source's baseline are those of the columns that are done.
  pub record IsStored (db : Db) (datasets : Dict DatasetRef DatasetRow)
      (done : List ColumnDefinition) : Type 0 where
    pub same_sources : db.sources ≡ sources
    pub ids : HasIds db.next_id (map (λ d. d.id) db.datasets)
    pub known : (r : ExpectedColumnRow) → Memᴰ r db.expected → r.dataset_id < db.next_id
    pub found :
        (ref : DatasetRef) (d : DatasetRow)
        → Dict.get ref datasets ≡ some d
        → Memᴰ d db.datasets × (d.source_id ≡ source_id) × (dataset_ref d ≡ ref)
    pub of_row :
        (r : ExpectedColumnRow) (d : DatasetRow)
        → Memᴰ r db.expected
        → Memᴰ d db.datasets
        → d.source_id ≡ source_id
        → d.id ≡ r.dataset_id
        → (c : ColumnDefinition) × Memᴰ c done
          × (r ≡ expected_row d.id c)
          × (dataset_ref d ≡ c.dataset)
    pub of_column :
        (c : ColumnDefinition)
        → Memᴰ c done
        → (d : DatasetRow) × Memᴰ d db.datasets
          × (d.source_id ≡ source_id)
          × (dataset_ref d ≡ c.dataset)
          × Memᴰ (expected_row d.id c) db.expected

  All-of_mem :
      (n : ℕ) (ds : List DatasetRow) (d : DatasetRow)
      → All (λ i. i < n) (map (λ x. x.id) ds)
      → Memᴰ d ds
      → d.id < n
  All-of_mem n [] d all m = absurd (Memᴰ.not-nil m)
  All-of_mem n (x ∷ xs) d all (Memᴰ.head same) = subst (λ y. y.id < n) (sym same) all.0
  All-of_mem n (x ∷ xs) d all (Memᴰ.tail m) = All-of_mem n xs d all.1 m

  module _ (db : Db) (datasets : Dict DatasetRef DatasetRow) (done : List ColumnDefinition)
      (h : IsStored db datasets done) where
    -- A column of a dataset that is there.
    add_expected-IsStored :
        (c : ColumnDefinition) (d : DatasetRow)
        → Dict.get c.dataset datasets ≡ some d
        → IsStored (add_expected d.id c db) datasets (done ++ c ∷ [])
    unfolding add_expected expected_row
    add_expected-IsStored c d has_d =
        let (there, of_source, is_ref) = h.found c.dataset d has_d in
        record {
          same_sources = h.same_sources;
          ids = h.ids;
          known = λ r m.
              ⊎_elim (h.known r)
                (λ same.
                  subst (λ x. x.dataset_id < db.next_id) (sym same)
                    (All-of_mem db.next_id db.datasets d h.ids.0 there))
                (mem_of_snoc r (expected_row d.id c) db.expected m);
          found = h.found;
          of_row = λ r x m n s e.
              ⊎_elim
                (λ old.
                  let (b, k, is, ref) = h.of_row r x old n s e in
                  (b, (Memᴰ-append b done (c ∷ [])).1 (inl k), is, ref))
                (λ new.
                  let same =
                    eq_of_IsUnique-map (λ (y : DatasetRow). y.id) db.datasets x d h.ids.1 n there
                      (e ∙ ap (λ y. y.dataset_id) new) in
                  (
                    c,
                    (Memᴰ-append c done (c ∷ [])).1 (inr (Memᴰ.head refl)),
                    new ∙ ap (λ y. expected_row y.id c) (sym same),
                    ap dataset_ref same ∙ is_ref,
                  ))
                (mem_of_snoc r (expected_row d.id c) db.expected m);
          of_column = λ b m.
              ⊎_elim
                (λ old.
                  let (x, n, s, ref, row) = h.of_column b old in
                  (
                    x,
                    n,
                    s,
                    ref,
                    (Memᴰ-append (expected_row x.id b) db.expected (expected_row d.id c ∷ [])).1
                        (inl row),
                  ))
                (λ same. (
                  d,
                  there,
                  of_source,
                  is_ref ∙ ap (λ y. y.dataset) (sym same),
                  (Memᴰ-append (expected_row d.id b) db.expected (expected_row d.id c ∷ [])).1
                      (inr (Memᴰ.head (ap (expected_row d.id) same))),
                ))
                (mem_of_snoc b c done m);
        }

    -- A dataset that is new.
    add_dataset-IsStored :
        (ref : DatasetRef)
        → IsStored
            (add_dataset (new_dataset source_id ref db) db)
            (Dict.put ref (new_dataset source_id ref db) datasets)
            done
    unfolding add_dataset new_dataset
    add_dataset-IsStored ref =
        let d = new_dataset source_id ref db in
        record {
          same_sources = h.same_sources;
          ids = ids-append_new (λ (x : DatasetRow). x.id) db.next_id db.datasets d refl h.ids;
          known = λ r m. omega (arith, h.known r m);
          found = λ k x has. elim (Bool-cases (ref == k)) [
            | inl same ↦
                let is : x ≡ d = ground (arith, Dict.get-put ref k d datasets, same, has) in
                (
                  (Memᴰ-append x db.datasets (d ∷ [])).1 (inr (Memᴰ.head is)),
                  ap (λ y. y.source_id) is,
                  ap dataset_ref is ∙ (DatasetRef_eq.test_iff ref k).0 same,
                )
            | inr apart ↦
                let (n, s, e) = h.found k x (sym (Dict.get-put_ne ref k d datasets apart) ∙ has) in
                ((Memᴰ-append x db.datasets (d ∷ [])).1 (inl n), s, e)
          ];
          of_row = λ r x m n s e.
              ⊎_elim (λ old. h.of_row r x m old s e)
                (λ new. absurd (omega (arith, h.known r m, e, ap (λ y. y.id) new)))
                (mem_of_snoc x d db.datasets n);
          of_column = λ c m.
              let (x, n, s, e, row) = h.of_column c m in
              (x, (Memᴰ-append x db.datasets (d ∷ [])).1 (inl n), s, e, row);
        }

  -- The loop stores the columns that it is given.
  pub add_baseline-IsStored :
      (cs : List ColumnDefinition) (db : Db) (datasets : Dict DatasetRef DatasetRow)
      (done : List ColumnDefinition)
      → IsStored db datasets done
      → (datasets' : Dict DatasetRef DatasetRow) × IsStored
          (add_baseline source_id datasets cs db)
          datasets'
          (done ++ cs)
  unfolding add_baseline
  add_baseline-IsStored [] db datasets done h =
      (datasets, subst (IsStored db datasets) (sym (append-nil done)) h)
  add_baseline-IsStored (c ∷ cs) db datasets done h =
      elim (Option-cases (Dict.get c.dataset datasets)) [
        | inl missing ↦
            let d = new_dataset source_id c.dataset db in
            let datasets1 = Dict.put c.dataset d datasets in
            let h1 =
              add_expected-IsStored (add_dataset d db) datasets1 done
                (add_dataset-IsStored db datasets done h c.dataset) c d
                (Dict.get-put_self c.dataset d datasets) in
            rw (missing, add_baseline, ← append_assoc done (c ∷ []) cs)
              (add_baseline-IsStored cs (add_expected d.id c (add_dataset d db)) datasets1
                (done ++ c ∷ []) h1)
        | inr (d, has_d) ↦
            rw (has_d, add_baseline, ← append_assoc done (c ∷ []) cs)
              (add_baseline-IsStored cs (add_expected d.id c db) datasets (done ++ c ∷ [])
                (add_expected-IsStored db datasets done h c d has_d))
      ]
