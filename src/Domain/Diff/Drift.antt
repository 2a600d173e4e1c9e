-- ===== src/Domain/Diff/Drift.antt =====
-- What `diff_columns` promises of two snapshots.
use mathlib.Core.List.Memᴰ
use mathlib.Core.Logic.{⊎_elim}
use schema_sentry.Prelude.{
  ◌≡◌, ◌↔◌, ◌⊎◌, inl, inr, refl, ap, ◌∙◌, sym, subst, true, Option, none, some, List, [], ◌∷◌, ◌++◌,
  Memᴰ, Memᴰ-append, Memᴰ-cons, Memᴰ-filter, is_some, is_none, filter, eq_nil_of_empty, arith,
}
use schema_sentry.Prelude.Dict
use schema_sentry.Prelude.Dict.{
  Dict, keys, index_by, latest, get-index_by, get-eq-some_iff_key, key_of_latest,
}
use schema_sentry.Prelude.Order.{String_ord, pair_ord}
use schema_sentry.Prelude.Result.{ok, ok_injective}
use schema_sentry.Prelude.Sort.{sort_by, Memᴰ-sort_by, IsSortedBy, sort_by-IsSortedBy}
use schema_sentry.Domain.Models.{
  ColumnRef, ColumnRef_eq, ColumnDefinition, column_ref, SchemaChange, change_ref, ref_key,
}
use schema_sentry.Domain.Diff.{change_sort_key, extend_all, key_union, diff_columns}
use schema_sentry.Domain.Diff.Columns.{
  column_changes, compare_column-eq-ok, Agrees, column_changes-eq-nil_iff, HasRef,
  change_ref-column_changes,
}

-- the column that a snapshot has under a reference: the last one, as in the dictionary
abbrev pub column_at : ColumnRef → List ColumnDefinition → Option ColumnDefinition
column_at ref cs = latest column_ref ref cs

module _ (e o : Dict ColumnRef ColumnDefinition) (deps : List ColumnRef) where
  abbrev at_ref : ColumnRef → List SchemaChange
  at_ref ref = column_changes ref (Dict.get ref e) (Dict.get ref o) deps

  all_changes : List ColumnRef → List SchemaChange
  all_changes [] = []
  all_changes (r ∷ rs) = at_ref r ++ all_changes rs

  extend_all-eq-ok : (refs : List ColumnRef) → extend_all e o deps refs ≡ ok (all_changes refs)
  unfolding extend_all all_changes
  extend_all-eq-ok [] = refl
  extend_all-eq-ok (r ∷ rs) =
      rw (compare_column-eq-ok r (Dict.get r e) (Dict.get r o) deps, extend_all-eq-ok rs)

  abbrev ChangedIn : SchemaChange → List ColumnRef → Type 0
  ChangedIn c refs = (q : ColumnRef) × Memᴰ q refs × Memᴰ c (at_ref q)

  ChangedIn-cons :
      (c : SchemaChange) (r : ColumnRef) (rs : List ColumnRef)
      → Memᴰ c (at_ref r) ⊎ ChangedIn c rs
      → ChangedIn c (r ∷ rs)
  ChangedIn-cons c r rs (inl n) = (r, Memᴰ.head refl, n)
  ChangedIn-cons c r rs (inr (q, m, n)) = (q, Memᴰ.tail m, n)

  ChangedIn-cases :
      (c : SchemaChange) (r : ColumnRef) (rs : List ColumnRef)
      → ChangedIn c (r ∷ rs)
      → Memᴰ c (at_ref r) ⊎ ChangedIn c rs
  ChangedIn-cases c r rs (q, m, n) =
      ⊎_elim (λ k. inl (subst (λ x. Memᴰ c (at_ref x)) k n)) (λ k. inr (q, k, n))
        ((Memᴰ-cons q r rs).0 m)

  Memᴰ-all_changes :
      (c : SchemaChange) (refs : List ColumnRef) → Memᴰ c (all_changes refs) ↔ ChangedIn c refs
  unfolding all_changes
  Memᴰ-all_changes c [] = (λ m. absurd (Memᴰ.not-nil m), λ (r, m, _). absurd (Memᴰ.not-nil m))
  Memᴰ-all_changes c (r ∷ rs) =
      let split = Memᴰ-append c (at_ref r) (all_changes rs) in
      let ih = Memᴰ-all_changes c rs in
      (
        λ m. ChangedIn-cons c r rs (⊎_elim inl (λ n. inr (ih.0 n)) (split.0 m)),
        λ m. split.1 (⊎_elim inl (λ n. inr (ih.1 n)) (ChangedIn-cases c r rs m)),
      )

  -- a reference that a dictionary has is in the union of the keys
  Memᴰ-key_union :
      (r : ColumnRef)
      → (is_some (Dict.get r e) ≡ true) ⊎ (is_some (Dict.get r o) ≡ true)
      → Memᴰ r (key_union e o)
  unfolding key_union
  Memᴰ-key_union r h = ground (
    arith,
    get-eq-some_iff_key r e,
    get-eq-some_iff_key r o,
    Memᴰ-filter (λ ref. is_none (Dict.get ref e)) r (keys o),
    Memᴰ-append r (keys e) (filter (λ ref. is_none (Dict.get ref e)) (keys o)),
  )

  key_of_change :
      (c : SchemaChange) (r : ColumnRef) (b a : Option ColumnDefinition)
      → Memᴰ c (column_changes r b a deps)
      → (is_some b ≡ true) ⊎ (is_some a ≡ true)
  unfolding column_changes
  key_of_change c r none none m = absurd (Memᴰ.not-nil m)
  key_of_change c r none (some a) m = inr refl
  key_of_change c r (some b) a m = inl refl

  Memᴰ-all_changes_iff :
      (c : SchemaChange)
      → Memᴰ c (all_changes (sort_by ref_key (key_union e o)))
        ↔ ((r : ColumnRef) × Memᴰ c (at_ref r))
  Memᴰ-all_changes_iff c =
      let found = Memᴰ-all_changes c (sort_by ref_key (key_union e o)) in
      (
        λ m. let (r, _, n) = found.0 m in (r, n),
        λ (r, n). found.1 (
          r,
          (Memᴰ-sort_by ref_key r (key_union e o)).1
              (Memᴰ-key_union r (key_of_change c r (Dict.get r e) (Dict.get r o) n)),
          n,
        ),
      )

-- what the loops compute, before the last sort
found_changes : List ColumnDefinition → List ColumnDefinition → List ColumnRef → List SchemaChange
found_changes expected observed deps =
    let e = index_by column_ref expected in
    let o = index_by column_ref observed in all_changes e o deps (sort_by ref_key (key_union e o))

diff_columns-eq-ok :
    (expected observed : List ColumnDefinition) (deps : List ColumnRef)
    → diff_columns expected observed deps
      ≡ ok (sort_by change_sort_key (found_changes expected observed deps))
unfolding diff_columns found_changes
diff_columns-eq-ok expected observed deps =
    rw (extend_all-eq-ok (index_by column_ref expected) (index_by column_ref observed) deps)

HasRef-latest :
    (r : ColumnRef) (cs : List ColumnDefinition) (o : Option ColumnDefinition)
    → o ≡ column_at r cs
    → HasRef r o
HasRef-latest r cs none e = tt
HasRef-latest r cs (some c) e = key_of_latest column_ref r cs (sym e)

module _ (expected observed : List ColumnDefinition) (deps : List ColumnRef) where
  -- the policy at a reference, for the two snapshots
  abbrev pub policy : ColumnRef → List SchemaChange
  policy r = column_changes r (column_at r expected) (column_at r observed) deps

  at_ref-policy :
      (r : ColumnRef)
      → at_ref (index_by column_ref expected) (index_by column_ref observed) deps r ≡ policy r
  at_ref-policy r = rw (get-index_by column_ref r expected, get-index_by column_ref r observed)

  Memᴰ-found_changes :
      (c : SchemaChange)
      → Memᴰ c (found_changes expected observed deps) ↔ ((r : ColumnRef) × Memᴰ c (policy r))
  unfolding found_changes
  Memᴰ-found_changes c =
      let found =
        Memᴰ-all_changes_iff (index_by column_ref expected) (index_by column_ref observed) deps c in
      (
        λ m. let (r, n) = found.0 m in (r, subst (Memᴰ c) (at_ref-policy r) n),
        λ (r, n). found.1 (r, subst (Memᴰ c) (sym (at_ref-policy r)) n),
      )

  policy_ref : (c : SchemaChange) (r : ColumnRef) → Memᴰ c (policy r) → change_ref c ≡ r
  policy_ref c r =
      change_ref-column_changes r (column_at r expected) (column_at r observed) deps c
        (HasRef-latest r expected (column_at r expected) refl)
        (HasRef-latest r observed (column_at r observed) refl)

  Memᴰ-diff :
      (c : SchemaChange)
      → Memᴰ c (sort_by change_sort_key (found_changes expected observed deps))
        ↔ Memᴰ c (policy (change_ref c))
  Memᴰ-diff c =
      let sorted = Memᴰ-sort_by change_sort_key c (found_changes expected observed deps) in
      let found = Memᴰ-found_changes c in
      (
        λ m.
            let (r, n) = found.0 (sorted.0 m) in
            subst (λ q. Memᴰ c (policy q)) (sym (policy_ref c r n)) n,
        λ m. sorted.1 (found.1 (change_ref c, m)),
      )

  pub mem_of_policy :
      (c : SchemaChange) (r : ColumnRef) (changes : List SchemaChange)
      → diff_columns expected observed deps ≡ ok changes
      → Memᴰ c (policy r)
      → Memᴰ c changes
  mem_of_policy c r changes h m =
      let returned = ok_injective _ _ (sym (diff_columns-eq-ok expected observed deps) ∙ h) in
      subst (Memᴰ c) returned
        ((Memᴰ-diff c).1 (subst (λ q. Memᴰ c (policy q)) (sym (policy_ref c r m)) m))

  policy-eq-nil :
      (r : ColumnRef) → Agrees (column_at r expected) (column_at r observed) → policy r ≡ []
  policy-eq-nil r =
      (column_changes-eq-nil_iff r (column_at r expected) (column_at r observed) deps).1

-- `diff_columns` never raises. It returns, in the order of schema, table, column and kind of change,
-- exactly the changes that the policy gives for the column that each change names, as the two snapshots
-- have it. Where a snapshot has a column twice, its last definition counts.
pub diff_columns_exact :
    (expected observed : List ColumnDefinition) (deps : List ColumnRef)
    → (changes : List SchemaChange) × (diff_columns expected observed deps ≡ ok changes)
      × IsSortedBy change_sort_key changes
      × ((c : SchemaChange)
          → Memᴰ c changes
            ↔ Memᴰ c (
                column_changes
                  (change_ref c)
                  (column_at (change_ref c) expected)
                  (column_at (change_ref c) observed)
                  deps))
diff_columns_exact expected observed deps = (
  sort_by change_sort_key (found_changes expected observed deps),
  diff_columns-eq-ok expected observed deps,
  sort_by-IsSortedBy change_sort_key (found_changes expected observed deps),
  Memᴰ-diff expected observed deps,
)

-- There is no drift exactly where every column is in both snapshots or in neither, with one type and
-- one nullability: the order of the columns, their ordinals and their defaults do not count, and
-- neither do the registered dependencies.
pub diff_columns-eq-nil_iff :
    (expected observed : List ColumnDefinition) (deps : List ColumnRef)
    → (diff_columns expected observed deps ≡ ok [])
      ↔ ((r : ColumnRef) → Agrees (column_at r expected) (column_at r observed))
diff_columns-eq-nil_iff expected observed deps = (
  λ h r.
      (column_changes-eq-nil_iff r (column_at r expected) (column_at r observed) deps).0
        (eq_nil_of_empty _ (λ c m. Memᴰ.not-nil (mem_of_policy expected observed deps c r [] h m))),
  λ agrees.
      diff_columns-eq-ok expected observed deps
      ∙ ap ok (
          eq_nil_of_empty _ (λ c m. Memᴰ.not-nil (
            subst (Memᴰ c)
              (policy-eq-nil expected observed deps (change_ref c) (agrees (change_ref c)))
              ((Memᴰ-diff expected observed deps c).0 m)))),
)
