-- ===== src/Scan/Joins.antt =====
-- What a join of rows with their datasets holds.
use mathlib.Core.List.Memᴰ
use schema_sentry.Prelude.{
  ℕ, List, [], ◌∷◌, map, filter, Memᴰ, ◌≡◌, ◌↔◌, sym, ap, subst, arith, ◌==◌, ℕ_eq, Memᴰ-append,
  Memᴰ-filter, Memᴰ-cons, mem-map_of_mem, mem_of_mem-map,
}
use schema_sentry.Store.{DatasetRow}
use schema_sentry.Scan.Reading.{joined}

module _ {ℓ} {A : Type ℓ} (key : A → ℕ) (datasets : List DatasetRow) where
  abbrev pair_with : A → DatasetRow → A × DatasetRow
  pair_with a d = (a, d)

  -- the rows that one row joins with
  joined_row :
      (a b : A) (d : DatasetRow)
      → Memᴰ {A = A × DatasetRow} (b, d) (map (pair_with a) (filter (λ d. d.id == key a) datasets))
        ↔ ((b ≡ a) × Memᴰ d datasets × (d.id ≡ key a))
  joined_row a b d = (to, from)
    where
      to :
          Memᴰ {A = A × DatasetRow}
            (b, d)
            (map (pair_with a) (filter (λ d. d.id == key a) datasets))
          → (b ≡ a) × Memᴰ d datasets × (d.id ≡ key a)
      to m =
          let (e, n, same) =
            mem_of_mem-map (pair_with a) (filter (λ d. d.id == key a) datasets) m in
          let n' =
            subst (λ x. Memᴰ x (filter (λ d. d.id == key a) datasets)) (sym (ap (λ p. p.1) same))
              n in
          let (n1, n2) = (Memᴰ-filter (λ d. d.id == key a) d datasets).0 n' in
          (ap (λ p. p.0) same, n1, (ℕ_eq.test_iff d.id (key a)).0 n2)

      from :
          (b ≡ a) × Memᴰ d datasets × (d.id ≡ key a)
          → Memᴰ {A = A × DatasetRow}
              (b, d)
              (map (pair_with a) (filter (λ d. d.id == key a) datasets))
      from (q, n, same) =
          subst
            (λ x.
              Memᴰ {A = A × DatasetRow} (x, d)
                (map (pair_with a) (filter (λ d. d.id == key a) datasets)))
            (sym q)
            (mem-map_of_mem (pair_with a) (filter (λ d. d.id == key a) datasets) (
              (Memᴰ-filter (λ d. d.id == key a) d datasets).1
                (n, (ℕ_eq.test_iff d.id (key a)).1 same)))

  -- A join holds the pairs of a row and a dataset that the row's key names.
  pub Memᴰ-joined :
      (b : A) (d : DatasetRow) (xs : List A)
      → Memᴰ {A = A × DatasetRow} (b, d) (joined key datasets xs)
        ↔ (Memᴰ b xs × Memᴰ d datasets × (d.id ≡ key b))
  Memᴰ-joined b d [] = (λ m. absurd (Memᴰ.not-nil m), λ m. absurd (Memᴰ.not-nil m.0))
  Memᴰ-joined b d (a ∷ xs) = ground (
    arith,
    Memᴰ-append (b, d) (map (pair_with a) (filter (λ d. d.id == key a) datasets))
        (joined key datasets xs),
    joined_row a b d,
    Memᴰ-joined b d xs,
    Memᴰ-cons b a xs,
  )
