-- ===== src/Domain/Lineage/Invariant.antt =====
-- The invariant of the search: what is queued and found is reached along the edges of the graph, and
-- what is known is queued, being expanded or fully expanded.
use mathlib.Core.List.Memᴰ
use mathlib.Core.Logic.{⊎_elim}
use schema_sentry.Prelude.{
  ◌≡◌, ◌⊎◌, inl, inr, sym, ap, ◌∙◌, subst, true, false, some, List, [], ◌∷◌, ◌++◌, Memᴰ, Memᴰ-cons,
  arith, ◌==◌, Eq, contains, contains_head, contains_tail, contains_cases, pair_eq, String_eq,
  Bool-cases,
}
use schema_sentry.Prelude.Dict
use schema_sentry.Prelude.Dict.{Dict, get-put_self, get-put_ne, values, mem-values-put}
use schema_sentry.Domain.Models.{ColumnRef, ColumnRef_eq}
use schema_sentry.Domain.Lineage.{
  LineageEdge, PipelineImpact, ImpactKey, edge_key, Search, add_impact,
}

abbrev pub impact_key : PipelineImpact → ImpactKey
impact_key i = (i.pipeline.key, i.downstream)

-- the impact of the last edge of a path
abbrev pub impact_of : LineageEdge → List LineageEdge → PipelineImpact
impact_of e p = record { pipeline = e.pipeline; downstream = e.downstream; path = p ++ e ∷ [] }

differs_ne {ℓ} : {A : Type ℓ} ⦃q : Eq A⦄ (a b : A) → (a == b) ≡ false → a ≡ b → ⊥
differs_ne ⦃q⦄ a b h e = ground (arith, q.test_iff a b)

module _ (edges : List LineageEdge) (starts : List ColumnRef) where
  -- The walks along edges of the graph, of any pipeline, from one of the columns.
  pub data Trail : ColumnRef → List LineageEdge → Type 0 where
    start : {c : ColumnRef} → Memᴰ c starts → Trail c []
    along :
        {c : ColumnRef} {p : List LineageEdge} (e : LineageEdge)
        → Trail c p
        → Memᴰ e edges
        → e.upstream ≡ c
        → Trail e.downstream (p ++ e ∷ [])

  -- an impact is the end of a walk: the pipeline and the target of its last edge, with the walk
  pub record IsImpact (i : PipelineImpact) : Type 0 where
    pub source : ColumnRef
    pub before : List LineageEdge
    pub last : LineageEdge
    pub walk : Trail source before
    pub edge : Memᴰ last edges
    pub joins : last.upstream ≡ source
    pub is : i ≡ impact_of last before

  pub record IsSound (s : Search) : Type 0 where
    pub queued : (c : ColumnRef) (p : List LineageEdge) → Memᴰ (c, p) s.queue → Trail c p
    pub impacts : (i : PipelineImpact) → Memᴰ i (values s.found) → IsImpact i

  -- every key that was visited was found, with its own pipeline and column
  abbrev pub HasFound : Search → Type 0
  HasFound s =
      (k : ImpactKey)
      → contains k s.visited ≡ true
      → (i : PipelineImpact) × (Dict.get k s.found ≡ some i) × (impact_key i ≡ k)

  abbrev pub Known : ColumnRef → Search → Type 0
  Known x s = Memᴰ x starts ⊎ ((k : ImpactKey) × (contains k s.visited ≡ true) × (k.1 ≡ x))

  abbrev pub Queued : ColumnRef → Search → Type 0
  Queued x s = (p : List LineageEdge) × Memᴰ (x, p) s.queue

  -- the edges out of a column are visited, up to those that are being looked at
  abbrev pub Expanded : List LineageEdge → ColumnRef → Search → Type 0
  Expanded rem x s =
      (e : LineageEdge)
      → Memᴰ e edges
      → e.upstream ≡ x
      → (contains (edge_key e) s.visited ≡ true) ⊎ Memᴰ e rem

  abbrev pub IsClosed : List LineageEdge → Search → Type 0
  IsClosed rem s = (x : ColumnRef) → Known x s → Queued x s ⊎ Expanded rem x s

  -- ------------------------------------------------------------ one edge

  pub add_impact-IsSound :
      {c : ColumnRef} (p : List LineageEdge) (s : Search) (e : LineageEdge)
      → Trail c p
      → Memᴰ e edges
      → e.upstream ≡ c
      → IsSound s
      → IsSound (add_impact p s e)
  unfolding add_impact
  add_impact-IsSound {c} p s e t m u h = record {
    queued = λ d q n.
        ⊎_elim (h.queued d q)
          (λ l. subst (λ x. Trail x.0 x.1) (sym (Memᴰ.eq_of_singleton l)) (along e t m u))
          (Memᴰ.append_cases s.queue n);
    impacts = λ i n.
        ⊎_elim
          (λ is'. record {
            source = c;
            before = p;
            last = e;
            walk = t;
            edge = m;
            joins = u;
            is = is';
          })
          (h.impacts i) (mem-values-put (edge_key e) (impact_of e p) i s.found n);
  }

  pub add_impact-HasFound :
      (p : List LineageEdge) (s : Search) (e : LineageEdge)
      → HasFound s
      → HasFound (add_impact p s e)
  unfolding add_impact
  add_impact-HasFound p s e h k m = elim (Bool-cases (edge_key e == k)) [
    | inl same ↦
        let is' = (pair_eq.test_iff (edge_key e) k).0 same in
        (
          impact_of e p,
          subst
              (λ j.
                Dict.get j (Dict.put (edge_key e) (impact_of e p) s.found) ≡ some (impact_of e p))
              is' (get-put_self (edge_key e) (impact_of e p) s.found),
          is',
        )
    | inr differs ↦
        let old =
          ⊎_elim (λ is'. absurd (differs_ne (edge_key e) k differs is')) (λ o. o)
            (contains_cases k (edge_key e) s.visited m) in
        let (i, found, named) = h k old in
        (i, get-put_ne (edge_key e) k (impact_of e p) s.found differs ∙ found, named)
  ]

  pub Expanded-step :
      (p : List LineageEdge) (s t : Search) (e : LineageEdge) (rem : List LineageEdge)
      (x : ColumnRef)
      → ((k : ImpactKey) → contains k s.visited ≡ true → contains k t.visited ≡ true)
      → contains (edge_key e) t.visited ≡ true
      → Expanded (e ∷ rem) x s
      → Expanded rem x t
  Expanded-step p s t e rem x grows now h e' m u =
      ⊎_elim (λ v. inl (grows (edge_key e') v))
        (λ n.
          ⊎_elim (λ is'. inl (subst (λ y. contains (edge_key y) t.visited ≡ true) (sym is') now))
            inr ((Memᴰ-cons e' e rem).0 n))
        (h e' m u)

  Known-add_impact :
      (p : List LineageEdge) (s : Search) (e : LineageEdge) (x : ColumnRef)
      → Known x (add_impact p s e)
      → (e.downstream ≡ x) ⊎ Known x s
  unfolding add_impact
  Known-add_impact p s e x (inl m) = inr (inl m)
  Known-add_impact p s e x (inr (k, m, is')) =
      ⊎_elim (λ now. inl (ap (λ j. j.1) now ∙ is')) (λ old. inr (inr (k, old, is')))
        (contains_cases k (edge_key e) s.visited m)

  Queued-new :
      (p : List LineageEdge) (s : Search) (e : LineageEdge) (x : ColumnRef)
      → e.downstream ≡ x
      → Queued x (add_impact p s e)
  unfolding add_impact
  Queued-new p s e x is' =
      (p ++ e ∷ [], Memᴰ.append_right s.queue (Memᴰ.head (ap (λ y. (y, p ++ e ∷ [])) (sym is'))))

  Queued-old :
      (p : List LineageEdge) (s : Search) (e : LineageEdge) (x : ColumnRef)
      → Queued x s
      → Queued x (add_impact p s e)
  unfolding add_impact
  Queued-old p s e x (q, m) = (q, Memᴰ.append_left _ m)

  pub visited_grows :
      (p : List LineageEdge) (s : Search) (e : LineageEdge) (k : ImpactKey)
      → contains k s.visited ≡ true
      → contains k (add_impact p s e).visited ≡ true
  unfolding add_impact
  visited_grows p s e k h = contains_tail k (edge_key e) s.visited h

  pub visited_new :
      (p : List LineageEdge) (s : Search) (e : LineageEdge)
      → contains (edge_key e) (add_impact p s e).visited ≡ true
  unfolding add_impact
  visited_new p s e = contains_head (edge_key e) s.visited

  pub add_impact-IsClosed :
      (p : List LineageEdge) (s : Search) (e : LineageEdge) (rem : List LineageEdge)
      → IsClosed (e ∷ rem) s
      → IsClosed rem (add_impact p s e)
  add_impact-IsClosed p s e rem h x known =
      ⊎_elim (λ is'. inl (Queued-new p s e x is'))
        (λ old.
          ⊎_elim (λ q. inl (Queued-old p s e x q))
            (λ done. inr (
              Expanded-step p s (add_impact p s e) e rem x (visited_grows p s e) (visited_new p s e)
                done))
            (h x old))
        (Known-add_impact p s e x known)
