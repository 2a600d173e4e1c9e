-- ===== src/Domain/Lineage/Rounds.antt =====
-- The invariant through the loops, and the bound on their rounds.
use mathlib.Core.List.Memᴰ
use mathlib.Core.Bool.{false≢true}
use mathlib.Core.Logic.{⊎_elim}
use schema_sentry.Prelude.{
  ℕ, zero, suc, ◌+◌, ◌≤◌, ◌<◌, ◌≡◌, ◌⊎◌, inl, inr, refl, sym, ap, ◌∙◌, subst, false, some, List, [],
  ◌∷◌, ◌++◌, Memᴰ, Memᴰ-cons, arith, Eq, test_refl, contains, pair_eq, String_eq, length,
  length-append, length-map, mem-map_of_mem, mem_of_mem-map, if◌then◌else◌, Bool-cases, List-cases,
}
use schema_sentry.Domain.Models.{ColumnRef, ColumnRef_eq}
use schema_sentry.Domain.Lineage.{
  LineageEdge, edge_key, lineage_graph, edges_from, Search, visit_edge, visit_edges, expand,
  search_loop, initial,
}
use schema_sentry.Domain.Lineage.Graph.{Memᴰ-edges_from}
use schema_sentry.Domain.Lineage.Invariant.{
  Trail, start, IsSound, HasFound, IsClosed, Queued, Expanded, Expanded-step, add_impact-IsSound,
  add_impact-HasFound, add_impact-IsClosed,
}

module _ {ℓ κ} {A : Type ℓ} {K : Type κ} ⦃q : Eq K⦄ (key : A → K) where
  -- how many elements have a key that is not visited
  abbrev fresh : List A → List K → ℕ
  fresh [] visited = 0
  fresh (a ∷ as') visited =
      if contains (key a) visited then fresh as' visited else suc (fresh as' visited)

  fresh_le : (k : K) (visited : List K) (as' : List A) → fresh as' (k ∷ visited) ≤ fresh as' visited
  fresh_le k visited [] = omega arith
  fresh_le k visited (a ∷ as') = ground (arith, fresh_le k visited as')

  -- A visit takes its own element away.
  fresh_lt :
      (a : A) (visited : List K) (as' : List A)
      → Memᴰ a as'
      → contains (key a) visited ≡ false
      → fresh as' (key a ∷ visited) < fresh as' visited
  fresh_lt a visited [] m new = absurd (Memᴰ.not-nil m)
  fresh_lt a visited (x ∷ as') (Memᴰ.head is') new =
      rw (← is') (ground (arith, test_refl (key a), fresh_le (key a) visited as'))
  fresh_lt a visited (x ∷ as') (Memᴰ.tail m) new =
      ground (arith, fresh_lt a visited as' m new, fresh_le (key a) visited as')

  fresh-le-length : (visited : List K) (as' : List A) → fresh as' visited ≤ length as'
  fresh-le-length visited [] = omega arith
  fresh-le-length visited (a ∷ as') = ground (arith, fresh-le-length visited as')

abbrev entry : ColumnRef → ColumnRef × List LineageEdge
entry c = (c, [])

module _ (edges : List LineageEdge) (starts : List ColumnRef) where
  pub record Inv (rem : List LineageEdge) (s : Search) : Type 0 where
    pub sound : IsSound edges starts s
    pub named : HasFound edges starts s
    pub closed : IsClosed edges starts rem s

  pub work : Search → ℕ
  work s = length s.queue + fresh edge_key edges s.visited

  visit_edge-Inv :
      {c : ColumnRef} (p : List LineageEdge) (s : Search) (e : LineageEdge) (rem : List LineageEdge)
      → Trail edges starts c p
      → Memᴰ e edges
      → e.upstream ≡ c
      → Inv (e ∷ rem) s
      → Inv rem (visit_edge p s e)
  unfolding visit_edge
  visit_edge-Inv p s e rem t m u h = elim (Bool-cases (contains (edge_key e) s.visited)) [
    | inl old ↦ rw old (record {
      sound = h.sound;
      named = h.named;
      closed = λ x known.
          ⊎_elim inl (λ d. inr (Expanded-step edges starts p s s e rem x (λ k v. v) old d))
            (h.closed x known);
    })
    | inr new ↦ rw new (record {
      sound = add_impact-IsSound edges starts p s e t m u h.sound;
      named = add_impact-HasFound edges starts p s e h.named;
      closed = add_impact-IsClosed edges starts p s e rem h.closed;
    })
  ]

  visit_edge-work :
      (p : List LineageEdge) (s : Search) (e : LineageEdge)
      → Memᴰ e edges
      → work (visit_edge p s e) ≤ work s
  unfolding visit_edge work
  visit_edge-work p s e m = elim (Bool-cases (contains (edge_key e) s.visited)) [
    | inl old ↦ rw old (omega arith)
    | inr new ↦ rw new (
        omega (
          arith,
          length-append s.queue ((e.downstream, p ++ e ∷ []) ∷ []),
          fresh_lt edge_key e s.visited edges m new,
        ))
  ]

  abbrev OutOf : ColumnRef → List LineageEdge → Type 0
  OutOf c es = (e : LineageEdge) → Memᴰ e es → Memᴰ e edges × (e.upstream ≡ c)

  visit_edges-Inv :
      {c : ColumnRef} (p : List LineageEdge) (s : Search) (es : List LineageEdge)
      → Trail edges starts c p
      → OutOf c es
      → Inv es s
      → Inv [] (visit_edges p s es) × (work (visit_edges p s es) ≤ work s)
  unfolding visit_edges
  visit_edges-Inv p s [] t out h = (h, omega arith)
  visit_edges-Inv p s (e ∷ es) t out h =
      let (m, u) = out e (Memᴰ.head refl) in
      let (inv, less) =
        visit_edges-Inv p (visit_edge p s e) es t (λ d n. out d (Memᴰ.tail n))
          (visit_edge-Inv p s e es t m u h) in
      (inv, omega (arith, visit_edge-work p s e m))

  abbrev popped : List (ColumnRef × List LineageEdge) → Search → Search
  popped rest s = record s { queue = rest }

  popped-Inv :
      (c : ColumnRef) (p : List LineageEdge) (rest : List (ColumnRef × List LineageEdge))
      (s : Search)
      → s.queue ≡ (c, p) ∷ rest
      → Inv [] s
      → Inv (edges_from (lineage_graph edges) c) (popped rest s)
  popped-Inv c p rest s q h = record {
    sound = record {
      queued = λ d r m. h.sound.queued d r (subst (Memᴰ (d, r)) (sym q) (Memᴰ.tail m));
      impacts = h.sound.impacts;
    };
    named = h.named;
    closed = λ x known.
        ⊎_elim (queued_still x)
          (λ done. inr (λ e m u. inl (⊎_elim (λ v. v) (λ n. absurd (Memᴰ.not-nil n)) (done e m u))))
          (h.closed x known);
  }
    where
      queued_still :
          (x : ColumnRef)
          → Queued edges starts x s
          → Queued edges starts x (popped rest s)
            ⊎ Expanded edges starts (edges_from (lineage_graph edges) c) x (popped rest s)
      queued_still x (r, m) =
          ⊎_elim
            (λ here. inr (λ e n u. inr ((Memᴰ-edges_from e c edges).1 (n, u ∙ ap (λ y. y.0) here))))
            (λ later. inl (r, later)) ((Memᴰ-cons (x, r) (c, p) rest).0 (subst (Memᴰ (x, r)) q m))

  work-popped :
      (c : ColumnRef) (p : List LineageEdge) (rest : List (ColumnRef × List LineageEdge))
      (s : Search)
      → s.queue ≡ (c, p) ∷ rest
      → suc (work (popped rest s)) ≡ work s
  unfolding work
  work-popped c p rest s q = omega (arith, ap length q)

  -- One round keeps the invariant and takes one entry of the queue away for good.
  expand-Inv :
      (c : ColumnRef) (p : List LineageEdge) (rest : List (ColumnRef × List LineageEdge))
      (s : Search)
      → s.queue ≡ (c, p) ∷ rest
      → Inv [] s
      → Inv [] (expand (lineage_graph edges) c p rest s)
        × (work (expand (lineage_graph edges) c p rest s) < work s)
  unfolding expand
  expand-Inv c p rest s q h =
      let (inv, less) =
        visit_edges-Inv p (popped rest s) (edges_from (lineage_graph edges) c)
          (h.sound.queued c p (subst (Memᴰ (c, p)) (sym q) (Memᴰ.head refl)))
          (λ e m. (Memᴰ-edges_from e c edges).0 m) (popped-Inv c p rest s q h) in
      (inv, omega (arith, less, work-popped c p rest s q))

  search_loop_step :
      (fuel : ℕ) (c : ColumnRef) (p : List LineageEdge) (rest : List (ColumnRef × List LineageEdge))
      (s : Search)
      → s.queue ≡ (c, p) ∷ rest
      → search_loop (lineage_graph edges) (suc fuel) s
        ≡ search_loop (lineage_graph edges) fuel (expand (lineage_graph edges) c p rest s)
  unfolding search_loop
  search_loop_step fuel c p rest s q = simp (q, search_loop)

  -- With fuel for the work that is left, the loop ends with an empty queue and the invariant.
  pub search_loop-Inv :
      (fuel : ℕ) (s : Search)
      → work s ≤ fuel
      → Inv [] s
      → (t : Search) × (search_loop (lineage_graph edges) fuel s ≡ some t)
        × Inv [] t
        × (t.queue ≡ [])
  unfolding search_loop
  search_loop-Inv zero s w h = elim (List-cases s.queue) [
    | inl empty ↦ (s, simp (empty, search_loop), h, empty)
    | inr ((c, p), rest, q) ↦ absurd (omega (arith, work-popped c p rest s q))
  ]
  search_loop-Inv (suc fuel) s w h = elim (List-cases s.queue) [
    | inl empty ↦ (s, simp (empty, search_loop), h, empty)
    | inr ((c, p), rest, q) ↦
        let (inv, less) = expand-Inv c p rest s q h in
        let (t, ends, after, empty) =
          search_loop-Inv fuel (expand (lineage_graph edges) c p rest s) (omega arith) inv in
        (t, search_loop_step fuel c p rest s q ∙ ends, after, empty)
  ]

  pub initial-Inv : Inv [] (initial (lineage_graph edges) starts)
  unfolding initial
  initial-Inv = record {
    sound = record {
      queued = λ c p m.
          let (a, n, is') = mem_of_mem-map entry starts m in
          subst (λ y. Trail edges starts y.0 y.1) (sym is') (start n);
      impacts = λ i m. absurd (Memᴰ.not-nil m);
    };
    named = λ k m. ground arith;
    closed = known_queued;
  }
    where
      known_queued : IsClosed edges starts [] (initial (lineage_graph edges) starts)
      known_queued x (inl m) = inl ([], mem-map_of_mem entry starts m)
      known_queued x (inr (k, m, _)) = absurd (false≢true m)

  pub work-initial : work (initial (lineage_graph edges) starts) ≤ length starts + length edges
  unfolding work initial
  work-initial = omega (arith, fresh-le-length edge_key [] edges, length-map entry starts)
