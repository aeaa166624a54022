-- ===== src/Job/Graph/Order.antt =====
-- What `TopoSort` of internal/job/dag.go answers: an order, or that there is none.
use cronflux.Common.{
  ℕ, zero, suc, ◌≤◌, ◌<◌, ◌≡◌, refl, sym, ◌∙◌, List, [], ◌∷◌, ◌++◌, true, Str, str_eq_iff, ℤ, ok,
  err, arith, Bool-cases, ◌⊎◌, inl, inr, length, length-append, ◌==◌,
}
use cronflux.Common.Dict.{Dict}
use cronflux.Job.Graph.{
  Graph, cycle, has, dependencies, in_degrees, sources, take_sources, topo_sort,
}
use cronflux.Job.Graph.Keys.{
  IsOnce, missing, missing-none, has-append_one, append_one-IsOnce, IsOnce-length,
}
use cronflux.Job.Graph.Rounds.{IsConsistent, Reached, Follows, start-Reached}
use cronflux.Job.Graph.Steps.{take_sources-Reached}

module _ (g : Graph) where
  -- A number for each node that grows along every edge.
  abbrev pub Ranks : (Str → ℕ) → Type 0
  Ranks rank = (p c : Str) → has (dependencies g c) p ≡ true → rank p < rank c

  -- Each node stands in the order once, and after all its dependencies.
  abbrev pub IsTopological : List Str → Type 0
  IsTopological order =
      IsOnce order × ((id : Str) → has order id ≡ has g.nodes id) × Follows g [] order

module _ (g : Graph) (v : IsConsistent g) where
  -- The order that the loop ends with, complete or not.
  abbrev final : List Str
  final = take_sources (length g.nodes) g (in_degrees g g.nodes) (sources (in_degrees g g.nodes)) []

  final-Reached : (degrees : Dict ℤ) × Reached g degrees [] final
  final-Reached =
      take_sources-Reached g v (length g.nodes) (in_degrees g g.nodes)
        (sources (in_degrees g g.nodes)) [] (start-Reached g v) (omega arith)

  final-sub : (id : Str) → has final id ≡ true → has g.nodes id ≡ true
  final-sub id h = ground (arith, final-Reached.1.waiting id, h)

  ranked-final :
      (rank : Str → ℕ)
      → Ranks g rank
      → (k : ℕ) (id : Str) → has g.nodes id ≡ true
      → rank id < k
      → has final id ≡ true
  ranked-final rank ranks zero id h lt = absurd (omega (arith, lt))
  ranked-final rank ranks (suc k) id h lt =
      let none_missing : missing final (dependencies g id) ≡ 0 =
        missing-none final (dependencies g id) λ d e.
          ranked-final rank ranks k d (ground (arith, v.known d id, e))
            (omega (arith, ranks d id e, lt)) in
      ground (arith, final-Reached.1.waiting id, none_missing, h)

  complete-final : length final ≡ length g.nodes → (id : Str) → has final id ≡ has g.nodes id
  complete-final full id = elim (Bool-cases (has final id)) [
    | inl e ↦ e ∙ sym (final-sub id e)
    | inr e ↦ elim (Bool-cases (has g.nodes id)) [
      | inr gone ↦ e ∙ sym gone
      | inl there ↦
          let few : length (final ++ id ∷ []) ≤ length g.nodes =
            IsOnce-length (final ++ id ∷ []) g.nodes
              (append_one-IsOnce final id final-Reached.1.order_once e)
              λ x h.
                ground (arith, has-append_one final id x, final-sub x, str_eq_iff id x, there, h) in
          absurd (omega (arith, few, length-append final (id ∷ []), full))
    ]
  ]

  ranked-length : (rank : Str → ℕ) → Ranks g rank → length final ≡ length g.nodes
  ranked-length rank ranks =
      let below : length final ≤ length g.nodes =
        IsOnce-length final g.nodes final-Reached.1.order_once final-sub in
      let above : length g.nodes ≤ length final =
        IsOnce-length g.nodes final v.nodes_once
          λ id h. ranked-final rank ranks (suc (rank id)) id h (omega arith) in
      omega (arith, below, above)

  pub topo_sort-decides :
      ((order : List Str) × (topo_sort g ≡ ok order) × IsTopological g order)
      ⊎ ((topo_sort g ≡ err cycle) × ((rank : Str → ℕ) → ¬ Ranks g rank))
  unfolding topo_sort
  topo_sort-decides = elim (Bool-cases (length final == length g.nodes)) [
    | inl full ↦ inl (
      final,
      rw (full, topo_sort) refl,
      (final-Reached.1.order_once, complete-final (ground (arith, full)), final-Reached.1.follows),
    )
    | inr short ↦
        inr (
          rw (short, topo_sort) refl,
          λ rank ranks. ground (arith, ranked-length rank ranks, short),
        )
  ]
