-- ===== src/Job/Graph/Jobs.antt =====
-- When `BuildGraph` of internal/job/dag.go accepts a row of jobs.
use cronflux.Common.{
  ℕ, ◌<◌, ◌≡◌, refl, ap, ◌∙◌, List, [], ◌∷◌, true, false, Str, str_eq_refl, ok, err, arith,
  Bool-cases, ◌⊎◌, inl, inr,
}
use cronflux.Job.{Job}
use cronflux.Job.Graph.{
  Graph, cycle, unknown_dependency, has, new_graph, add_node, add_edge, add_nodes, add_dependencies,
  add_all, and_sorted, ids, topo_sort, build_graph,
}
use cronflux.Job.Graph.Edges.{
  HasEdges, AllDeclared, declares, add_all-HasEdges, add_nodes-HasEdges, new_graph-HasEdges,
  build_graph-HasEdges,
}
use cronflux.Job.Graph.Nodes.{built-HasNodes}
use cronflux.Job.Graph.Rounds.{IsConsistent}
use cronflux.Job.Graph.Order.{IsTopological, topo_sort-decides}
use cronflux.Job.Graph.Built.{new_graph-IsConsistent, add_node-IsConsistent, add_edge-IsConsistent}

add_nodes-IsConsistent :
    (js : List Job) (g : Graph) → IsConsistent g → IsConsistent (add_nodes js g)
unfolding add_nodes
add_nodes-IsConsistent [] g v = v
add_nodes-IsConsistent (j ∷ js) g v =
    add_nodes-IsConsistent js (add_node j.id g) (add_node-IsConsistent j.id g v)

add_dependencies-cases :
    (known : List Str) (id : Str) (deps : List Str) (g : Graph)
    → IsConsistent g
    → ((g' : Graph) × (add_dependencies known id deps g ≡ ok g') × IsConsistent g')
      ⊎ ((d : Str) × (add_dependencies known id deps g ≡ err (unknown_dependency id d))
          × (has deps d ≡ true)
          × (has known d ≡ false))
unfolding add_dependencies
add_dependencies-cases known id [] g v = inl (g, refl, v)
add_dependencies-cases known id (d ∷ deps) g v = elim (Bool-cases (has known d)) [
  | inr missing ↦
      inr (d, rw (missing, add_dependencies) refl, ground (arith, str_eq_refl d), missing)
  | inl there ↦
      elim (add_dependencies-cases known id deps (add_edge d id g)
        (add_edge-IsConsistent d id g v)) [
          | inl (g', e, v') ↦ inl (g', rw (there, add_dependencies) e, v')
          | inr (x, e, declared, missing) ↦
              inr (x, rw (there, add_dependencies) e, ground (arith, declared), missing)
        ]
]

add_all-cases :
    (known : List Str) (js : List Job) (g : Graph)
    → IsConsistent g
    → ((g' : Graph) × (add_all known js g ≡ ok g') × IsConsistent g')
      ⊎ ((id d : Str) × (add_all known js g ≡ err (unknown_dependency id d))
          × (declares js d id ≡ true)
          × (has known d ≡ false))
unfolding add_all
add_all-cases known [] g v = inl (g, refl, v)
add_all-cases known (j ∷ js) g v = elim (add_dependencies-cases known j.id j.depends_on g v) [
  | inr (d, e, declared, missing) ↦
      inr (j.id, d, rw (e, add_all) refl, ground (arith, declared, str_eq_refl j.id), missing)
  | inl (g1, e, v1) ↦ elim (add_all-cases known js g1 v1) [
    | inl (g', e', v') ↦ inl (g', rw (e, add_all) e', v')
    | inr (id, d, e', declared, missing) ↦
        inr (id, d, rw (e, add_all) e', ground (arith, declared), missing)
  ]
]

-- A number for each job that grows from a dependency to the jobs that declare it.
abbrev pub RanksJobs : List Job → (Str → ℕ) → Type 0
RanksJobs jobs rank = (p c : Str) → declares jobs p c ≡ true → rank p < rank c

-- BuildGraph has one of three results. It returns a graph whose nodes are exactly the jobs' IDs and
-- whose edges are exactly the declared ones, which has an order with each ID once and after all its
-- dependencies; every dependency is then the ID of a job. Or it names a job and a dependency that the job declares and that is no
-- job's ID. Or it reports a cycle, and then no numbering of the jobs grows along every dependency.
pub build_graph-decides :
    (jobs : List Job)
    → ((g : Graph) × (build_graph jobs ≡ ok g)
        × ((x : Str) → has g.nodes x ≡ has (ids jobs) x)
        × HasEdges (declares jobs) g
        × AllDeclared (ids jobs) jobs
        × ((order : List Str) × (topo_sort g ≡ ok order) × IsTopological g order))
      ⊎ ((id d : Str) × (build_graph jobs ≡ err (unknown_dependency id d))
          × (declares jobs d id ≡ true)
          × (has (ids jobs) d ≡ false))
      ⊎ ((build_graph jobs ≡ err cycle) × ((rank : Str → ℕ) → ¬ RanksJobs jobs rank))
unfolding build_graph
build_graph-decides jobs =
    let start = add_nodes jobs new_graph in
    elim (add_all-cases (ids jobs) jobs start
      (add_nodes-IsConsistent jobs new_graph new_graph-IsConsistent)) [
        | inr (id, d, e, declared, missing) ↦
            inr (inl (id, d, rw (e, build_graph) refl, declared, missing))
        | inl (g, e, v) ↦ elim (topo_sort-decides g v) [
          | inl (order, sorted, topological) ↦
              let built : build_graph jobs ≡ ok g =
                ap and_sorted e ∙ rw (sorted, and_sorted) refl in
              let (edges, known) = build_graph-HasEdges jobs g built in
              inl (g, built, built-HasNodes jobs g e, edges, known, (order, sorted, topological))
          | inr (failed, unranked) ↦
              let (edges, known) =
                add_all-HasEdges (λ p c. false) (ids jobs) jobs start {g' = g}
                  (add_nodes-HasEdges (λ p c. false) jobs new_graph new_graph-HasEdges) e in
              inr (
                inr (
                  ap and_sorted e ∙ rw (failed, and_sorted) refl,
                  λ rank ranks. unranked rank λ p c h. ranks p c (ground (arith, (edges p c).0, h)),
                ))
        ]
      ]
