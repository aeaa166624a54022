-- ===== src/Job/Graph/Nodes.antt =====
-- Which nodes the graph of `BuildGraph` in internal/job/dag.go has.
use cronflux.Common.{
  ◌≡◌, refl, sym, ◌∙◌, List, [], ◌∷◌, true, ◌||◌, Str, str_eq, str_eq_iff, str_eq_refl, Result, ok,
  arith, Bool-cases, Result-cases, inl, inr, In, All, →All, subst,
}
use cronflux.Job.{Job}
use cronflux.Job.Graph.{
  Graph, GraphError, has, add_edge, add_node, new_graph, add_nodes, add_dependencies, add_all, ids,
}
use cronflux.Job.Graph.Edges.{or_false}
use cronflux.Job.Graph.Built.{has-add_node}

-- The nodes of the graph are the keys of the list.
abbrev pub HasNodes : List Str → Graph → Type 0
HasNodes known g = (x : Str) → has g.nodes x ≡ has known x

add_nodes-has :
    (js : List Job) (g : Graph) (x : Str)
    → has (add_nodes js g).nodes x ≡ (has (ids js) x || has g.nodes x)
unfolding add_nodes
add_nodes-has [] g x = ground arith
add_nodes-has (j ∷ js) g x =
    ground (arith, add_nodes-has js (add_node j.id g) x, has-add_node j.id g x)

pub add_nodes-HasNodes : (js : List Job) → HasNodes (ids js) (add_nodes js new_graph)
add_nodes-HasNodes js x = add_nodes-has js new_graph x ∙ or_false (has (ids js) x)

-- An edge between nodes adds no node.
add_edge-HasNodes :
    (known : List Str) (s t : Str) (g : Graph)
    → has known s ≡ true
    → has known t ≡ true
    → HasNodes known g
    → HasNodes known (add_edge s t g)
unfolding add_edge
add_edge-HasNodes known s t g a b h x = ground (
  arith,
  has-add_node t (add_node s g) x,
  has-add_node s g x,
  h x,
  a,
  b,
  str_eq_iff s x,
  str_eq_iff t x,
)

HasNodes-ok :
    (known : List Str) (g g' : Graph)
    → Path (Result GraphError Graph) (ok g) (ok g')
    → HasNodes known g
    → HasNodes known g'
HasNodes-ok known g g' e h = subst (HasNodes known) {x = g} {y = g'} (ground (arith, e)) h

add_dependencies-HasNodes :
    (known : List Str) (id : Str) (deps : List Str) (g g' : Graph)
    → has known id ≡ true
    → HasNodes known g
    → add_dependencies known id deps g ≡ ok g'
    → HasNodes known g'
unfolding add_dependencies
add_dependencies-HasNodes known id [] g g' i h e = HasNodes-ok known g g' e h
add_dependencies-HasNodes known id (d ∷ deps) g g' i h e = elim (Bool-cases (has known d)) [
  | inl there ↦
      add_dependencies-HasNodes known id deps (add_edge d id g) g' i
        (add_edge-HasNodes known d id g there i h) (ground (arith, e, there))
  | inr missing ↦ absurd (ground (arith, e, missing))
]

add_all-HasNodes :
    (known : List Str) (js : List Job) (g g' : Graph)
    → All (λ (j : Job). has known j.id ≡ true) js
    → HasNodes known g
    → add_all known js g ≡ ok g'
    → HasNodes known g'
unfolding add_all
add_all-HasNodes known [] g g' a h e = HasNodes-ok known g g' e h
add_all-HasNodes known (j ∷ js) g g' a h e =
    elim (Result-cases (add_dependencies known j.id j.depends_on g)) [
      | inl (g1, e1) ↦
          add_all-HasNodes known js g1 g' a.1
            (add_dependencies-HasNodes known j.id j.depends_on g g1 a.0 h e1)
            (ground (arith, e, e1))
      | inr (x, e1) ↦ absurd (ground (arith, e, e1))
    ]

has-ids : (j : Job) (js : List Job) → In j js → has (ids js) j.id ≡ true
has-ids j [] i = elim i [ ]
has-ids j (k ∷ js) (inl e) =
    let self : str_eq j.id j.id || has (ids js) j.id ≡ true = rw (str_eq_refl j.id) refl in
    subst (λ (q : Job). has (ids (q ∷ js)) j.id ≡ true) {x = j} {y = k} (sym e) self
has-ids j (k ∷ js) (inr i) = ground (arith, has-ids j js i)

-- The loop over the dependencies leaves the nodes that the loop over the jobs has added.
pub built-HasNodes :
    (jobs : List Job) (g : Graph)
    → add_all (ids jobs) jobs (add_nodes jobs new_graph) ≡ ok g
    → HasNodes (ids jobs) g
built-HasNodes jobs g e =
    add_all-HasNodes (ids jobs) jobs (add_nodes jobs new_graph) g
      (→All (λ (j : Job). has (ids jobs) j.id ≡ true) jobs (λ j i. has-ids j jobs i))
      (add_nodes-HasNodes jobs) e
