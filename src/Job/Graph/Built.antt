-- ===== src/Job/Graph/Built.antt =====
-- The graphs that `AddNode` and `AddEdge` of internal/job/dag.go build, and their topological order.
use cronflux.Common.{
  ℕ, ◌≡◌, refl, sym, ap, ◌∙◌, List, [], ◌∷◌, ◌||◌, Str, str_eq, ok, err, arith, Bool-cases, inl,
  inr, subst, ◌⊎◌,
}
use cronflux.Common.Dict.{Dict, lookup}
use cronflux.Job.Graph.{
  Graph, cycle, has, new_graph, add_node, add_edge, add_to, get_keys, topo_sort,
}
use cronflux.Job.Graph.Keys.{IsOnce, has-add_key, add_key-IsOnce}
use cronflux.Job.Graph.Edges.{
  get_keys-add_to, add_node-dependencies, add_node-dependents, dependencies-add_edge,
  dependents-add_edge,
}
use cronflux.Job.Graph.Rounds.{IsConsistent}
use cronflux.Job.Graph.Order.{Ranks, IsTopological, topo_sort-decides}

-- A call that extends a graph.
pub data Change : Type 0 where
  node : Str → Change
  edge : Str → Str → Change

abbrev pub extend : Graph → List Change → Graph
extend g [] = g
extend g (node id ∷ cs) = extend (add_node id g) cs
extend g (edge s t ∷ cs) = extend (add_edge s t g) cs

pub new_graph-IsConsistent : IsConsistent new_graph
unfolding get_keys lookup
new_graph-IsConsistent = record {
  nodes_once = tt;
  agree = λ p c. refl;
  known = λ p c h. absurd (ground (arith, h));
  dependencies_once = λ c. tt;
  dependents_once = λ p. tt;
}

pub has-add_node :
    (id : Str) (g : Graph) (x : Str) → has (add_node id g).nodes x ≡ (str_eq id x || has g.nodes x)
unfolding add_node
has-add_node id g x = has-add_key id x g.nodes

pub add_node-IsConsistent : (id : Str) (g : Graph) → IsConsistent g → IsConsistent (add_node id g)
unfolding add_node
add_node-IsConsistent id g v = record {
  nodes_once = add_key-IsOnce id g.nodes v.nodes_once;
  agree = λ p c.
      ap (λ (xs : List Str). has xs c) (add_node-dependents id g p)
      ∙ (v.agree p c ∙ sym (ap (λ (xs : List Str). has xs p) (add_node-dependencies id g c)));
  known = λ p c h. ground (
    arith,
    v.known p c (sym (ap (λ (xs : List Str). has xs p) (add_node-dependencies id g c)) ∙ h),
    has-add_node id g p,
    has-add_node id g c,
  );
  dependencies_once =
      λ c. subst IsOnce (sym (add_node-dependencies id g c)) (v.dependencies_once c);
  dependents_once = λ p. subst IsOnce (sym (add_node-dependents id g p)) (v.dependents_once p);
}

-- A key that is put into one list of the map.
add_to-IsOnce :
    (k x j : Str) (m : Dict (List Str))
    → ((i : Str) → IsOnce (get_keys i m))
    → IsOnce (get_keys j (add_to k x m))
add_to-IsOnce k x j m o = elim (Bool-cases (str_eq k j)) [
  | inl same ↦
      subst IsOnce (sym (get_keys-add_to k x j m ∙ rw same refl))
        (add_key-IsOnce x (get_keys k m) (o k))
  | inr other ↦ subst IsOnce (sym (get_keys-add_to k x j m ∙ rw other refl)) (o j)
]

pub add_edge-IsConsistent : (s t : Str) (g : Graph) → IsConsistent g → IsConsistent (add_edge s t g)
unfolding add_edge
add_edge-IsConsistent s t g v =
    let v' = add_node-IsConsistent t (add_node s g) (add_node-IsConsistent s g v) in
    record {
      nodes_once = v'.nodes_once;
      agree = λ p c.
          dependents-add_edge s t g p c
          ∙ ground (arith, v.agree p c, dependencies-add_edge s t g p c);
      known = λ p c h. ground (
        arith,
        dependencies-add_edge s t g p c,
        v.known p c,
        has-add_node t (add_node s g) p,
        has-add_node s g p,
        has-add_node t (add_node s g) c,
        has-add_node s g c,
        h,
      );
      dependencies_once =
          λ c. add_to-IsOnce t s c (add_node t (add_node s g)).parents v'.dependencies_once;
      dependents_once =
          λ p. add_to-IsOnce s t p (add_node t (add_node s g)).children v'.dependents_once;
    }

extend-IsConsistent : (cs : List Change) (g : Graph) → IsConsistent g → IsConsistent (extend g cs)
extend-IsConsistent [] g v = v
extend-IsConsistent (node id ∷ cs) g v =
    extend-IsConsistent cs (add_node id g) (add_node-IsConsistent id g v)
extend-IsConsistent (edge s t ∷ cs) g v =
    extend-IsConsistent cs (add_edge s t g) (add_edge-IsConsistent s t g v)

-- On any graph that AddNode and AddEdge built, TopoSort either answers with an order in which each
-- node stands once and after all its dependencies, or with ErrCycle, and then no numbering of the
-- nodes grows along every edge.
pub topo_sort-extend :
    (cs : List Change)
    → let g = extend new_graph cs in
      ((order : List Str) × (topo_sort g ≡ ok order) × IsTopological g order)
      ⊎ ((topo_sort g ≡ err cycle) × ((rank : Str → ℕ) → ¬ Ranks g rank))
topo_sort-extend cs =
    topo_sort-decides (extend new_graph cs)
      (extend-IsConsistent cs new_graph new_graph-IsConsistent)
