-- ===== src/Job/Graph/Edges.antt =====
-- The two adjacency maps of internal/job/dag.go agree, and a graph is built of known jobs only.
use cronflux.Common.{
  ◌≡◌, refl, ap, ◌∙◌, List, [], ◌∷◌, Bool, true, false, ◌||◌, ◌&&◌, Str, str_eq, str_eq_iff, Result,
  ok, err, arith, if◌then◌else◌, Bool-cases, Result-cases, inl, inr, All, subst, ◌⊎◌,
}
use cronflux.Common.Dict.{Dict, lookup, lookup-insert}
use cronflux.Job.{Job}
use cronflux.Job.Graph.Keys.{has-add_key}
use cronflux.Job.Graph.{
  Graph, GraphError, has, add_key, get_keys, ensure_key, add_node, add_to, add_edge, dependencies,
  dependents, add_dependencies, add_all, ids, build_graph, topo_sort, and_sorted, add_nodes,
  new_graph,
}

pub get_keys-ensure_key :
    (k j : Str) (m : Dict (List Str)) → get_keys j (ensure_key k m) ≡ get_keys j m
unfolding get_keys ensure_key
get_keys-ensure_key k j m = ground (arith, lookup-insert k j [] m, str_eq_iff k j)

pub get_keys-add_to :
    (k x j : Str) (m : Dict (List Str))
    → get_keys j (add_to k x m) ≡ (if str_eq k j then add_key x (get_keys k m) else get_keys j m)
unfolding get_keys add_to
get_keys-add_to k x j m = ground (arith, lookup-insert k j (add_key x (get_keys k m)) m)

abbrev with_nodes : Str → Str → Graph → Graph
with_nodes s t g = add_node t (add_node s g)

pub add_node-dependencies :
    (id : Str) (g : Graph) (k : Str) → dependencies (add_node id g) k ≡ dependencies g k
unfolding add_node
add_node-dependencies id g k = get_keys-ensure_key id k g.parents

pub add_node-dependents :
    (id : Str) (g : Graph) (k : Str) → dependents (add_node id g) k ≡ dependents g k
unfolding add_node
add_node-dependents id g k = get_keys-ensure_key id k g.children

-- A key that is added to one list of the map.
has-add_to :
    (k x j y : Str) (m : Dict (List Str))
    → has (get_keys j (add_to k x m)) y ≡ ((str_eq k j && str_eq x y) || has (get_keys j m) y)
has-add_to k x j y m =
    ground (arith, get_keys-add_to k x j m, has-add_key x y (get_keys k m), str_eq_iff k j)

pub dependencies-add_edge :
    (s t : Str) (g : Graph) (p c : Str)
    → has (dependencies (add_edge s t g) c) p
      ≡ ((str_eq t c && str_eq s p) || has (dependencies g c) p)
unfolding add_edge
dependencies-add_edge s t g p c =
    has-add_to t s c p (with_nodes s t g).parents
    ∙ ap (λ (xs : List Str). (str_eq t c && str_eq s p) || has xs p)
        (add_node-dependencies t (add_node s g) c ∙ add_node-dependencies s g c)

pub dependents-add_edge :
    (s t : Str) (g : Graph) (p c : Str)
    → has (dependents (add_edge s t g) p) c ≡ ((str_eq s p && str_eq t c) || has (dependents g p) c)
unfolding add_edge
dependents-add_edge s t g p c =
    has-add_to s t p c (with_nodes s t g).children
    ∙ ap (λ (xs : List Str). (str_eq s p && str_eq t c) || has xs c)
        (add_node-dependents t (add_node s g) p ∙ add_node-dependents s g p)

-- The graph's edges, seen from either end, are those of `edge`.
abbrev pub HasEdges : (Str → Str → Bool) → Graph → Type 0
HasEdges edge g =
    (p c : Str) → (has (dependencies g c) p ≡ edge p c) × (has (dependents g p) c ≡ edge p c)

add_node-HasEdges :
    (edge : Str → Str → Bool) (id : Str) (g : Graph)
    → HasEdges edge g
    → HasEdges edge (add_node id g)
add_node-HasEdges edge id g h p c = (
  ap (λ (xs : List Str). has xs p) (add_node-dependencies id g c) ∙ (h p c).0,
  ap (λ (xs : List Str). has xs c) (add_node-dependents id g p) ∙ (h p c).1,
)

add_edge-HasEdges :
    (edge : Str → Str → Bool) (s t : Str) (g : Graph)
    → HasEdges edge g
    → HasEdges (λ p c. (str_eq t c && str_eq s p) || edge p c) (add_edge s t g)
add_edge-HasEdges edge s t g h p c = (
  dependencies-add_edge s t g p c ∙ ap (λ (b : Bool). (str_eq t c && str_eq s p) || b) (h p c).0,
  ground (arith, dependents-add_edge s t g p c, (h p c).1),
)

pub add_nodes-HasEdges :
    (edge : Str → Str → Bool) (js : List Job) (g : Graph)
    → HasEdges edge g
    → HasEdges edge (add_nodes js g)
unfolding add_nodes
add_nodes-HasEdges edge [] g h = h
add_nodes-HasEdges edge (j ∷ js) g h =
    add_nodes-HasEdges edge js (add_node j.id g) (add_node-HasEdges edge j.id g h)

-- What the jobs declare: `c` is a job that names `p` among its dependencies.
abbrev pub declares : List Job → Str → Str → Bool
declares [] p c = false
declares (j ∷ js) p c = (str_eq j.id c && has j.depends_on p) || declares js p c

HasEdges-same :
    (edge edge' : Str → Str → Bool) (g : Graph)
    → ((p c : Str) → edge p c ≡ edge' p c)
    → HasEdges edge g
    → HasEdges edge' g
HasEdges-same edge edge' g same h p c = ((h p c).0 ∙ same p c, (h p c).1 ∙ same p c)

skip_empty : (a b : Bool) → b ≡ ((a && false) || b)
skip_empty a b = ground arith

regroup : (a b c e : Bool) → ((a && c) || ((a && b) || e)) ≡ ((a && (b || c)) || e)
regroup a b c e = ground arith

reorder : (a b c : Bool) → (b || (a || c)) ≡ ((a || b) || c)
reorder a b c = ground arith

pub or_false : (a : Bool) → (a || false) ≡ a
or_false a = ground arith

topo_sort-cases :
    (g : Graph)
    → ((order : List Str) × (topo_sort g ≡ ok order)) ⊎ ((x : GraphError) × (topo_sort g ≡ err x))
topo_sort-cases g = Result-cases (topo_sort g)

and_sorted-ok : (r : Result GraphError Graph) {g : Graph} → and_sorted r ≡ ok g → r ≡ ok g
and_sorted-ok (err x) e = absurd (ground (arith, e))
and_sorted-ok (ok g) e = elim (topo_sort-cases g) [
  | inl (order, sorted) ↦ ground (arith, e, sorted)
  | inr (x, sorted) ↦ absurd (ground (arith, e, sorted))
]

HasEdges-ok :
    (edge : Str → Str → Bool) (g g' : Graph)
    → Path (Result GraphError Graph) (ok g) (ok g')
    → HasEdges edge g
    → HasEdges edge g'
HasEdges-ok edge g g' e h = subst (HasEdges edge) {x = g} {y = g'} (ground (arith, e)) h

abbrev AllKnown : List Str → List Str → Type 0
AllKnown known deps = All (λ d. has known d ≡ true) deps

add_dependencies-HasEdges :
    (edge : Str → Str → Bool) (known : List Str) (id : Str) (deps : List Str) (g : Graph)
    {g' : Graph}
    → HasEdges edge g
    → add_dependencies known id deps g ≡ ok g'
    → HasEdges (λ p c. (str_eq id c && has deps p) || edge p c) g' × AllKnown known deps
unfolding add_dependencies
add_dependencies-HasEdges edge known id [] g {g'} h e = (
  HasEdges-ok _ g g' e (HasEdges-same edge _ g (λ p c. skip_empty (str_eq id c) (edge p c)) h),
  tt,
)
add_dependencies-HasEdges edge known id (d ∷ deps) g {g'} h e = elim (Bool-cases (has known d)) [
  | inl declared ↦
      let (edges, rest) =
        add_dependencies-HasEdges (λ p c. (str_eq id c && str_eq d p) || edge p c) known id deps
          (add_edge d id g) {g' = g'} (add_edge-HasEdges edge d id g h)
          (ground (arith, e, declared)) in
      (
        HasEdges-same _ _ g' (λ p c. regroup (str_eq id c) (str_eq d p) (has deps p) (edge p c))
            edges,
        (declared, rest),
      )
  | inr missing ↦ absurd (ground (arith, e, missing))
]

-- Every dependency that a job names is an ID of `known`.
abbrev pub AllDeclared : List Str → List Job → Type 0
AllDeclared known jobs = All (λ j. All (λ d. has known d ≡ true) j.depends_on) jobs

pub add_all-HasEdges :
    (edge : Str → Str → Bool) (known : List Str) (js : List Job) (g : Graph) {g' : Graph}
    → HasEdges edge g
    → add_all known js g ≡ ok g'
    → HasEdges (λ p c. declares js p c || edge p c) g' × AllDeclared known js
unfolding add_all
add_all-HasEdges edge known [] g {g'} h e = (HasEdges-ok edge g g' e h, tt)
add_all-HasEdges edge known (j ∷ js) g {g'} h e =
    elim (Result-cases (add_dependencies known j.id j.depends_on g)) [
      | inl (g1, e1) ↦
          let (edges1, known1) =
            add_dependencies-HasEdges edge known j.id j.depends_on g {g' = g1} h e1 in
          let (edges, rest) =
            add_all-HasEdges (λ p c. (str_eq j.id c && has j.depends_on p) || edge p c) known js g1
              {g' = g'} edges1 (ground (arith, e, e1)) in
          (
            HasEdges-same _ _ g'
                (λ p c. reorder (str_eq j.id c && has j.depends_on p) (declares js p c) (edge p c))
                edges,
            (known1, rest),
          )
      | inr (x, e1) ↦ absurd (ground (arith, e, e1))
    ]

pub new_graph-HasEdges : HasEdges (λ p c. false) new_graph
unfolding get_keys lookup
new_graph-HasEdges p c = (refl, refl)

-- A graph that is built of jobs has an edge from `p` to `c` exactly where a job `c` declares the
-- dependency `p`, both in the dependencies of `c` and in the dependents of `p`, and every dependency
-- that a job declares is the ID of one of the jobs.
pub build_graph-HasEdges :
    (jobs : List Job) (g : Graph)
    → build_graph jobs ≡ ok g
    → HasEdges (declares jobs) g × AllDeclared (ids jobs) jobs
unfolding build_graph
build_graph-HasEdges jobs g e =
    let (edges, known) =
      add_all-HasEdges (λ p c. false) (ids jobs) jobs (add_nodes jobs new_graph) {g' = g}
        (add_nodes-HasEdges (λ p c. false) jobs new_graph new_graph-HasEdges)
        (and_sorted-ok (add_all (ids jobs) jobs (add_nodes jobs new_graph)) e) in
    (HasEdges-same _ _ g (λ p c. or_false (declares jobs p c)) edges, known)
