-- ===== src/Job/Graph.antt =====
-- internal/job/dag.go: the dependency graph, its topological order and its construction. A
-- `map[string]bool` whose values are all true is the list of its keys. The maps are walked in the
-- order of their lists; the sort at the head of each round hides that order.
pub mod Keys
pub mod Rounds
pub mod Steps
pub mod Order
pub mod Built
pub mod Jobs
pub mod Edges
pub mod Nodes
use cronflux.Common.{
  ℕ, zero, suc, ◌-◌, List, [], ◌∷◌, ◌++◌, map, Bool, true, false, Option, none, some, Str, str_eq,
  str_lt, Result, ok, err, ℤ, pos, negsuc, ◌==◌, if◌then◌else◌, length, any,
}
use cronflux.Common.Dict.{Dict, lookup, insert}
use cronflux.Common.Sort.{sort_by}
use cronflux.Job.{Job}

pub record Graph : Type 0 where
  pub nodes : List Str
  pub parents : Dict (List Str)
  pub children : Dict (List Str)

-- `NewGraph`
abbrev pub new_graph : Graph
new_graph = record { nodes = []; parents = []; children = [] }

abbrev pub has : List Str → Str → Bool
has xs x = any (λ y. str_eq y x) xs

-- `m[x] = true`
unfoldable pub add_key : Str → List Str → List Str
add_key x xs = if has xs x then xs else xs ++ x ∷ []

-- `m[k]`, which is empty where the key is absent.
unfoldable pub get_keys : Str → Dict (List Str) → List Str
get_keys k m = elim (lookup k m) [ none ↦ [] | some xs ↦ xs ]

-- `if m[k] == nil { m[k] = map[string]bool{} }`
unfoldable pub ensure_key : Str → Dict (List Str) → Dict (List Str)
ensure_key k m = elim (lookup k m) [ none ↦ insert k [] m | some xs ↦ m ]

unfoldable pub add_node : Str → Graph → Graph
unfolding add_key ensure_key
add_node id g = record {
  nodes = add_key id g.nodes;
  parents = ensure_key id g.parents;
  children = ensure_key id g.children;
}

-- `m[k][x] = true`
unfoldable pub add_to : Str → Str → Dict (List Str) → Dict (List Str)
unfolding get_keys add_key
add_to k x m = insert k (add_key x (get_keys k m)) m

unfoldable pub add_edge : Str → Str → Graph → Graph
unfolding add_node add_to
add_edge source target g =
    let g' = add_node target (add_node source g) in
    record g' {
      children = add_to source target g'.children;
      parents = add_to target source g'.parents;
    }

-- `Dependencies` and `Dependents`
abbrev pub dependencies : Graph → Str → List Str
dependencies g id = get_keys id g.parents

abbrev pub dependents : Graph → Str → List Str
dependents g id = get_keys id g.children

pub data GraphError : Type 0 where
  cycle : GraphError
  unknown_dependency : Str → Str → GraphError

-- `n--`
abbrev pub decrement : ℤ → ℤ
decrement (pos zero) = negsuc 0
decrement (pos (suc n)) = pos n
decrement (negsuc n) = negsuc (suc n)

abbrev pub is_zero : ℤ → Bool
is_zero (pos n) = n == 0
is_zero (negsuc n) = false

abbrev pub get_degree : Str → Dict ℤ → ℤ
get_degree k m = elim (lookup k m) [ none ↦ pos 0 | some d ↦ d ]

unfoldable pub in_degrees : Graph → List Str → Dict ℤ
unfolding get_keys
in_degrees g [] = []
in_degrees g (id ∷ ids) = insert id (pos (length (get_keys id g.parents))) (in_degrees g ids)

unfoldable pub sources : Dict ℤ → List Str
sources [] = []
sources ((id, d) ∷ m) = let rest = sources m in if is_zero d then id ∷ rest else rest

-- The loop over the children of a node: the in-degrees and the queue after it.
unfoldable pub relax : List Str → Dict ℤ → List Str → Dict ℤ × List Str
relax [] degrees queue = (degrees, queue)
relax (child ∷ more) degrees queue =
    let d = decrement (get_degree child degrees) in
    relax more (insert child d degrees) (if is_zero d then queue ++ child ∷ [] else queue)

-- The loop over the queue. A round takes one node off the queue; the fuel is the number of nodes.
unfoldable pub take_sources : ℕ → Graph → Dict ℤ → List Str → List Str → List Str
unfolding relax get_keys
take_sources zero g degrees queue order = order
take_sources (suc fuel) g degrees queue order = elim (sort_by str_lt queue) [
  | [] ↦ order
  | n ∷ rest ↦
      let (degrees', queue') = relax (dependents g n) degrees rest in
      take_sources fuel g degrees' queue' (order ++ n ∷ [])
]

unfoldable pub topo_sort : Graph → Result GraphError (List Str)
unfolding in_degrees sources take_sources
topo_sort g =
    let degrees = in_degrees g g.nodes in
    let order = take_sources (length g.nodes) g degrees (sources degrees) [] in
    if length order == length g.nodes then ok order else err cycle

unfoldable pub add_nodes : List Job → Graph → Graph
unfolding add_node
add_nodes [] g = g
add_nodes (j ∷ js) g = add_nodes js (add_node j.id g)

-- The edges of one job; `known` holds the IDs of all jobs.
unfoldable pub add_dependencies : List Str → Str → List Str → Graph → Result GraphError Graph
unfolding add_edge
add_dependencies known id [] g = ok g
add_dependencies known id (dep ∷ deps) g =
    if has known dep
    then add_dependencies known id deps (add_edge dep id g)
    else err (unknown_dependency id dep)

unfoldable pub add_all : List Str → List Job → Graph → Result GraphError Graph
unfolding add_dependencies
add_all known [] g = ok g
add_all known (j ∷ js) g = elim (add_dependencies known j.id j.depends_on g) [
  | err e ↦ err e
  | ok g' ↦ add_all known js g'
]

abbrev pub ids : List Job → List Str
ids jobs = map (λ j. j.id) jobs

abbrev pub and_sorted : Result GraphError Graph → Result GraphError Graph
and_sorted (err e) = err e
and_sorted (ok g) = elim (topo_sort g) [ err e ↦ err e | ok order ↦ ok g ]

unfoldable pub build_graph : List Job → Result GraphError Graph
unfolding add_nodes add_all topo_sort
build_graph jobs = and_sorted (add_all (ids jobs) jobs (add_nodes jobs new_graph))
