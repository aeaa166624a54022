-- ===== src/Tests/Graphs.antt =====
-- The theorems on the dependency graph.
use cronflux.Common.{ℕ, true, false, ◌≡◌, ◌⊎◌, List, [], ◌∷◌, Str, codes, ok, err}
use cronflux.Job.Graph.{Graph, build_graph, ids, cycle, unknown_dependency, has, topo_sort}
use cronflux.Job.Graph.Order.{IsTopological}
use cronflux.Job.Graph.Edges.{HasEdges, declares, AllDeclared}
use cronflux.Job.Graph.Jobs.{RanksJobs, build_graph-decides}
use cronflux.Job.{Job}
use cronflux.Tests.Fixtures.{job_a, job_b}

-- The second job depends on the first, and the first on itself through the second.
abbrev pair : List Job
pair = job_b ∷ record job_a { depends_on = codes "b" ∷ [] } ∷ []

build_graph-decides_example :
    ((g : Graph) × (build_graph pair ≡ ok g)
      × ((x : Str) → has g.nodes x ≡ has (ids pair) x)
      × HasEdges (declares pair) g
      × AllDeclared (ids pair) pair
      × ((order : List Str) × (topo_sort g ≡ ok order) × IsTopological g order))
    ⊎ ((id d : Str) × (build_graph pair ≡ err (unknown_dependency id d))
        × (declares pair d id ≡ true)
        × (has (ids pair) d ≡ false))
    ⊎ ((build_graph pair ≡ err cycle) × ((rank : Str → ℕ) → ¬ RanksJobs pair rank))
build_graph-decides_example = build_graph-decides pair
