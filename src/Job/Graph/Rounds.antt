-- ===== src/Job/Graph/Rounds.antt =====
-- The loop of `TopoSort` in internal/job/dag.go, round by round.
use cronflux.Common.{
  ◌≡◌, refl, sym, ap, ◌∙◌, List, [], ◌∷◌, ◌++◌, Bool, true, false, ◌||◌, ◌&&◌, Option, none, some,
  Str, str_eq, str_eq_iff, str_eq_refl, ℤ, pos, arith, if◌then◌else◌, Bool-cases, inl, inr, length,
  ◌==◌,
}
use cronflux.Common.Dict.{Dict, lookup, insert, lookup-insert, IsMap, insert-IsMap}
use cronflux.Job.Graph.{
  Graph, has, dependencies, dependents, get_degree, decrement, is_zero, in_degrees, sources, relax,
}
use cronflux.Job.Graph.Keys.{IsOnce, missing, missing-nil, has-append_one, append_one-IsOnce}

-- The sets of a graph hold a key once, the adjacency maps agree, and every edge joins two nodes.
pub record IsConsistent (g : Graph) : Type 0 where
  pub nodes_once : IsOnce g.nodes
  pub agree : (p c : Str) → has (dependents g p) c ≡ has (dependencies g c) p
  pub known : (p c : Str) → has (dependencies g c) p ≡ true → has g.nodes p && has g.nodes c ≡ true
  pub dependencies_once : (c : Str) → IsOnce (dependencies g c)
  pub dependents_once : (p : Str) → IsOnce (dependents g p)

get_degree-insert :
    (k j : Str) (d : ℤ) (m : Dict ℤ)
    → get_degree j (insert k d m) ≡ (if str_eq k j then d else get_degree j m)
get_degree-insert k j d m = ground (arith, lookup-insert k j d m)

-- The loop over the children of a node.
pub relax-get_degree :
    (cs : List Str) (m : Dict ℤ) (queue : List Str) (id : Str)
    → IsOnce cs
    → get_degree id (relax cs m queue).0
      ≡ (if has cs id then decrement (get_degree id m) else get_degree id m)
unfolding relax
relax-get_degree [] m queue id o = refl
relax-get_degree (c ∷ cs) m queue id o =
    let d = decrement (get_degree c m) in
    relax-get_degree cs (insert c d m) (if is_zero d then queue ++ c ∷ [] else queue) id o.1
    ∙ ground (arith, get_degree-insert c id d m, o.0, str_eq_iff c id)

pub relax-has :
    (cs : List Str) (m : Dict ℤ) (queue : List Str) (id : Str)
    → IsOnce cs
    → has (relax cs m queue).1 id
      ≡ (has queue id || (has cs id && is_zero (decrement (get_degree id m))))
unfolding relax
relax-has [] m queue id o = ground arith
relax-has (c ∷ cs) m queue id o =
    let d = decrement (get_degree c m) in
    relax-has cs (insert c d m) (if is_zero d then queue ++ c ∷ [] else queue) id o.1
    ∙ ground (
      arith,
      get_degree-insert c id d m,
      has-append_one queue c id,
      o.0,
      str_eq_iff c id,
      str_eq_iff id c,
    )

-- The queue after one child.
queued : Bool → List Str → Str → List Str
queued b queue c = if b then queue ++ c ∷ [] else queue

queued-IsOnce :
    (b : Bool) (queue : List Str) (c : Str)
    → IsOnce queue
    → has queue c ≡ false
    → IsOnce (queued b queue c)
unfolding queued
queued-IsOnce true queue c q fresh = append_one-IsOnce queue c q fresh
queued-IsOnce false queue c q fresh = q

has-queued :
    (b : Bool) (queue : List Str) (c x : Str)
    → has (queued b queue c) x ≡ (has queue x || (b && str_eq c x))
unfolding queued
has-queued true queue c x = has-append_one queue c x
has-queued false queue c x = ground arith

pub relax-IsOnce :
    (cs : List Str) (m : Dict ℤ) (queue : List Str)
    → IsOnce cs
    → IsOnce queue
    → ((c : Str) → has cs c ≡ true → has queue c ≡ false)
    → IsOnce (relax cs m queue).1
unfolding relax queued
relax-IsOnce [] m queue o q new = q
relax-IsOnce (c ∷ cs) m queue o q new =
    let d = decrement (get_degree c m) in
    relax-IsOnce cs (insert c d m) (queued (is_zero d) queue c) o.1
      (queued-IsOnce (is_zero d) queue c q (new c (ground (arith, str_eq_refl c))))
      λ x h.
        ground (
          arith,
          has-queued (is_zero d) queue c x,
          new x (ground (arith, h)),
          str_eq_iff c x,
          o.0,
          h,
        )

-- What the loop starts from.
in_degrees-IsMap : (g : Graph) (ids : List Str) → IsMap (in_degrees g ids)
unfolding in_degrees
in_degrees-IsMap g [] = tt
in_degrees-IsMap g (id ∷ ids) =
    insert-IsMap id (pos (length (dependencies g id))) (in_degrees g ids) (in_degrees-IsMap g ids)

lookup-in_degrees :
    (g : Graph) (ids : List Str) (id : Str)
    → lookup id (in_degrees g ids)
      ≡ (if has ids id then some (pos (length (dependencies g id))) else none)
unfolding in_degrees lookup
lookup-in_degrees g [] id = refl
lookup-in_degrees g (k ∷ ids) id = ground (
  arith,
  lookup-insert k id (pos (length (dependencies g k))) (in_degrees g ids),
  lookup-in_degrees g ids id,
  str_eq_iff k id,
)

abbrev is_source : Option ℤ → Bool
is_source none = false
is_source (some d) = is_zero d

has-sources : (m : Dict ℤ) (id : Str) → IsMap m → has (sources m) id ≡ is_source (lookup id m)
unfolding sources lookup
has-sources [] id o = refl
has-sources ((k, d) ∷ m) id o = elim (Bool-cases (str_eq k id)) [
  | inl same ↦
      let gone : has (sources m) id ≡ false =
        ap (λ (x : Str). has (sources m) x) (sym ((str_eq_iff k id).0 same))
        ∙ (has-sources m k o.1 ∙ ap is_source o.0) in
      ground (arith, gone, same)
  | inr other ↦ ground (arith, has-sources m id o.1, other)
]

sources-IsOnce : (m : Dict ℤ) → IsMap m → IsOnce (sources m)
unfolding sources
sources-IsOnce [] o = tt
sources-IsOnce ((k, d) ∷ m) o = elim (Bool-cases (is_zero d)) [
  | inl e ↦ rw (e, sources) (has-sources m k o.1 ∙ ap is_source o.0, sources-IsOnce m o.1)
  | inr e ↦ rw (e, sources) (sources-IsOnce m o.1)
]

-- Where the loop stands after some rounds: the in-degrees count the dependencies that are not in the
-- order yet, the order and the queue hold the nodes of which none is missing, and each node of the
-- order comes after all its dependencies.
abbrev pub Follows : Graph → List Str → List Str → Type 0
Follows g before [] = Unit
Follows g before (x ∷ xs) =
    ((d : Str) → has (dependencies g x) d ≡ true → has before d ≡ true)
    × Follows g (before ++ x ∷ []) xs

pub record Reached (g : Graph) (degrees : Dict ℤ) (queue order : List Str) : Type 0 where
  pub degree :
      (id : Str)
      → has g.nodes id ≡ true
      → get_degree id degrees ≡ pos (missing order (dependencies g id))
  pub waiting :
      (id : Str)
      → (has order id || has queue id)
        ≡ (has g.nodes id && (missing order (dependencies g id) == 0))
  pub apart : (id : Str) → has order id ≡ true → has queue id ≡ false
  pub queue_once : IsOnce queue
  pub order_once : IsOnce order
  pub follows : Follows g [] order

module _ (g : Graph) (v : IsConsistent g) where
  pub start-Reached : Reached g (in_degrees g g.nodes) (sources (in_degrees g g.nodes)) []
  start-Reached =
      let m = in_degrees g g.nodes in
      record {
        degree = λ id h.
            ground (arith, lookup-in_degrees g g.nodes id, missing-nil (dependencies g id), h);
        waiting = λ id. ground (
          arith,
          has-sources m id (in_degrees-IsMap g g.nodes),
          lookup-in_degrees g g.nodes id,
          missing-nil (dependencies g id),
        );
        apart = λ id h. absurd (ground (arith, h));
        queue_once = sources-IsOnce m (in_degrees-IsMap g g.nodes);
        order_once = tt;
        follows = tt;
      }
