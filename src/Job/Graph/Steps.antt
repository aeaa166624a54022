-- ===== src/Job/Graph/Steps.antt =====
-- A round of the loop of `TopoSort` in internal/job/dag.go keeps what the rounds have reached, and
-- the loop ends with an empty queue.
use cronflux.Common.{
  ℕ, zero, suc, ◌+◌, ◌≤◌, ◌≡◌, refl, ap, ◌∙◌, subst, List, [], ◌∷◌, ◌++◌, Bool, true, false, ◌||◌,
  ◌&&◌, Str, str_lt, str_eq_iff, str_eq_refl, ℤ, pos, arith, if◌then◌else◌, Bool-cases, ◌⊎◌, inl,
  inr, length, length-append, ◌==◌,
}
use cronflux.Common.Dict.{Dict}
use cronflux.Common.Sort.{sort_by}
use cronflux.Job.Graph.{
  Graph, has, dependencies, dependents, get_degree, decrement, is_zero, relax, take_sources,
}
use cronflux.Job.Graph.Keys.{
  missing, missing-append_one, missing-zero, has-append_one, append_one-IsOnce, has-sort_by,
  sort_by-IsOnce, IsOnce-length,
}
use cronflux.Job.Graph.Rounds.{
  IsConsistent, Reached, Follows, relax-get_degree, relax-has, relax-IsOnce,
}

Follows-append_one :
    (g : Graph) (before xs : List Str) (n : Str)
    → Follows g before xs
    → ((d : Str) → has (dependencies g n) d ≡ true → (has before d || has xs d) ≡ true)
    → Follows g before (xs ++ n ∷ [])
Follows-append_one g before [] n f last = (λ d h. ground (arith, last d h), tt)
Follows-append_one g before (x ∷ xs) n f last = (
  f.0,
  Follows-append_one g (before ++ x ∷ []) xs n f.1
      λ d h. ground (arith, has-append_one before x d, last d h),
)

List-cases : (xs : List Str) → (xs ≡ []) ⊎ ((n : Str) × (rest : List Str) × (xs ≡ n ∷ rest))
List-cases [] = inl refl
List-cases (n ∷ rest) = inr (n, rest, refl)

module _ (g : Graph) (v : IsConsistent g) where
  module _ (degrees : Dict ℤ) (n : Str) (rest order : List Str)
      (r : Reached g degrees (n ∷ rest) order) where
    next_node :
        (has g.nodes n ≡ true) × (missing order (dependencies g n) ≡ 0) × (has order n ≡ false)
    next_node = (
      ground (arith, r.waiting n, str_eq_refl n),
      ground (arith, r.waiting n, str_eq_refl n),
      ground (arith, r.apart n, str_eq_refl n),
    )

    -- The dependencies of another node that are still missing.
    missing_after :
        (id : Str)
        → missing order (dependencies g id) ≡ (
            if has (dependents g n) id
            then suc (missing (order ++ n ∷ []) (dependencies g id))
            else missing (order ++ n ∷ []) (dependencies g id))
    missing_after id =
        missing-append_one order n (dependencies g id) next_node.2 (v.dependencies_once id)
        ∙ ground (arith, v.agree n id)

    child_waits :
        (c : Str) → has (dependents g n) c ≡ true → (has order c || has (n ∷ rest) c) ≡ false
    child_waits c h = ground (arith, missing_after c, r.waiting c, h)

    child_known : (c : Str) → has (dependents g n) c ≡ true → has g.nodes c ≡ true
    child_known c h = ground (arith, v.known n c, v.agree n c, h)

    child_zero :
        (id : Str)
        → (has (dependents g n) id && is_zero (decrement (get_degree id degrees)))
          ≡ (has (dependents g n) id && (missing (order ++ n ∷ []) (dependencies g id) == 0))
    child_zero id = elim (Bool-cases (has (dependents g n) id)) [
      | inr e ↦ ground (arith, e)
      | inl e ↦
          let degree : get_degree id degrees
              ≡ pos (suc (missing (order ++ n ∷ []) (dependencies g id))) =
            r.degree id (child_known id e) ∙ ap pos (missing_after id ∙ rw e refl) in
          rw (e, degree) refl
    ]

    has-relax :
        (id : Str)
        → has (relax (dependents g n) degrees rest).1 id ≡ (
            has rest id
            || (has (dependents g n) id && (missing (order ++ n ∷ []) (dependencies g id) == 0)))
    has-relax id =
        relax-has (dependents g n) degrees rest id (v.dependents_once n)
        ∙ ap (λ (b : Bool). has rest id || b) (child_zero id)

    step-Reached :
        Reached g
          (relax (dependents g n) degrees rest).0
          (relax (dependents g n) degrees rest).1
          (order ++ n ∷ [])
    step-Reached = record {
      degree = λ id h.
          relax-get_degree (dependents g n) degrees rest id (v.dependents_once n)
          ∙ ground (arith, missing_after id, r.degree id h);
      waiting = λ id. ground (
        arith,
        has-relax id,
        has-append_one order n id,
        r.waiting id,
        missing_after id,
        child_known id,
      );
      apart = λ id h. ground (
        arith,
        has-relax id,
        has-append_one order n id,
        r.apart id,
        r.waiting id,
        missing_after id,
        r.queue_once.0,
        str_eq_iff n id,
        next_node.1,
        h,
      );
      queue_once =
          relax-IsOnce (dependents g n) degrees rest (v.dependents_once n) r.queue_once.1
            λ c h. ground (arith, child_waits c h);
      order_once = append_one-IsOnce order n r.order_once next_node.2;
      follows =
          Follows-append_one g [] order n r.follows
            λ d h. missing-zero order (dependencies g n) next_node.1 d h;
    }

  sorted-Reached :
      (degrees : Dict ℤ) (queue order : List Str)
      → Reached g degrees queue order
      → Reached g degrees (sort_by str_lt queue) order
  sorted-Reached degrees queue order r = record {
    degree = r.degree;
    waiting = λ id. ap (λ (b : Bool). has order id || b) (has-sort_by queue id) ∙ r.waiting id;
    apart = λ id h. has-sort_by queue id ∙ r.apart id h;
    queue_once = sort_by-IsOnce queue r.queue_once;
    order_once = r.order_once;
    follows = r.follows;
  }

  -- A complete order leaves nothing in the queue.
  complete-queue :
      (degrees : Dict ℤ) (queue order : List Str)
      → Reached g degrees queue order
      → length order ≡ length g.nodes
      → queue ≡ []
  complete-queue degrees [] order r full = refl
  complete-queue degrees (n ∷ rest) order r full =
      let next = next_node degrees n rest order r in
      let few : length (order ++ n ∷ []) ≤ length g.nodes =
        IsOnce-length (order ++ n ∷ []) g.nodes (append_one-IsOnce order n r.order_once next.2)
          λ x h. ground (arith, has-append_one order n x, r.waiting x, next.0, str_eq_iff n x, h) in
      absurd (omega (arith, few, length-append order (n ∷ []), full))

  pub take_sources-Reached :
      (fuel : ℕ) (degrees : Dict ℤ) (queue order : List Str)
      → Reached g degrees queue order
      → length order + fuel ≡ length g.nodes
      → (degrees' : Dict ℤ) × Reached g degrees' [] (take_sources fuel g degrees queue order)
  unfolding take_sources
  take_sources-Reached zero degrees queue order r full = (
    degrees,
    subst (λ q. Reached g degrees q order)
        (complete-queue degrees queue order r (omega (arith, full))) r,
  )
  take_sources-Reached (suc fuel) degrees queue order r full =
      elim (List-cases (sort_by str_lt queue)) [
        | inl e ↦
            rw (e, take_sources)
              (
                degrees,
                subst (λ q. Reached g degrees q order) e (sorted-Reached degrees queue order r),
              )
        | inr (n, rest, e) ↦
            let r' : Reached g degrees (n ∷ rest) order =
              subst (λ q. Reached g degrees q order) e (sorted-Reached degrees queue order r) in
            rw (e, take_sources)
              (take_sources-Reached fuel (relax (dependents g n) degrees rest).0
                (relax (dependents g n) degrees rest).1 (order ++ n ∷ [])
                (step-Reached degrees n rest order r')
                (omega (arith, length-append order (n ∷ []), full)))
      ]
