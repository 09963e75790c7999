-- ===== src/Sysdeps/Balance.antt =====
-- Each step of the resolver (fabric/services/sysdeps.py) moves a dependency to or from its place as
-- it makes it pending or settles it.
use ovn_fabric.Prelude.{
  ◌+◌, ◌≤◌, String, ◌≡◌, sym, ap, true, ◌||◌, none, some, List, [], ◌∷◌, ◌++◌, any, any-append,
  contains, arith, str_eq, Bool-cases, inl, inr,
}
use ovn_fabric.Sysdeps.Manager.{Manager}
use ovn_fabric.Sysdeps.Worker.{install_deps, settled_by}
use ovn_fabric.Sysdeps.Requests.{
  Job, install_job, refresh_job, Request, Resolver, opened, found_ready, joins, pend, enqueued,
  time_out, work,
}
use ovn_fabric.Sysdeps.Steps.{
  Step, arrive, look, join, enqueue, cancel, expire, leave, come_due, take_job, end_job,
}
use ovn_fabric.Sysdeps.Counts.{
  one_if, count, count-append, count-contained, count-missing, contains-append, str_eq-eq,
}
use ovn_fabric.Sysdeps.Settling.{names-settled_by}
use ovn_fabric.Sysdeps.Places.{
  in_queue, in_current, in_request, in_requests, places, waits, in_queue-append, in_requests-append,
  in_queue-put_job, places-finish_all, pending-finish_all,
}

-- As many places more as it is pending more.
abbrev pub IsBalanced : String → Resolver → Resolver → Type 0
IsBalanced d r s =
    places d s + one_if (contains r.pending d) ≡ places d r + one_if (contains s.pending d)

same_pending :
    (pending : List String) (dep d : String)
    → str_eq dep d ≡ true
    → contains pending d ≡ contains pending dep
same_pending pending dep d f = ap (contains pending) (sym (str_eq-eq dep d f))

pub contains-pend :
    (d dep : String) (pending : List String)
    → contains (pend dep pending) d ≡ (contains pending d || str_eq dep d)
unfolding pend
contains-pend d dep pending = elim (Bool-cases (contains pending dep)) [
  | inl e ↦ ground (arith, e, same_pending pending dep d)
  | inr e ↦ ground (arith, e, contains-append d pending (dep ∷ []))
]

-- The requests around the one that takes a step.
module _ (d : String) (before after : List Request) where
  pub in_requests_around :
      (r : Resolver) (a b : Request)
      → r.requests ≡ before ++ (a ∷ after)
      → in_requests d (before ++ (b ∷ after)) + in_request d a
        ≡ in_requests d r.requests + in_request d b
  unfolding in_requests
  in_requests_around r a b e = ground (
    arith,
    ap (in_requests d) e,
    in_requests-append d before (a ∷ after),
    in_requests-append d before (b ∷ after),
  )

  pub waits_around :
      (r : Resolver) (a b : Request)
      → r.requests ≡ before ++ (a ∷ after)
      → any (waits d) (before ++ (b ∷ after)) ≡ true
      → (any (waits d) r.requests || waits d b) ≡ true
  waits_around r a b e h = ground (
    arith,
    ap (any (waits d)) e,
    any-append (waits d) before (a ∷ after),
    any-append (waits d) before (b ∷ after),
  )

  -- The one that takes the step is among the requests.
  pub waits_here :
      (r : Resolver) (a : Request)
      → r.requests ≡ before ++ (a ∷ after)
      → waits d a ≡ true
      → any (waits d) r.requests ≡ true
  waits_here r a e h = ground (arith, ap (any (waits d)) e, any-append (waits d) before (a ∷ after))

-- The end of a job.
pub work-IsBalanced :
    (m : Manager) (job : Job) (r : Resolver) (d : String)
    → r.current ≡ some job
    → places d r ≤ one_if (contains r.pending d)
    → IsBalanced d r (work m job r)
unfolding work
work-IsBalanced m (install_job deps) r d e h =
    let ss = settled_by deps (install_deps m deps r.shop).0 in
    let s = record r { current = none; shop = (install_deps m deps r.shop).1 } in
    ground (
      arith,
      h,
      ap (in_current d) e,
      places-finish_all d ss s,
      pending-finish_all d ss s,
      ap (λ ns. contains ns d) (names-settled_by m deps r.shop),
      count-contained d deps,
      count-missing d deps,
    )
work-IsBalanced m refresh_job r d e h = ground (arith, h, ap (in_current d) e)

-- A step that takes a request away before its job is in the queue.
dropped-places :
    (d : String) (r : Resolver) (before after : List Request) (a : Request)
    → r.requests ≡ before ++ (a ∷ after)
    → places d (record r { requests = before ++ after }) ≤ places d r
unfolding in_requests
dropped-places d r before after a e = ground (
  arith,
  ap (in_requests d) e,
  in_requests-append d before (a ∷ after),
  in_requests-append d before after,
)

-- A step takes a dependency to a place only as it makes it pending, and settles it only as it takes
-- it from one.
pub Step-places :
    {m : Manager} {r s : Resolver}
    → Step m r s
    → (d : String) → places d r ≤ one_if (contains r.pending d)
    → places d s + one_if (contains r.pending d) ≤ places d r + one_if (contains s.pending d)
unfolding in_requests in_queue count opened found_ready joins enqueued time_out
Step-places {r = r} (arrive deps ok) d h =
    ground (arith, h, in_requests-append d r.requests (opened deps ∷ []))
Step-places {r = r} (look before after a dep v rest e q t) d h =
    ground (arith, h, q, in_requests_around d before after r a (found_ready dep v rest a) e)
Step-places {r = r} (join before after a dep rest e q t) d h =
    let b = joins (contains r.pending dep) dep rest a in
    ground (
      arith,
      h,
      q,
      in_requests_around d before after r a b e,
      contains-pend d dep r.pending,
      count-append d a.missing (dep ∷ []),
      same_pending r.pending dep d,
    )
Step-places {r = r} (enqueue before after a e q t) d h = ground (
  arith,
  h,
  q,
  in_requests_around d before after r a (enqueued a) e,
  in_queue-put_job d a.missing r.queue,
)
Step-places {r = r} (cancel before after a e q) d h =
    omega (arith, dropped-places d r before after a e)
Step-places {r = r} (expire before after a e q) d h =
    ground (arith, h, q, in_requests_around d before after r a (time_out a) e)
Step-places {r = r} (leave before after a e q) d h = ground (
  arith,
  h,
  q,
  ap (in_requests d) e,
  in_requests-append d before (a ∷ after),
  in_requests-append d before after,
)
Step-places {r = r} (come_due dep known e) d h =
    ground (arith, h, in_queue-append d r.queue (refresh_job ∷ []))
Step-places {r = r} (take_job job rest e f) d h =
    ground (arith, h, ap (in_current d) e, ap (in_queue d) f)
Step-places {m} {r = r} (end_job job e) d h = omega (arith, work-IsBalanced m job r d e h)
