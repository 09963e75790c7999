-- ===== src/Sysdeps/Drain.antt =====
-- The worker of fabric/services/sysdeps.py, once it has done what is in the queue: which requests
-- wait then.
use ovn_fabric.Prelude.{
  String, ◌≡◌, refl, ap, ◌∙◌, Bool, true, Option, none, some, List, [], ◌∷◌, map, any, all,
  contains, arith, Bool-cases, inl, inr,
}
use ovn_fabric.Sysdeps.Manager.{Manager, DepStatus, Shop}
use ovn_fabric.Sysdeps.Worker.{install_deps, settled_by}
use ovn_fabric.Sysdeps.Requests.{
  Job, install_job, refresh_job, Request, Resolver, receive, finish, finish_all, work,
}
use ovn_fabric.Sysdeps.Steps.{started, take_job, end_job, Reach, here, next}
use ovn_fabric.Sysdeps.Counts.{one_if}
use ovn_fabric.Sysdeps.Balance.{work-IsBalanced}
use ovn_fabric.Sysdeps.Lost.{IsLost}
use ovn_fabric.Sysdeps.Places.{in_queue, in_current, in_requests, waits}
use ovn_fabric.Sysdeps.Invariant.{Inv, IsPlaced, Step-Inv, Reach-Inv, started-Inv}

-- `while True: job = await self._queue.get()`, for the jobs that are there.
unfoldable pub work_queue : Manager → List Job → Resolver → Resolver
work_queue m [] r = r
work_queue m (job ∷ jobs) r =
    work_queue m jobs (work m job (record r { queue = jobs; current = some job }))

unfoldable pub work_current : Manager → Option Job → Resolver → Resolver
work_current m none r = r
work_current m (some job) r = work m job r

-- The worker has ended its job, and all that are in the queue.
unfoldable pub drained : Manager → Resolver → Resolver
unfolding work_current
drained m r = work_queue m r.queue (work_current m r.current r)

abbrev pub all_queued : Resolver → Bool
all_queued r = all (λ a. a.queued) r.requests

abbrev pub requested : Resolver → List (List String)
requested r = map (λ a. a.deps) r.requests

-- What the results of a job leave as it is.
record Kept (r s : Resolver) : Type 0 where
  queue : s.queue ≡ r.queue
  current : s.current ≡ r.current
  deps : requested s ≡ requested r
  queued : all_queued s ≡ all_queued r

Kept-trans : {r s t : Resolver} → Kept r s → Kept s t → Kept r t
Kept-trans h k = record {
  queue = k.queue ∙ h.queue;
  current = k.current ∙ h.current;
  deps = k.deps ∙ h.deps;
  queued = k.queued ∙ h.queued;
}

receive-kept :
    (status : DepStatus) (la : List Request)
    → (map (λ a. a.deps) (map (receive status) la) ≡ map (λ a. a.deps) la)
      × (all (λ a. a.queued) (map (receive status) la) ≡ all (λ a. a.queued) la)
unfolding receive
receive-kept status [] = (refl, refl)
receive-kept status (a ∷ la) = elim (Bool-cases (contains a.waiting status.dep)) [
  | inl e ↦ ground (arith, e, receive-kept status la)
  | inr e ↦ ground (arith, e, receive-kept status la)
]

finish-Kept : (status : DepStatus) (r : Resolver) → Kept r (finish status r)
unfolding finish
finish-Kept status r = elim (Bool-cases (contains r.pending status.dep)) [
  | inl e ↦ record {
    queue = refl;
    current = refl;
    deps = ground (arith, e, receive-kept status r.requests);
    queued = ground (arith, e, receive-kept status r.requests);
  }
  | inr e ↦ record {
    queue = refl;
    current = refl;
    deps = ground (arith, e);
    queued = ground (arith, e);
  }
]

finish_all-Kept : (ss : List DepStatus) (r : Resolver) → Kept r (finish_all ss r)
unfolding finish_all
finish_all-Kept [] r = record { queue = refl; current = refl; deps = refl; queued = refl }
finish_all-Kept (s ∷ ss) r = Kept-trans (finish-Kept s r) (finish_all-Kept ss (finish s r))

work-Kept :
    (m : Manager) (job : Job) (r : Resolver) → Kept (record r { current = none }) (work m job r)
unfolding work
work-Kept m (install_job deps) r =
    let h =
      finish_all-Kept (settled_by deps (install_deps m deps r.shop).0)
        (record r { current = none; shop = (install_deps m deps r.shop).1 }) in
    record { queue = h.queue; current = h.current; deps = h.deps; queued = h.queued }
work-Kept m refresh_job r = record { queue = refl; current = refl; deps = refl; queued = refl }

Reach-trans : {m : Manager} {r s t : Resolver} → Reach m r s → Reach m s t → Reach m r t
Reach-trans p here = p
Reach-trans p (next q st) = next (Reach-trans p q) st

-- The worker comes to the end of its queue.
record IsDone (m : Manager) (r s : Resolver) : Type 0 where
  path : Reach m r s
  kept : Kept (record r { queue = []; current = none }) s

work_queue-IsDone :
    (m : Manager) (jobs : List Job) (r : Resolver)
    → r.queue ≡ jobs
    → r.current ≡ none
    → IsDone m r (work_queue m jobs r)
unfolding work_queue
work_queue-IsDone m [] r e f = record {
  path = here;
  kept = record { queue = e; current = f; deps = refl; queued = refl };
}
work_queue-IsDone m (job ∷ jobs) r e f =
    let s = record r { queue = jobs; current = some job } in
    let h = work-Kept m job s in
    let rest = work_queue-IsDone m jobs (work m job s) h.queue h.current in
    record {
      path = Reach-trans (next (next here (take_job job jobs f e)) (end_job job refl)) rest.path;
      kept = record {
        queue = rest.kept.queue;
        current = rest.kept.current;
        deps = rest.kept.deps ∙ h.deps;
        queued = rest.kept.queued ∙ h.queued;
      };
    }

work_current-IsDone :
    (m : Manager) (r : Resolver) (o : Option Job)
    → r.current ≡ o
    → IsDone m r (work_queue m r.queue (work_current m o r))
unfolding work_current
work_current-IsDone m r none e = work_queue-IsDone m r.queue r refl e
work_current-IsDone m r (some job) e =
    let h = work-Kept m job r in
    let rest = work_queue-IsDone m r.queue (work m job r) h.queue h.current in
    record {
      path = Reach-trans (next here (end_job job e)) rest.path;
      kept = record {
        queue = rest.kept.queue;
        current = rest.kept.current;
        deps = rest.kept.deps ∙ h.deps;
        queued = rest.kept.queued ∙ h.queued;
      };
    }

in_requests-queued :
    (d : String) (la : List Request) → all (λ a. a.queued) la ≡ true → in_requests d la ≡ 0
unfolding in_requests
in_requests-queued d [] h = refl
in_requests-queued d (a ∷ la) h = ground (arith, h, in_requests-queued d la)

-- Nothing stands anywhere, so what a request waits for is lost.
none_held :
    (r : Resolver)
    → Inv r
    → r.queue ≡ []
    → r.current ≡ none
    → all_queued r ≡ true
    → (d : String) → any (waits d) r.requests ≡ true
    → IsLost d r
unfolding in_queue
none_held r h q c a d w = record {
  pends = h.expected d w;
  nowhere =
      ground (arith, ap (in_queue d) q, ap (in_current d) c, in_requests-queued d r.requests a);
}

-- What is lost after a job was lost before it.
IsLost-work :
    (m : Manager) (job : Job) (r : Resolver) (d : String)
    → IsPlaced r
    → r.current ≡ some job
    → IsLost d (work m job r)
    → IsLost d r
IsLost-work m job r d h e lost =
    let moved = work-IsBalanced m job r d e (h d) in
    let now : one_if (contains (work m job r).pending d) ≡ 1 = ap one_if lost.pends in
    elim (Bool-cases (contains r.pending d)) [
      | inl p ↦ record { pends = p; nowhere = omega (arith, moved, lost.nowhere, now, ap one_if p) }
      | inr p ↦ absurd (omega (arith, moved, lost.nowhere, now, ap one_if p, h d))
    ]

IsLost-work_queue :
    (m : Manager) (jobs : List Job) (r : Resolver) (d : String)
    → Inv r
    → r.queue ≡ jobs
    → r.current ≡ none
    → IsLost d (work_queue m jobs r)
    → IsLost d r
unfolding work_queue in_queue
IsLost-work_queue m [] r d h e f lost = lost
IsLost-work_queue m (job ∷ jobs) r d h e f lost =
    let s = record r { queue = jobs; current = some job } in
    let k = work-Kept m job s in
    let taken = Step-Inv {m = m} (take_job job jobs f e) h in
    let later = IsLost-work m job s d taken.placed refl (
      IsLost-work_queue m jobs (work m job s) d (Step-Inv {m = m} (end_job job refl) taken) k.queue
        k.current lost) in
    record {
      pends = later.pends;
      nowhere = ground (arith, later.nowhere, ap (in_current d) f, ap (in_queue d) e);
    }

IsLost-work_current :
    (m : Manager) (r : Resolver) (o : Option Job) (d : String)
    → Inv r
    → r.current ≡ o
    → IsLost d (work_queue m r.queue (work_current m o r))
    → IsLost d r
unfolding work_current
IsLost-work_current m r none d h e lost = IsLost-work_queue m r.queue r d h refl e lost
IsLost-work_current m r (some job) d h e lost =
    let k = work-Kept m job r in
    IsLost-work m job r d h.placed e (
      IsLost-work_queue m r.queue (work m job r) d (Step-Inv {m = m} (end_job job e) h) k.queue
        k.current lost)

-- From every state that the resolver comes to and in which every request has put its job into the
-- queue, ending the current job and then those of the queue leads to a state with the same requests.
-- What one of them still waits for then was lost before: it was pending and no job held it, which a
-- request that is cancelled before it queues its job can cause.
pub drained-settles :
    (m : Manager) (shop : Shop) (r : Resolver)
    → Reach m (started shop) r
    → all_queued r ≡ true
    → Reach m r (drained m r)
      × (requested (drained m r) ≡ requested r)
      × ((d : String) → any (waits d) (drained m r).requests ≡ true → IsLost d r)
unfolding drained
drained-settles m shop r path a =
    let done = work_current-IsDone m r r.current refl in
    let inv = Reach-Inv path (started-Inv shop) in
    (
      done.path,
      done.kept.deps,
      λ d w. IsLost-work_current m r r.current d inv refl (
          none_held (drained m r) (Reach-Inv done.path inv) done.kept.queue done.kept.current
            (done.kept.queued ∙ a) d w),
    )
