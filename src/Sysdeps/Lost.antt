-- ===== src/Sysdeps/Lost.antt =====
-- A request of fabric/services/sysdeps.py that is cancelled before its job is in the queue.
use ovn_fabric.Prelude.{
  ◌+◌, ◌≤◌, String, ◌≡◌, refl, ap, ap₂, ◌∙◌, true, false, some, List, [], map, str_eq, ◌∷◌, ◌++◌,
  contains, arith, Bool-cases, inl, inr,
}
use ovn_fabric.Sysdeps.Manager.{Manager, DepStatus, Shop}
use ovn_fabric.Sysdeps.Requests.{
  Job, install_job, refresh_job, Request, Resolver, receive, finish, finish_all, work,
}
use ovn_fabric.Sysdeps.Steps.{started, Step, cancel, Reach, here, next, with_requests}
use ovn_fabric.Sysdeps.Counts.{one_if, count, count-contained, contains-without}
use ovn_fabric.Sysdeps.Places.{waits, in_current, places, in_requests, in_requests-append}
use ovn_fabric.Sysdeps.Settling.{names, names-settled_by}
use ovn_fabric.Sysdeps.Balance.{Step-places}
use ovn_fabric.Sysdeps.Invariant.{Inv, Reach-Inv, started-Inv}

-- It is pending, and nowhere: no job is to install it.
pub record IsLost (d : String) (r : Resolver) : Type 0 where
  pub pends : contains r.pending d ≡ true
  pub nowhere : places d r ≡ 0

Step-IsLost : {m : Manager} {r s : Resolver} (d : String) → Step m r s → IsLost d r → IsLost d s
Step-IsLost {r = r} {s = s} d st h =
    let moved = Step-places st d (omega (arith, h.nowhere)) in
    elim (Bool-cases (contains s.pending d)) [
      | inl e ↦ record { pends = e; nowhere = ground (arith, h.pends, h.nowhere, moved, e) }
      | inr e ↦ absurd (ground (arith, h.pends, h.nowhere, moved, e))
    ]

Reach-IsLost : {m : Manager} {r s : Resolver} (d : String) → Reach m r s → IsLost d r → IsLost d s
Reach-IsLost d here h = h
Reach-IsLost d (next path st) h = Step-IsLost d st (Reach-IsLost d path h)

dropped-IsLost :
    (r : Resolver) (before after : List Request) (a : Request) (d : String)
    → Inv r
    → r.requests ≡ before ++ (a ∷ after)
    → a.queued ≡ false
    → contains a.missing d ≡ true
    → IsLost d (with_requests (before ++ after) r)
unfolding in_requests
dropped-IsLost r before after a d h e q c = elim (Bool-cases (contains r.pending d)) [
  | inl p ↦ record { pends = p; nowhere = ground (arith, facts, p) }
  | inr p ↦ absurd (ground (arith, facts, p))
]
  where
    facts :
        (places d (with_requests (before ++ after) r) + count d a.missing
          ≤ one_if (contains r.pending d))
        × (1 ≤ count d a.missing)
    facts = (
      ground (
        arith,
        q,
        h.placed d,
        ap (in_requests d) e,
        in_requests-append d before (a ∷ after),
        in_requests-append d before after,
      ),
      count-contained d a.missing c,
    )

-- A result for another dependency leaves alone what waits for this one.
waits-receive :
    (d : String) (status : DepStatus) (la : List Request)
    → str_eq status.dep d ≡ false
    → map (waits d) (map (receive status) la) ≡ map (waits d) la
unfolding receive
waits-receive d status [] n = refl
waits-receive d status (a ∷ la) n =
    ap₂ ◌∷◌ (ground (arith, n, contains-without d status.dep a.waiting))
      (waits-receive d status la n)

waits-finish :
    (d : String) (status : DepStatus) (r : Resolver)
    → str_eq status.dep d ≡ false
    → map (waits d) (finish status r).requests ≡ map (waits d) r.requests
unfolding finish
waits-finish d status r n = elim (Bool-cases (contains r.pending status.dep)) [
  | inl e ↦ rw e (waits-receive d status r.requests n)
  | inr e ↦ rw e refl
]

waits-finish_all :
    (d : String) (ss : List DepStatus) (r : Resolver)
    → contains (names ss) d ≡ false
    → map (waits d) (finish_all ss r).requests ≡ map (waits d) r.requests
unfolding finish_all
waits-finish_all d [] r n = refl
waits-finish_all d (s ∷ ss) r n =
    waits-finish_all d ss (finish s r) (ground (arith, n)) ∙ waits-finish d s r (ground (arith, n))

-- The end of a job settles nothing that is lost.
waits-work :
    (m : Manager) (d : String) (job : Job) (r : Resolver)
    → IsLost d r
    → r.current ≡ some job
    → map (waits d) (work m job r).requests ≡ map (waits d) r.requests
unfolding work
waits-work m d (install_job deps) r h e =
    waits-finish_all d _ _ (ap (λ ns. contains ns d) (names-settled_by m deps r.shop) ∙ not_here)
  where
    not_here : contains deps d ≡ false
    not_here = elim (Bool-cases (contains deps d)) [
      | inl c ↦ absurd (ground (arith, h.nowhere, ap (in_current d) e, count-contained d deps c))
      | inr c ↦ c
    ]
waits-work m d refresh_job r h e = refl

-- When a request is cancelled while it has not put its job into the queue, the resolver goes on from
-- a state that it comes to, and each dependency that the request was to queue is lost in every later
-- state: it stays pending, and no job and no request holds it, so that no job to come installs it.
-- The end of a job, whatever it is, leaves each request that waits for that dependency then waiting
-- for it.
pub reached-IsLost :
    (m : Manager) (shop : Shop) (r s : Resolver) (before after : List Request) (a : Request)
    (d : String)
    → Reach m (started shop) r
    → r.requests ≡ before ++ (a ∷ after)
    → a.queued ≡ false
    → contains a.missing d ≡ true
    → Reach m (with_requests (before ++ after) r) s
    → Reach m (started shop) (with_requests (before ++ after) r)
      × IsLost d s
      × ((job : Job)
          → s.current ≡ some job
          → map (waits d) (work m job s).requests ≡ map (waits d) s.requests)
reached-IsLost m shop r s before after a d path e q c on =
    let lost : IsLost d s =
      Reach-IsLost d on
        (dropped-IsLost r before after a d (Reach-Inv path (started-Inv shop)) e q c) in
    (next path (cancel before after a e q), lost, λ job f. waits-work m d job s lost f)
