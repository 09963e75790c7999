-- ===== src/Sysdeps/Invariant.antt =====
-- The invariant of the resolver (fabric/services/sysdeps.py): what is pending stands in one place,
-- what is waited for is pending, and every request keeps account of its dependencies.
use ovn_fabric.Prelude.{
  ◌≤◌, String, ◌≡◌, sym, ap, true, List, [], ◌∷◌, ◌++◌, any, any-append, contains, All, All-append,
  All-changed, All-removed, arith,
}
use ovn_fabric.Sysdeps.Manager.{Manager, Shop}
use ovn_fabric.Sysdeps.Requests.{
  Job, install_job, refresh_job, Request, Resolver, opened, found_ready, joins, enqueued, time_out,
  work,
}
use ovn_fabric.Sysdeps.Steps.{
  started, Step, arrive, look, join, enqueue, cancel, expire, leave, come_due, take_job, end_job,
  Reach, here, next,
}
use ovn_fabric.Sysdeps.Counts.{one_if, contains-append}
use ovn_fabric.Sysdeps.Places.{
  in_queue, in_requests, places, waits, IsExpected, IsExpected-finish_all,
}
use ovn_fabric.Sysdeps.Regular.{
  IsRegular, opened-IsRegular, found_ready-IsRegular, joins-IsRegular, enqueued-IsRegular,
  time_out-IsRegular, finish_all-IsRegular,
}
use ovn_fabric.Sysdeps.Balance.{contains-pend, waits_around, waits_here, Step-places}

-- A dependency is held in one place at most, and in none if it is not pending.
abbrev pub IsPlaced : Resolver → Type 0
IsPlaced r = (d : String) → places d r ≤ one_if (contains r.pending d)

pub record Inv (r : Resolver) : Type 0 where
  pub placed : IsPlaced r
  pub expected : IsExpected r
  pub regular : All IsRegular r.requests

pub All-IsRegular : {la lb : List Request} → la ≡ lb → All IsRegular la → All IsRegular lb
All-IsRegular e h = rw (sym e) h

work-IsExpected :
    (m : Manager) (job : Job) (r : Resolver) → IsExpected r → IsExpected (work m job r)
unfolding work
work-IsExpected m (install_job deps) r h = IsExpected-finish_all _ _ h
work-IsExpected m refresh_job r h = h

work-IsRegular :
    (m : Manager) (job : Job) (r : Resolver)
    → All IsRegular r.requests
    → All IsRegular (work m job r).requests
unfolding work
work-IsRegular m (install_job deps) r h = finish_all-IsRegular _ _ h
work-IsRegular m refresh_job r h = h

Step-IsPlaced : {m : Manager} {r s : Resolver} → Step m r s → IsPlaced r → IsPlaced s
Step-IsPlaced st h d = omega (arith, h d, Step-places st d (h d))

-- What waits when a request is gone waited before.
waits_others :
    (r : Resolver) (before after : List Request) (a : Request) (d : String)
    → r.requests ≡ before ++ (a ∷ after)
    → any (waits d) (before ++ after) ≡ true
    → any (waits d) r.requests ≡ true
waits_others r before after a d e w = ground (
  arith,
  ap (any (waits d)) e,
  any-append (waits d) before (a ∷ after),
  any-append (waits d) before after,
)

Step-IsExpected : {m : Manager} {r s : Resolver} → Step m r s → IsExpected r → IsExpected s
unfolding opened found_ready joins enqueued time_out
Step-IsExpected {r = r} (arrive deps ok) h d w =
    ground (arith, h d, any-append (waits d) r.requests (opened deps ∷ []))
Step-IsExpected {r = r} (look before after a dep v rest e q t) h d w = ground (
  arith,
  h d,
  waits_here d before after r a e,
  waits_around d before after r a (found_ready dep v rest a) e w,
)
Step-IsExpected {r = r} (join before after a dep rest e q t) h d w =
    let b = joins (contains r.pending dep) dep rest a in
    ground (
      arith,
      h d,
      waits_here d before after r a e,
      waits_around d before after r a b e w,
      contains-pend d dep r.pending,
      contains-append d a.waiting (dep ∷ []),
    )
Step-IsExpected {r = r} (enqueue before after a e q t) h d w =
    ground (
      arith,
      h d,
      waits_here d before after r a e,
      waits_around d before after r a (enqueued a) e w,
    )
Step-IsExpected {r = r} (expire before after a e q) h d w =
    ground (arith, h d, waits_around d before after r a (time_out a) e w)
Step-IsExpected {r = r} (cancel before after a e q) h d w =
    h d (waits_others r before after a d e w)
Step-IsExpected {r = r} (leave before after a e q) h d w = h d (waits_others r before after a d e w)
Step-IsExpected {r = r} (come_due dep known e) h d w = h d w
Step-IsExpected {r = r} (take_job job rest e f) h d w = h d w
Step-IsExpected {m} {r = r} (end_job job e) h d w = work-IsExpected m job r h d w

Step-IsRegular :
    {m : Manager} {r s : Resolver}
    → Step m r s
    → All IsRegular r.requests
    → All IsRegular s.requests
Step-IsRegular {r = r} (arrive deps ok) h =
    All-append IsRegular r.requests (opened deps ∷ []) h (opened-IsRegular deps, tt)
Step-IsRegular {r = r} (look before after a dep v rest e q t) h =
    All-changed IsRegular before after a _ (λ k. found_ready-IsRegular a dep rest t q k v)
      (All-IsRegular e h)
Step-IsRegular {r = r} (join before after a dep rest e q t) h =
    All-changed IsRegular before after a _ (λ k. joins-IsRegular a dep rest t q k _)
      (All-IsRegular e h)
Step-IsRegular {r = r} (enqueue before after a e q t) h =
    All-changed IsRegular before after a _ (enqueued-IsRegular a t) (All-IsRegular e h)
Step-IsRegular {r = r} (expire before after a e q) h =
    All-changed IsRegular before after a _ (time_out-IsRegular a) (All-IsRegular e h)
Step-IsRegular {r = r} (cancel before after a e q) h =
    All-removed IsRegular before after a (All-IsRegular e h)
Step-IsRegular {r = r} (leave before after a e q) h =
    All-removed IsRegular before after a (All-IsRegular e h)
Step-IsRegular {r = r} (come_due dep known e) h = h
Step-IsRegular {r = r} (take_job job rest e f) h = h
Step-IsRegular {m} {r = r} (end_job job e) h = work-IsRegular m job r h

pub started-Inv : (shop : Shop) → Inv (started shop)
unfolding started in_requests in_queue
started-Inv shop = record {
  placed = λ d. omega arith;
  expected = λ d w. ground (arith, w);
  regular = tt;
}

-- Every step keeps the invariant.
pub Step-Inv : {m : Manager} {r s : Resolver} → Step m r s → Inv r → Inv s
Step-Inv st h = record {
  placed = Step-IsPlaced st h.placed;
  expected = Step-IsExpected st h.expected;
  regular = Step-IsRegular st h.regular;
}

-- And so does every run.
pub Reach-Inv : {m : Manager} {r s : Resolver} → Reach m r s → Inv r → Inv s
Reach-Inv here h = h
Reach-Inv (next path st) h = Step-Inv st (Reach-Inv path h)

-- In every state that the resolver comes to, requests cancelled at any time among its past, a
-- dependency that is pending stands in at most one place (one job of the queue, the current job, or
-- what one request is to queue, and once there), and one that is not pending in none; and what a
-- request waits for is pending.
pub placed_once :
    (m : Manager) (shop : Shop) (r : Resolver)
    → Reach m (started shop) r
    → (d : String)
    → (places d r ≤ one_if (contains r.pending d))
      × (any (waits d) r.requests ≡ true → contains r.pending d ≡ true)
placed_once m shop r path d =
    let h = Reach-Inv path (started-Inv shop) in (h.placed d, h.expected d)
