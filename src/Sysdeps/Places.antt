-- ===== src/Sysdeps/Places.antt =====
-- Where the resolver of fabric/services/sysdeps.py keeps a dependency that it has not settled: in
-- the jobs, or in the `missing` of a request that has not put its job into the queue yet.
use ovn_fabric.Prelude.{
  ℕ, ◌+◌, String, ◌≡◌, refl, ap, Bool, true, false, Option, none, some, List, [], ◌∷◌, ◌++◌, any,
  map, contains, if◌then◌else◌, arith, str_eq, Bool-cases, inl, inr,
}
use ovn_fabric.Sysdeps.Manager.{DepStatus}
use ovn_fabric.Sysdeps.Requests.{
  Job, install_job, refresh_job, Request, Resolver, put_job, receive, finish, finish_all,
}
use ovn_fabric.Sysdeps.Counts.{count, contains-without, str_eq-eq}
use ovn_fabric.Sysdeps.Settling.{names}

abbrev pub in_job : String → Job → ℕ
in_job d (install_job deps) = count d deps
in_job d refresh_job = 0

unfoldable pub in_queue : String → List Job → ℕ
in_queue d [] = 0
in_queue d (j ∷ js) = in_job d j + in_queue d js

abbrev pub in_current : String → Option Job → ℕ
in_current d none = 0
in_current d (some j) = in_job d j

abbrev pub in_request : String → Request → ℕ
in_request d a = if a.queued then 0 else count d a.missing

unfoldable pub in_requests : String → List Request → ℕ
in_requests d [] = 0
in_requests d (a ∷ la) = in_request d a + in_requests d la

-- How many places hold the dependency.
abbrev pub places : String → Resolver → ℕ
places d r = in_queue d r.queue + in_current d r.current + in_requests d r.requests

abbrev pub waits : String → Request → Bool
waits d a = contains a.waiting d

pub in_queue-append :
    (d : String) (js ks : List Job) → in_queue d (js ++ ks) ≡ in_queue d js + in_queue d ks
unfolding in_queue
in_queue-append d [] ks = omega arith
in_queue-append d (j ∷ js) ks = omega (arith, in_queue-append d js ks)

pub in_requests-append :
    (d : String) (la bs : List Request)
    → in_requests d (la ++ bs) ≡ in_requests d la + in_requests d bs
unfolding in_requests
in_requests-append d [] bs = omega arith
in_requests-append d (a ∷ la) bs = ground (arith, in_requests-append d la bs)

pub in_queue-put_job :
    (d : String) (missing : List String) (queue : List Job)
    → in_queue d (put_job missing queue) ≡ in_queue d queue + count d missing
unfolding put_job in_queue count
in_queue-put_job d [] queue = omega arith
in_queue-put_job d (x ∷ xs) queue =
    ground (arith, in_queue-append d queue (install_job (x ∷ xs) ∷ []))

-- A result moves no dependency from its place.
in_requests-receive :
    (d : String) (status : DepStatus) (la : List Request)
    → in_requests d (map (receive status) la) ≡ in_requests d la
unfolding in_requests receive
in_requests-receive d status [] = refl
in_requests-receive d status (a ∷ la) = elim (Bool-cases (contains a.waiting status.dep)) [
  | inl e ↦ ground (arith, e, in_requests-receive d status la)
  | inr e ↦ ground (arith, e, in_requests-receive d status la)
]

places-finish :
    (d : String) (status : DepStatus) (r : Resolver) → places d (finish status r) ≡ places d r
unfolding finish
places-finish d status r = ground (arith, in_requests-receive d status r.requests)

pub places-finish_all :
    (d : String) (ss : List DepStatus) (r : Resolver) → places d (finish_all ss r) ≡ places d r
unfolding finish_all
places-finish_all d [] r = refl
places-finish_all d (s ∷ ss) r =
    ground (arith, places-finish_all d ss (finish s r), places-finish d s r)

-- What is pending after the results.
pub pending-finish_all :
    (d : String) (ss : List DepStatus) (r : Resolver)
    → contains (finish_all ss r).pending d
      ≡ (if contains (names ss) d then false else contains r.pending d)
unfolding finish_all finish
pending-finish_all d [] r = refl
pending-finish_all d (s ∷ ss) r =
    ground (arith, pending-finish_all d ss (finish s r), contains-without d s.dep r.pending)

waits-receive :
    (d : String) (status : DepStatus) (a : Request)
    → waits d (receive status a) ≡ (if str_eq status.dep d then false else waits d a)
unfolding receive
waits-receive d status a = elim (Bool-cases (contains a.waiting status.dep)) [
  | inl e ↦ ground (arith, e, contains-without d status.dep a.waiting)
  | inr e ↦ elim (Bool-cases (str_eq status.dep d)) [
    | inl f ↦ ground (arith, e, f, ap (contains a.waiting) (str_eq-eq status.dep d f))
    | inr f ↦ ground (arith, e, f)
  ]
]

any-waits-receive :
    (d : String) (status : DepStatus) (la : List Request)
    → any (waits d) (map (receive status) la)
      ≡ (if str_eq status.dep d then false else any (waits d) la)
any-waits-receive d status [] = ground arith
any-waits-receive d status (a ∷ la) =
    ground (arith, waits-receive d status a, any-waits-receive d status la)

-- Whatever a request waits for is pending.
abbrev pub IsExpected : Resolver → Type 0
IsExpected r = (d : String) → any (waits d) r.requests ≡ true → contains r.pending d ≡ true

IsExpected-finish :
    (status : DepStatus) (r : Resolver) → IsExpected r → IsExpected (finish status r)
unfolding finish
IsExpected-finish status r h d w = ground (
  arith,
  h d,
  h status.dep,
  any-waits-receive d status r.requests,
  contains-without d status.dep r.pending,
  str_eq-eq status.dep d,
)

pub IsExpected-finish_all :
    (ss : List DepStatus) (r : Resolver) → IsExpected r → IsExpected (finish_all ss r)
unfolding finish_all
IsExpected-finish_all [] r h = h
IsExpected-finish_all (s ∷ ss) r h = IsExpected-finish_all ss (finish s r) (IsExpected-finish s r h)
