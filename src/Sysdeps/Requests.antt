-- ===== src/Sysdeps/Requests.antt =====
-- The requests of the resolver (fabric/services/sysdeps.py, `resolve` and `_wait`) beside its
-- worker: each function below is what runs between two places at which a task waits.
use ovn_fabric.Prelude.{
  String, Bool, true, false, not, Option, none, List, [], ◌∷◌, ◌++◌, map, filter, contains, str_eq,
  if◌then◌else◌,
}
use ovn_fabric.Sysdeps.Manager.{Manager, ready, timed_out, DepStatus, Shop}
use ovn_fabric.Sysdeps.Names.{dedupe}
use ovn_fabric.Sysdeps.Worker.{install_deps, refresh_known, settled_by}

-- `_Install` and `_Refresh`.
pub data Job : Type 0 where
  install_job : List String → Job
  refresh_job : Job

-- The variables of a `resolve` that runs: the dependencies that its loop has not reached yet, and
-- those of `missing`, `waiting` and `settled`. `queued`: it is past the loop and has put its job
-- into the queue.
pub record Request : Type 0 where
  pub deps : List String
  pub todo : List String
  pub missing : List String
  pub waiting : List String
  pub settled : List DepStatus
  pub queued : Bool

-- The resolver: `_queue`, the job that the worker runs, the keys of `_pending` (a future lives as
-- long as its key: `_finish` takes the key away and hands the result to all that wait), and what
-- the worker keeps.
pub record Resolver : Type 0 where
  pub queue : List Job
  pub current : Option Job
  pub pending : List String
  pub requests : List Request
  pub shop : Shop

abbrev pub without : String → List String → List String
without d ds = filter (λ e. not (str_eq e d)) ds

unfoldable pub opened : List String → Request
opened deps = record {
  deps = dedupe deps;
  todo = dedupe deps;
  missing = [];
  waiting = [];
  settled = [];
  queued = false;
}

-- The next dependency of the loop is there.
unfoldable pub found_ready : String → String → List String → Request → Request
found_ready dep v rest a = record a {
  todo = rest;
  settled = a.settled ++ (record { dep = dep; state = ready v } ∷ []);
}

-- It is not: the request waits for it, and queues it unless another one has.
unfoldable pub joins : Bool → String → List String → Request → Request
joins is_pending dep rest a = record a {
  todo = rest;
  missing = if is_pending then a.missing else a.missing ++ (dep ∷ []);
  waiting = a.waiting ++ (dep ∷ []);
}

unfoldable pub pend : String → List String → List String
pend dep pending = if contains pending dep then pending else pending ++ (dep ∷ [])

-- `if missing: self._queue.put_nowait(_Install(missing))`
unfoldable pub put_job : List String → List Job → List Job
put_job [] queue = queue
put_job missing queue = queue ++ (install_job missing ∷ [])

unfoldable pub enqueued : Request → Request
enqueued a = record a { queued = true }

-- A result reaches a request that waits for it.
unfoldable pub receive : DepStatus → Request → Request
receive status a =
    if contains a.waiting status.dep
    then record a { waiting = without status.dep a.waiting; settled = a.settled ++ (status ∷ []) }
    else a

-- `_finish`
unfoldable pub finish : DepStatus → Resolver → Resolver
unfolding receive
finish status r = record r {
  pending = without status.dep r.pending;
  requests = if contains r.pending status.dep then map (receive status) r.requests else r.requests;
}

unfoldable pub finish_all : List DepStatus → Resolver → Resolver
finish_all [] r = r
finish_all (s ∷ ss) r = finish_all ss (finish s r)

-- The timeout of a request: what has not settled by then is reported so.
unfoldable pub time_out : Request → Request
time_out a = record a {
  waiting = [];
  settled = a.settled ++ map (λ d. record { dep = d; state = timed_out }) a.waiting;
}

module _ (m : Manager) where
  -- One job of `_worker`.
  unfoldable pub work : Job → Resolver → Resolver
  work (install_job deps) r =
      let done = install_deps m deps r.shop in
      finish_all (settled_by deps done.0) (record r { current = none; shop = done.1 })
  work refresh_job r = record r { current = none; shop = (refresh_known m r.shop).1 }
