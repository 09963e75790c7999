-- ===== src/Sysdeps/Steps.antt =====
-- The resolver as a system of steps (fabric/services/sysdeps.py, `resolve`, `_worker` and
-- `_refresher`): what its tasks do between two places at which they wait, in any order.
use ovn_fabric.Prelude.{String, ◌≡◌, true, false, none, some, List, [], ◌∷◌, ◌++◌, contains}
use ovn_fabric.Sysdeps.Manager.{Manager, Shop}
use ovn_fabric.Sysdeps.Names.{refused, dedupe}
use ovn_fabric.Sysdeps.Worker.{learn}
use ovn_fabric.Sysdeps.Requests.{
  Job, refresh_job, Request, Resolver, opened, found_ready, joins, pend, put_job, enqueued,
  time_out, work,
}

unfoldable pub started : Shop → Resolver
started shop = record { queue = []; current = none; pending = []; requests = []; shop = shop }

-- The requests with one of them changed, or gone.
abbrev pub with_requests : List Request → Resolver → Resolver
with_requests requests r = record r { requests = requests }

-- A step of one of the requests, which stands between `before` and `after`.
pub data Step (m : Manager) (r : Resolver) : Resolver → Type 0 where
  -- A request comes, with names of packages only.
  arrive :
      (deps : List String)
      → refused (dedupe deps) ≡ []
      → Step m r (with_requests (r.requests ++ (opened deps ∷ [])) r)
  -- Its next dependency was looked for and found.
  look :
      (before after : List Request) (a : Request) (dep version : String) (rest : List String)
      → r.requests ≡ before ++ (a ∷ after)
      → a.queued ≡ false
      → a.todo ≡ dep ∷ rest
      → Step m r (record r {
        requests = before ++ (found_ready dep version rest a ∷ after);
        shop = (learn dep r.shop).1;
      })
  -- It is pending, or was not found.
  join :
      (before after : List Request) (a : Request) (dep : String) (rest : List String)
      → r.requests ≡ before ++ (a ∷ after)
      → a.queued ≡ false
      → a.todo ≡ dep ∷ rest
      → Step m r (record r {
        pending = pend dep r.pending;
        requests = before ++ (joins (contains r.pending dep) dep rest a ∷ after);
      })
  -- The loop is over, and what is missing goes into the queue.
  enqueue :
      (before after : List Request) (a : Request)
      → r.requests ≡ before ++ (a ∷ after)
      → a.queued ≡ false
      → a.todo ≡ []
      → Step m r (record r {
        queue = put_job a.missing r.queue;
        requests = before ++ (enqueued a ∷ after);
      })
  -- Its time is over.
  expire :
      (before after : List Request) (a : Request)
      → r.requests ≡ before ++ (a ∷ after)
      → a.queued ≡ true
      → Step m r (with_requests (before ++ (time_out a ∷ after)) r)
  -- It is cancelled before that, at any place at which it waits (for the version of a dependency,
  -- or for a message to be sent): what it made pending stays so.
  cancel :
      (before after : List Request) (a : Request)
      → r.requests ≡ before ++ (a ∷ after)
      → a.queued ≡ false
      → Step m r (with_requests (before ++ after) r)
  -- It ends: it has its response, or is cancelled while it waits.
  leave :
      (before after : List Request) (a : Request)
      → r.requests ≡ before ++ (a ∷ after)
      → a.queued ≡ true
      → Step m r (with_requests (before ++ after) r)
  -- The refresh is due.
  come_due :
      (dep : String) (known : List String)
      → r.shop.known ≡ dep ∷ known
      → Step m r (record r { queue = r.queue ++ (refresh_job ∷ []) })
  -- The worker takes its next job, and ends it.
  take_job :
      (job : Job) (rest : List Job)
      → r.current ≡ none
      → r.queue ≡ job ∷ rest
      → Step m r (record r { queue = rest; current = some job })
  end_job : (job : Job) → r.current ≡ some job → Step m r (work m job r)

pub data Reach (m : Manager) (r : Resolver) : Resolver → Type 0 where
  here : Reach m r r
  next : {s t : Resolver} → Reach m r s → Step m s t → Reach m r t
