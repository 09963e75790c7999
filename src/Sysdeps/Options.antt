-- ===== src/Sysdeps/Options.antt =====
-- What the names of a request (fabric/services/sysdeps.py, the start of `resolve`) come to: through
-- the jobs of the queue and the packages that are known, the arguments of the package manager.
use ovn_fabric.Prelude.{
  String, ◌≡◌, refl, sym, Bool, true, false, Option, none, some, List, [], ◌∷◌, ◌++◌, All,
  All-append, All-changed, All-removed, All-at, contains, map, arith, Bool-cases, inl, inr,
}
use ovn_fabric.Sysdeps.Manager.{Manager, DepStatus, Shop}
use ovn_fabric.Sysdeps.Names.{is_lower, is_digit, is_alnum, is_package, refused, dedupe}
use ovn_fabric.Sysdeps.Queries.{
  is_option, IsName, IsClean, learn-Stays, install_deps-Stays, refresh_known-Stays,
}
use ovn_fabric.Sysdeps.Requests.{
  Job, install_job, refresh_job, Request, Resolver, opened, found_ready, joins, put_job, enqueued,
  time_out, receive, finish, finish_all, work,
}
use ovn_fabric.Sysdeps.Steps.{
  started, Step, arrive, look, join, enqueue, cancel, expire, leave, come_due, take_job, end_job,
  Reach, here, next,
}

package-option : (d : String) → is_package d ≡ true → is_option d ≡ false
unfolding is_package is_alnum is_lower is_digit
package-option String.[] h = refl
package-option (String.◌∷◌ c s) h = ground (arith, h)

accepted : (ds : List String) → refused ds ≡ [] → All IsName ds
unfolding refused
accepted [] h = tt
accepted (d ∷ ds) h = elim (Bool-cases (is_package d)) [
  | inl e ↦ ((e, package-option d e), accepted ds (ground (arith, e, h)))
  | inr e ↦ absurd (ground (arith, e, h))
]

-- The names of a job's install are names of packages.
abbrev IsSafe : Job → Type 0
IsSafe (install_job deps) = All IsName deps
IsSafe refresh_job = Unit

abbrev IsSafeCurrent : Option Job → Type 0
IsSafeCurrent none = Unit
IsSafeCurrent (some job) = IsSafe job

-- And so are those that a request has still to look for or to queue.
record IsNamed (a : Request) : Type 0 where
  todo : All IsName a.todo
  missing : All IsName a.missing

record AreNames (r : Resolver) : Type 0 where
  queue : All IsSafe r.queue
  current : IsSafeCurrent r.current
  requests : All IsNamed r.requests
  shop : IsClean r.shop

All-names : {la lb : List Request} → la ≡ lb → All IsNamed la → All IsNamed lb
All-names e h = rw (sym e) h

named_next :
    (a : Request) (dep : String) (rest : List String)
    → a.todo ≡ dep ∷ rest
    → IsNamed a
    → IsName dep × All IsName rest
named_next a dep rest e h = rw e at (h.todo)

joins-IsNamed :
    (b : Bool) (dep : String) (rest : List String) (a : Request)
    → a.todo ≡ dep ∷ rest
    → IsNamed a
    → IsNamed (joins b dep rest a)
unfolding joins
joins-IsNamed true dep rest a e h = record {
  todo = (named_next a dep rest e h).1;
  missing = h.missing;
}
joins-IsNamed false dep rest a e h = record {
  todo = (named_next a dep rest e h).1;
  missing = All-append IsName a.missing (dep ∷ []) h.missing ((named_next a dep rest e h).0, tt);
}

put_job-safe :
    (deps : List String) (jobs : List Job)
    → All IsName deps
    → All IsSafe jobs
    → All IsSafe (put_job deps jobs)
unfolding put_job
put_job-safe [] jobs h k = k
put_job-safe (d ∷ ds) jobs h k = All-append IsSafe jobs (install_job (d ∷ ds) ∷ []) k (h, tt)

-- What a result changes in the requests that wait for it.
received : (s : DepStatus) (la : List Request) → All IsNamed la → All IsNamed (map (receive s) la)
unfolding receive
received s [] h = tt
received s (a ∷ la) (h, hs) = elim (Bool-cases (contains a.waiting s.dep)) [
  | inl e ↦ rw e (record { todo = h.todo; missing = h.missing }, received s la hs)
  | inr e ↦ rw e (h, received s la hs)
]

finish-AreNames : (s : DepStatus) (r : Resolver) → AreNames r → AreNames (finish s r)
unfolding finish
finish-AreNames s r h = elim (Bool-cases (contains r.pending s.dep)) [
  | inl e ↦ rw e (record {
    queue = h.queue;
    current = h.current;
    requests = received s r.requests h.requests;
    shop = h.shop;
  })
  | inr e ↦
      rw e (record { queue = h.queue; current = h.current; requests = h.requests; shop = h.shop })
]

finish_all-AreNames : (ss : List DepStatus) (r : Resolver) → AreNames r → AreNames (finish_all ss r)
unfolding finish_all
finish_all-AreNames [] r h = h
finish_all-AreNames (s ∷ ss) r h = finish_all-AreNames ss (finish s r) (finish-AreNames s r h)

work-AreNames :
    (m : Manager) (job : Job) (r : Resolver) → IsSafe job → AreNames r → AreNames (work m job r)
unfolding work
work-AreNames m (install_job deps) r safe h = finish_all-AreNames _ _ (record {
  queue = h.queue;
  current = tt;
  requests = h.requests;
  shop = install_deps-Stays m deps safe r.shop h.shop;
})
work-AreNames m refresh_job r safe h = record {
  queue = h.queue;
  current = tt;
  requests = h.requests;
  shop = refresh_known-Stays m r.shop h.shop;
}

-- One request is changed, or gone.
changed-AreNames :
    (r : Resolver) (before after : List Request) (a b : Request)
    → r.requests ≡ before ++ (a ∷ after)
    → (IsNamed a → IsNamed b)
    → AreNames r
    → All IsNamed (before ++ (b ∷ after))
changed-AreNames r before after a b e f h =
    All-changed IsNamed before after a b f (All-names e h.requests)

removed-AreNames :
    (r : Resolver) (before after : List Request) (a : Request)
    → r.requests ≡ before ++ (a ∷ after)
    → AreNames r
    → AreNames (record r { requests = before ++ after })
removed-AreNames r before after a e h = record {
  queue = h.queue;
  current = h.current;
  requests = All-removed IsNamed before after a (All-names e h.requests);
  shop = h.shop;
}

Step-AreNames : {m : Manager} {r s : Resolver} → Step m r s → AreNames r → AreNames s
unfolding opened found_ready enqueued time_out
Step-AreNames {r = r} (arrive deps ok) h = record {
  queue = h.queue;
  current = h.current;
  requests =
      All-append IsNamed r.requests (opened deps ∷ []) h.requests
        (record { todo = accepted (dedupe deps) ok; missing = tt }, tt);
  shop = h.shop;
}
Step-AreNames {r = r} (look before after a dep v rest e q t) h = record {
  queue = h.queue;
  current = h.current;
  requests =
      changed-AreNames r before after a (found_ready dep v rest a) e
        (λ k. record { todo = (named_next a dep rest t k).1; missing = k.missing }) h;
  shop =
      learn-Stays dep
        (named_next a dep rest t (All-at IsNamed before after a (All-names e h.requests))).0 r.shop
        h.shop;
}
Step-AreNames {r = r} (join before after a dep rest e q t) h = record {
  queue = h.queue;
  current = h.current;
  requests = changed-AreNames r before after a _ e (joins-IsNamed _ dep rest a t) h;
  shop = h.shop;
}
Step-AreNames {r = r} (enqueue before after a e q t) h = record {
  queue =
      put_job-safe a.missing r.queue
        (All-at IsNamed before after a (All-names e h.requests)).missing h.queue;
  current = h.current;
  requests =
      changed-AreNames r before after a (enqueued a) e
        (λ k. record { todo = k.todo; missing = k.missing }) h;
  shop = h.shop;
}
Step-AreNames {r = r} (cancel before after a e q) h = removed-AreNames r before after a e h
Step-AreNames {r = r} (expire before after a e q) h = record {
  queue = h.queue;
  current = h.current;
  requests =
      changed-AreNames r before after a (time_out a) e
        (λ k. record { todo = k.todo; missing = k.missing }) h;
  shop = h.shop;
}
Step-AreNames {r = r} (leave before after a e q) h = removed-AreNames r before after a e h
Step-AreNames {r = r} (come_due dep known e) h = record {
  queue = All-append IsSafe r.queue (refresh_job ∷ []) h.queue (tt, tt);
  current = h.current;
  requests = h.requests;
  shop = h.shop;
}
Step-AreNames {r = r} (take_job job rest e f) h =
    let jobs : IsSafe job × All IsSafe rest = rw f at (h.queue) in
    record { queue = jobs.1; current = jobs.0; requests = h.requests; shop = h.shop }
Step-AreNames {m} {r = r} (end_job job e) h =
    let safe : IsSafeCurrent (some job) = rw e at (h.current) in work-AreNames m job r safe h

Reach-AreNames : {m : Manager} {r s : Resolver} → Reach m r s → AreNames r → AreNames s
Reach-AreNames here h = h
Reach-AreNames (next path st) h = Step-AreNames st (Reach-AreNames path h)

started-AreNames : (shop : Shop) → IsClean shop → AreNames (started shop)
unfolding started
started-AreNames shop c = record { queue = tt; current = tt; requests = tt; shop = c }

-- Every name that the worker asks the package manager to install, to upgrade or to look up, in any
-- state that the resolver comes to, is a name that a request may have (`_PACKAGE`), and none starts
-- with `-`, so that none is an option of the manager's command: where that holds of what was asked
-- and known at the start.
pub Reach-IsClean :
    (m : Manager) (shop : Shop) (r : Resolver)
    → IsClean shop
    → Reach m (started shop) r
    → IsClean r.shop
Reach-IsClean m shop r clean path = (Reach-AreNames path (started-AreNames shop clean)).shop
