-- ===== src/Tests/Resolver.antt =====
-- Witnesses for the theorems on the resolver of fabric/services/sysdeps.py: one request for a
-- package that has to be installed.
use ovn_fabric.Prelude.{
  insert, lookup, String, ◌≡◌, ◌≤◌, refl, Bool, true, false, none, some, List, [], ◌∷◌, any,
  contains, if◌then◌else◌, map,
}
use ovn_fabric.Retry.{retry, attempt_from, tried}
use ovn_fabric.Sysdeps.Manager.{
  retried, ask_version, ask, now, Manager, Query, version, install, clock, Reply, ran, found, time,
  ready, DepStatus, Shop,
}
use ovn_fabric.Sysdeps.Names.{dedupe_from, is_package, dedupe, refused}
use ovn_fabric.Sysdeps.Worker.{
  check, learn, made_ready, outputs_of, refresh_if_stale, status_of, update, install_deps,
  settled_by,
}
use ovn_fabric.Sysdeps.Requests.{
  Job, install_job, work, finish_all, finish, receive, Request, Resolver, opened, joins, pend,
  put_job, enqueued, time_out,
}
use ovn_fabric.Sysdeps.Steps.{
  started, with_requests, Reach, here, next, arrive, join, enqueue, take_job, end_job,
}
use ovn_fabric.Sysdeps.Counts.{one_if}
use ovn_fabric.Sysdeps.Settling.{names, names-settled_by}
use ovn_fabric.Sysdeps.Places.{places, waits}
use ovn_fabric.Sysdeps.Invariant.{placed_once}
use ovn_fabric.Sysdeps.Drain.{drained, work_queue, work_current, requested, drained-settles}
use ovn_fabric.Sysdeps.Response.{response, response-names}
use ovn_fabric.Sysdeps.Lost.{IsLost, reached-IsLost}
use ovn_fabric.Sysdeps.Options.{Reach-IsClean}
use ovn_fabric.Sysdeps.Queries.{IsClean}

-- Nothing is there before the first install.
abbrev has_install : List Query → Bool
has_install [] = false
has_install (install ds ∷ qs) = true
has_install (q ∷ qs) = has_install qs

abbrev answers : List Query → Query → Reply
answers trace (version d) = found (if has_install trace then some "1.0" else none)
answers trace clock = time 100
answers trace q = ran true ""

abbrev manager : Manager
manager = record { answer = answers; permanent = λ out. false }

abbrev new_shop : Shop
new_shop = record { trace = []; last_update = 0; known = [] }

abbrev asked : Request
asked = opened ("vim" ∷ [])

abbrev joined : Request
joined = joins false "vim" [] asked

abbrev preparing : Resolver
preparing = record (started new_shop) { pending = "vim" ∷ []; requests = joined ∷ [] }

abbrev waiting_one : Resolver
waiting_one = record preparing {
  queue = put_job joined.missing [];
  requests = enqueued joined ∷ [];
}

preparing-path : Reach manager (started new_shop) preparing
unfolding refused dedupe is_package started opened pend
preparing-path =
    next (next here (arrive ("vim" ∷ []) refl)) (join [] [] asked "vim" [] refl refl refl)

waiting_one-path : Reach manager (started new_shop) waiting_one
unfolding joins opened started
waiting_one-path = next preparing-path (enqueue [] [] joined refl refl refl)

-- After the install the version is found, and the request has it.
drained_ready :
    map (λ a. a.settled) (drained manager waiting_one).requests
    ≡ (record { dep = "vim"; state = ready "1.0" } ∷ []) ∷ []
unfolding drained work_queue put_job joins opened work finish_all settled_by install_deps started
    retried attempt_from tried check ask_version finish enqueued insert lookup retry work_current
    ask now dedupe dedupe_from receive learn made_ready outputs_of refresh_if_stale status_of update
    pend time_out
drained_ready = refl

drained-settles_example :
    Reach manager waiting_one (drained manager waiting_one)
    × (requested (drained manager waiting_one) ≡ requested waiting_one)
    × ((d : String)
        → any (waits d) (drained manager waiting_one).requests ≡ true
        → IsLost d waiting_one)
unfolding enqueued
drained-settles_example = drained-settles manager new_shop waiting_one waiting_one-path refl

placed_once_example :
    (places "vim" waiting_one ≤ one_if (contains waiting_one.pending "vim"))
    × (any (waits "vim") waiting_one.requests ≡ true → contains waiting_one.pending "vim" ≡ true)
placed_once_example = placed_once manager new_shop waiting_one waiting_one-path "vim"

response-names_example :
    (ts : List DepStatus) × (response (enqueued joined) ≡ some ts)
    × (names ts ≡ (enqueued joined).deps)
unfolding enqueued
response-names_example =
    response-names manager new_shop waiting_one [] [] (enqueued joined) waiting_one-path refl refl

names-settled_by_example :
    names (
      settled_by
        ("vim" ∷ "tcpdump" ∷ [])
        (install_deps manager ("vim" ∷ "tcpdump" ∷ []) new_shop).0)
    ≡ "vim" ∷ "tcpdump" ∷ []
names-settled_by_example = names-settled_by manager ("vim" ∷ "tcpdump" ∷ []) new_shop

drained-path : Reach manager (started new_shop) (drained manager waiting_one)
unfolding drained work_queue work_current put_job joins opened started
drained-path =
    next (next waiting_one-path (take_job (install_job ("vim" ∷ [])) [] refl refl))
      (end_job (install_job ("vim" ∷ [])) refl)

reached-IsLost_example :
    Reach manager (started new_shop) (with_requests [] preparing)
    × IsLost "vim" (with_requests [] preparing)
    × ((job : Job)
        → (with_requests [] preparing).current ≡ some job
        → map (waits "vim") (work manager job (with_requests [] preparing)).requests
          ≡ map (waits "vim") (with_requests [] preparing).requests)
unfolding joins opened
reached-IsLost_example =
    reached-IsLost manager new_shop preparing (with_requests [] preparing) [] [] joined "vim"
      preparing-path refl refl refl here

-- The install, asked for when the worker is through.
Reach-IsClean_example : IsClean (drained manager waiting_one).shop
Reach-IsClean_example =
    Reach-IsClean manager new_shop (drained manager waiting_one) (record { trace = tt; known = tt })
      drained-path
