-- ===== src/Sysdeps/Regular.antt =====
-- A request of fabric/services/sysdeps.py keeps account of its dependencies: each is still in its
-- loop, waited for, or settled.
use ovn_fabric.Prelude.{
  ℕ, ◌+◌, ◌≤◌, String, ◌≡◌, refl, sym, ap, ◌∙◌, Bool, true, false, List, [], ◌∷◌, ◌++◌, map,
  contains, All, arith, str_eq, Bool-cases, inl, inr,
}
use ovn_fabric.Sysdeps.Manager.{ready, timed_out, DepStatus}
use ovn_fabric.Sysdeps.Names.{dedupe}
use ovn_fabric.Sysdeps.Requests.{
  Request, Resolver, opened, found_ready, joins, enqueued, time_out, receive, finish, finish_all,
}
use ovn_fabric.Sysdeps.Counts.{
  count, count-dedupe_from, count-append, count-without, count-contained, str_eq-eq,
}
use ovn_fabric.Sysdeps.Settling.{names}

-- Where the request has a dependency.
abbrev pub share : String → Request → ℕ
share d a = count d a.todo + count d a.waiting + count d (names a.settled)

pub record IsRegular (a : Request) : Type 0 where
  pub accounted : (d : String) → share d a ≡ count d a.deps
  pub single : (d : String) → count d a.deps ≤ 1
  pub looped : a.queued ≡ true → a.todo ≡ []

pub names-append : (ss ts : List DepStatus) → names (ss ++ ts) ≡ names ss ++ names ts
names-append [] ts = refl
names-append (s ∷ ss) ts = ap (◌∷◌ s.dep) (names-append ss ts)

-- The names after one more status.
count-settled :
    (d : String) (ss ts : List DepStatus)
    → count d (names (ss ++ ts)) ≡ count d (names ss) + count d (names ts)
count-settled d ss ts = ap (count d) (names-append ss ts) ∙ count-append d (names ss) (names ts)

pub opened-IsRegular : (deps : List String) → IsRegular (opened deps)
unfolding opened dedupe count
opened-IsRegular deps = record {
  accounted = λ d. ground arith;
  single = λ d. ground (arith, count-dedupe_from d [] deps);
  looped = λ h. ground arith;
}

module _ (a : Request) (dep : String) (rest : List String) (next : a.todo ≡ dep ∷ rest)
    (loops : a.queued ≡ false) (h : IsRegular a) where
  pub found_ready-IsRegular : (v : String) → IsRegular (found_ready dep v rest a)
  unfolding found_ready count
  found_ready-IsRegular v = record {
    accounted = λ d. ground (
      arith,
      h.accounted d,
      ap (count d) next,
      count-settled d a.settled (record { dep = dep; state = ready v } ∷ []),
    );
    single = h.single;
    looped = λ q. ground (arith, q, loops);
  }

  pub joins-IsRegular : (b : Bool) → IsRegular (joins b dep rest a)
  unfolding joins count
  joins-IsRegular b = record {
    accounted =
        λ d. ground (arith, h.accounted d, ap (count d) next, count-append d a.waiting (dep ∷ []));
    single = h.single;
    looped = λ q. ground (arith, q, loops);
  }

pub enqueued-IsRegular : (a : Request) → a.todo ≡ [] → IsRegular a → IsRegular (enqueued a)
unfolding enqueued
enqueued-IsRegular a e h = record { accounted = h.accounted; single = h.single; looped = λ _. e }

timed_out-names :
    (ds : List String) → names (map (λ d. record { dep = d; state = timed_out }) ds) ≡ ds
timed_out-names [] = refl
timed_out-names (d ∷ ds) = ap (◌∷◌ d) (timed_out-names ds)

pub time_out-IsRegular : (a : Request) → IsRegular a → IsRegular (time_out a)
unfolding time_out count
time_out-IsRegular a h = record {
  accounted = λ d. ground (
    arith,
    h.accounted d,
    count-settled d a.settled (map (λ e. record { dep = e; state = timed_out }) a.waiting),
    ap (count d) (timed_out-names a.waiting),
  );
  single = h.single;
  looped = h.looped;
}

-- A dependency that is waited for stands there once.
receive-IsRegular : (status : DepStatus) (a : Request) → IsRegular a → IsRegular (receive status a)
unfolding receive count
receive-IsRegular status a h = elim (Bool-cases (contains a.waiting status.dep)) [
  | inl e ↦ record {
    accounted = λ d. ground (
      arith,
      e,
      h.accounted d,
      h.single d,
      count-settled d a.settled (status ∷ []),
      count-without d status.dep a.waiting,
      here d e,
    );
    single = λ d. ground (arith, e, h.single d);
    looped = λ q. ground (arith, e, h.looped);
  }
  | inr e ↦ rw e h
]
  where
    here :
        (d : String)
        → contains a.waiting status.dep ≡ true
        → str_eq status.dep d ≡ true
        → 1 ≤ count d a.waiting
    here d e f =
        count-contained d a.waiting (ap (contains a.waiting) (sym (str_eq-eq status.dep d f)) ∙ e)

finish-IsRegular :
    (status : DepStatus) (r : Resolver)
    → All IsRegular r.requests
    → All IsRegular (finish status r).requests
unfolding finish
finish-IsRegular status r h = elim (Bool-cases (contains r.pending status.dep)) [
  | inl e ↦ rw e (received r.requests h)
  | inr e ↦ rw e h
]
  where
    received : (la : List Request) → All IsRegular la → All IsRegular (map (receive status) la)
    received [] g = tt
    received (a ∷ la) (g, gs) = (receive-IsRegular status a g, received la gs)

pub finish_all-IsRegular :
    (ss : List DepStatus) (r : Resolver)
    → All IsRegular r.requests
    → All IsRegular (finish_all ss r).requests
unfolding finish_all
finish_all-IsRegular [] r h = h
finish_all-IsRegular (s ∷ ss) r h = finish_all-IsRegular ss (finish s r) (finish-IsRegular s r h)
