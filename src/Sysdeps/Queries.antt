-- ===== src/Sysdeps/Queries.antt =====
-- What the worker of fabric/services/sysdeps.py asks of its package manager: of names of packages
-- only, when its job and the packages that it knows are such.
use Prim.Native.Char.{code}
use ovn_fabric.Prelude.{
  ℕ, zero, suc, String, ◌≡◌, Bool, true, false, Option, none, some, List, [], ◌∷◌, All, All-append,
  contains, ◌==◌, str_le, sort_names, place_name, Dict, if◌then◌else◌, Bool-cases, inl, inr,
}
use ovn_fabric.Retry.{Ran}
use ovn_fabric.Sysdeps.Manager.{
  Manager, Query, version, install, upgrade, refresh, clock, write_stamp, Shop, Outcome, value,
  error, Work, DepStatus, ready, pure, continue, ◌>>=◌, ask, ask_version, version_of, time_of, now,
  retried, repeat, Reply, found, broken, time,
}
use ovn_fabric.Sysdeps.Names.{is_package}
use ovn_fabric.Sysdeps.Worker.{
  learn, stamped, made_ready, status_of, set_update, update, refresh_if_stale, one_by_one,
  outputs_of, check, install_deps, upgrade_known, refresh_known,
}

-- An argument that starts with `-`.
abbrev pub is_option : String → Bool
is_option String.[] = false
is_option (String.◌∷◌ c s) = code c == b'-'

-- A name that the resolver takes, and that no package manager takes for an option.
abbrev pub IsName : String → Type 0
IsName d = (is_package d ≡ true) × (is_option d ≡ false)

-- The arguments of the question are names.
abbrev pub IsSafeQuery : Query → Type 0
IsSafeQuery (version d) = IsName d
IsSafeQuery (install ds) = All IsName ds
IsSafeQuery (upgrade ds) = All IsName ds
IsSafeQuery _ = Unit

pub record IsClean (s : Shop) : Type 0 where
  pub trace : All IsSafeQuery s.trace
  pub known : All IsName s.known

abbrev Stays : {A : Type 0} → Work A → Type 0
Stays w = (s : Shop) → IsClean s → IsClean (w s).1

module _ {A B : Type 0} where
  Stays-bind : (w : Work A) (f : A → Work B) → Stays w → ((a : A) → Stays (f a)) → Stays (w >>= f)
  Stays-bind w f h k s c = go (w s) (h s c)
    where
      go : (q : Outcome A × Shop) → IsClean q.1 → IsClean (continue q.0 f q.1).1
      go (value a, t) d = k a t d
      go (error e, t) d = d

Stays-if : {A : Type 0} (b : Bool) (w v : Work A) → Stays w → Stays v → Stays (if b then w else v)
Stays-if true w v h k = h
Stays-if false w v h k = k

All-place_name :
    (s : String) (ts : List String) → IsName s → All IsName ts → All IsName (place_name s ts)
unfolding place_name
All-place_name s [] h hs = (h, tt)
All-place_name s (t ∷ ts) h (g, gs) = elim (Bool-cases (str_le s t)) [
  | inl e ↦ rw e (h, (g, gs))
  | inr e ↦ rw e (g, All-place_name s ts h gs)
]

All-sort_names : (ss : List String) → All IsName ss → All IsName (sort_names ss)
unfolding sort_names
All-sort_names [] h = tt
All-sort_names (s ∷ ss) (h, hs) = All-place_name s (sort_names ss) h (All-sort_names ss hs)

pub learn-Stays : (d : String) → IsName d → Stays (learn d)
unfolding learn
learn-Stays d h s c = elim (Bool-cases (contains s.known d)) [
  | inl e ↦ rw e (record { trace = c.trace; known = c.known })
  | inr e ↦
      rw e (record { trace = c.trace; known = All-append IsName s.known (d ∷ []) c.known (h, tt) })
]

module _ (m : Manager) where
  ask-Stays : (q : Query) → IsSafeQuery q → Stays (ask m q)
  unfolding ask
  ask-Stays q h s c = record {
    trace = All-append IsSafeQuery s.trace (q ∷ []) c.trace (h, tt);
    known = c.known;
  }

  repeated : (q : Query) → IsSafeQuery q → (n : ℕ) → All IsSafeQuery (repeat n q)
  unfolding repeat
  repeated q h zero = tt
  repeated q h (suc n) = (h, repeated q h n)

  retried-Stays : (q : Query) → IsSafeQuery q → Stays (retried m q)
  unfolding retried
  retried-Stays q h s c = record {
    trace = All-append IsSafeQuery s.trace _ c.trace (repeated q h _);
    known = c.known;
  }

  time_of-Stays : (r : Reply) → Stays (time_of m r)
  unfolding time_of
  time_of-Stays (time t) s c = c
  time_of-Stays (broken e) s c = c
  time_of-Stays _ s c = c

  version_of-Stays : (r : Reply) → Stays (version_of m r)
  unfolding version_of
  version_of-Stays (found v) s c = c
  version_of-Stays (broken e) s c = c
  version_of-Stays _ s c = c

  now-Stays : Stays (now m)
  unfolding now
  now-Stays = Stays-bind (ask m clock) (time_of m) (ask-Stays clock tt) time_of-Stays

  ask_version-Stays : (d : String) → IsName d → Stays (ask_version m d)
  unfolding ask_version
  ask_version-Stays d h =
      Stays-bind (ask m (version d)) (version_of m) (ask-Stays (version d) h) version_of-Stays

  stamped-Stays : (t : ℕ) → Stays (stamped t)
  unfolding stamped
  stamped-Stays t s c = record { trace = c.trace; known = c.known }

  set_update-Stays : (ok : Bool) → Stays (set_update m ok)
  unfolding set_update
  set_update-Stays false = λ s c. c
  set_update-Stays true =
      Stays-bind (now m) (λ t. stamped t >>= λ u. after_stamp) now-Stays
        (λ t.
          Stays-bind (stamped t) (λ u. after_stamp) (stamped-Stays t)
            (λ u.
              Stays-bind (ask m write_stamp) (λ r. pure true) (ask-Stays write_stamp tt)
                (λ r s c. c)))
    where
      after_stamp : Work Bool
      after_stamp = ask m write_stamp >>= λ r. pure true

  update-Stays : Stays (update m)
  unfolding update
  update-Stays =
      Stays-bind (retried m refresh) _ (retried-Stays refresh tt) (λ r. set_update-Stays r.0)

  refresh_if_stale-Stays : Stays (refresh_if_stale m)
  unfolding refresh_if_stale
  refresh_if_stale-Stays s c =
      Stays-bind (now m) _ now-Stays
        (λ t. Stays-if _ _ _ (Stays-bind (update m) _ update-Stays (λ b s c. c)) (λ s c. c)) s c

  one_by_one-Stays :
      (ds : List String) (outputs : Dict Ran) → All IsName ds → Stays (one_by_one m ds outputs)
  unfolding one_by_one
  one_by_one-Stays [] outputs h = λ s c. c
  one_by_one-Stays (d ∷ ds) outputs (h, hs) =
      Stays-bind (retried m (install (d ∷ []))) _ (retried-Stays (install (d ∷ [])) (h, tt))
        (λ r. one_by_one-Stays ds _ hs)

  outputs_of-Stays : (ds : List String) (r : Ran) → All IsName ds → Stays (outputs_of m ds r)
  unfolding outputs_of
  outputs_of-Stays ds r h = Stays-if _ _ _ (one_by_one-Stays ds _ h) (λ s c. c)

  status_of-Stays :
      (d : String) (outputs : Dict Ran) (v : Option String)
      → IsName d
      → Stays (status_of d outputs v)
  unfolding status_of made_ready
  status_of-Stays d outputs none h = λ s c. c
  status_of-Stays d outputs (some v) h =
      Stays-bind {B = DepStatus} (learn d) (λ u. pure (record { dep = d; state = ready v }))
        (learn-Stays d h) (λ u s c. c)

  check-Stays : (outputs : Dict Ran) (ds : List String) → All IsName ds → Stays (check m outputs ds)
  unfolding check
  check-Stays outputs [] h = λ s c. c
  check-Stays outputs (d ∷ ds) (h, hs) =
      Stays-bind (ask_version m d) _ (ask_version-Stays d h) (λ v.
        Stays-bind (status_of d outputs v) _ (status_of-Stays d outputs v h)
          (λ status. Stays-bind (check m outputs ds) _ (check-Stays outputs ds hs) (λ rest s c. c)))

  -- A job of installs asks of names only.
  pub install_deps-Stays : (ds : List String) → All IsName ds → Stays (install_deps m ds)
  unfolding install_deps
  install_deps-Stays ds h = Stays-bind (refresh_if_stale m) _ refresh_if_stale-Stays (λ u.
      Stays-bind (retried m (install ds)) _ (retried-Stays (install ds) h) (λ r.
        Stays-bind (outputs_of m ds r) _ (outputs_of-Stays ds r h)
          (λ outputs. check-Stays outputs ds h)))

  upgrade_known-Stays :
      (ds : List String) (ok : Bool) → All IsName ds → Stays (upgrade_known m ds ok)
  unfolding upgrade_known
  upgrade_known-Stays ds false h = λ s c. c
  upgrade_known-Stays ds true h =
      Stays-bind (retried m (upgrade ds)) _ (retried-Stays (upgrade ds) h) (λ u s c. c)

  -- And so does a refresh.
  pub refresh_known-Stays : Stays (refresh_known m)
  unfolding refresh_known
  refresh_known-Stays s c = by_known s.known
    where
      by_known :
          (known : List String)
          → IsClean (
              (elim known as (λ _. Outcome Unit × Shop) [
                | [] ↦ (value tt, s)
                | _ ↦ (update m >>= λ ok. upgrade_known m (sort_names s.known) ok) s
              ]).1)
      by_known [] = c
      by_known (d ∷ ds) =
          Stays-bind (update m) _ update-Stays
            (λ ok. upgrade_known-Stays (sort_names s.known) ok (All-sort_names s.known c.known)) s c
