-- ===== src/Sysdeps/Response.antt =====
-- The response of a request of fabric/services/sysdeps.py (the end of `_wait`).
use ovn_fabric.Prelude.{
  ◌≤◌, String, ◌≡◌, refl, ap, true, Option, none, some, Option-cases, ap₂, List, [], ◌∷◌, ◌++◌,
  All-at, contains, str_eq, if◌then◌else◌, arith, Bool-cases, inl, inr, ◌>>=◌,
}
use ovn_fabric.Sysdeps.Manager.{Manager, DepStatus, Shop}
use ovn_fabric.Sysdeps.Requests.{Request, Resolver, time_out}
use ovn_fabric.Sysdeps.Counts.{count, count-contained, str_eq-eq, str_eq_refl}
use ovn_fabric.Sysdeps.Settling.{names}
use ovn_fabric.Sysdeps.Steps.{Reach, started}
use ovn_fabric.Sysdeps.Invariant.{Reach-Inv, started-Inv, All-IsRegular}
use ovn_fabric.Sysdeps.Regular.{IsRegular, time_out-IsRegular}

-- `settled[dep]`: the last status that was put there.
unfoldable pub status_for : List DepStatus → String → Option DepStatus
status_for [] d = none
status_for (s ∷ ss) d = elim (status_for ss d) [
  | some t ↦ some t
  | none ↦ if str_eq s.dep d then some s else none
]

-- `[settled[dep] for dep in deps]`, with `none` for a `KeyError`.
unfoldable pub statuses_for : List DepStatus → List String → Option (List DepStatus)
statuses_for ss [] = some []
statuses_for ss (d ∷ ds) = do s ← status_for ss d; rest ← statuses_for ss ds; some (s ∷ rest)

-- What a request answers with when its loop of waiting is over: what still waits has timed out.
unfoldable pub response : Request → Option (List DepStatus)
unfolding statuses_for
response a = statuses_for (time_out a).settled a.deps

status_for-named :
    (ss : List DepStatus) (d : String) (t : DepStatus) → status_for ss d ≡ some t → t.dep ≡ d
unfolding status_for
status_for-named [] d t h = ground arith
status_for-named (s ∷ ss) d t h = elim (Option-cases (status_for ss d)) [
  | inl e ↦ elim (Bool-cases (str_eq s.dep d)) [
    | inl f ↦ ground (arith, e, f, h, str_eq-eq s.dep d f)
    | inr f ↦ ground (arith, e, f, h)
  ]
  | inr (u, e) ↦ status_for-named ss d t (ground (arith, e, h))
]

status_for-missing :
    (ss : List DepStatus) (d : String) → status_for ss d ≡ none → count d (names ss) ≡ 0
unfolding status_for count
status_for-missing [] d h = refl
status_for-missing (s ∷ ss) d h = elim (Option-cases (status_for ss d)) [
  | inl e ↦ ground (arith, h, e, status_for-missing ss d e)
  | inr (u, e) ↦ ground (arith, h, e)
]

statuses_for-named :
    (ss : List DepStatus) (ds : List String)
    → ((d : String) → contains ds d ≡ true → 1 ≤ count d (names ss))
    → (ts : List DepStatus) × (statuses_for ss ds ≡ some ts) × (names ts ≡ ds)
unfolding statuses_for
statuses_for-named ss [] h = ([], refl, refl)
statuses_for-named ss (d ∷ ds) h =
    let (ts, e, n) = statuses_for-named ss ds (λ x c. h x (ground (arith, c))) in
    elim (Option-cases (status_for ss d)) [
      | inl f ↦
          absurd (ground (arith, status_for-missing ss d f, h d (ground (arith, str_eq_refl d))))
      | inr (t, f) ↦ (t ∷ ts, ground (arith, e, f), ap₂ ◌∷◌ (status_for-named ss d t f) n)
    ]

response-IsRegular :
    (a : Request)
    → IsRegular a
    → a.queued ≡ true
    → (ts : List DepStatus) × (response a ≡ some ts) × (names ts ≡ a.deps)
unfolding response time_out count
response-IsRegular a h q = statuses_for-named (time_out a).settled a.deps (λ d c. ground (
  arith,
  (time_out-IsRegular a h).accounted d,
  ap (count d) (h.looped q),
  count-contained d a.deps c,
))

-- In every state that the resolver comes to, a request that has put its job into the queue and ends
-- now (settled, or with its time over) answers with one status for each of its dependencies, in
-- their order.
pub response-names :
    (m : Manager) (shop : Shop) (r : Resolver) (before after : List Request) (a : Request)
    → Reach m (started shop) r
    → r.requests ≡ before ++ (a ∷ after)
    → a.queued ≡ true
    → (ts : List DepStatus) × (response a ≡ some ts) × (names ts ≡ a.deps)
response-names m shop r before after a path e q =
    let h = Reach-Inv path (started-Inv shop) in
    response-IsRegular a (All-at IsRegular before after a (All-IsRegular e h.regular)) q
