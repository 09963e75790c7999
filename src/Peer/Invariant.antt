-- ===== src/Peer/Invariant.antt =====
-- What every request of a peer (runtime/peer.py) has: messages that are not final, and at most one
-- end after them.
use ovn_fabric.Prelude.{
  String, ◌≡◌, refl, ap, true, false, Option, none, some, List, [], ◌∷◌, ◌++◌, All, All-append,
  Dict, lookup, insert, lookup-insert, contains, str_eq, Bool-cases, Option-cases, inl, inr, arith,
}
use mathlib.Core.Path.{subst}
use ovn_fabric.Sysdeps.Counts.{contains-without}
use ovn_fabric.Peer.Requests.{
  Msg, PeerFault, Item, arrived, broke, Request, new_request, is_response, deliver, fail, response,
  raised, first_fault, no_response, wait,
}
use ovn_fabric.Peer.Routing.{Peer, new_peer, changed, changed_from, forget, send_request}

-- A message that is not the final one.
abbrev pub IsProgress : Item → Type 0
IsProgress (arrived m) = is_response m ≡ false
IsProgress (broke e) = ⊥

-- The end of a request that is done is what `wait` answers with while it is in the queue.
abbrev pub IsEnd : Request → Item → Type 0
IsEnd r (arrived m) = (is_response m ≡ true) × (r.final ≡ some m) × (wait r ≡ some (response m))
IsEnd r (broke e) = (r.final ≡ none) × (wait r ≡ some (raised e))

pub data Shape (r : Request) : Type 0 where
  waits_on : r.is_done ≡ false → r.final ≡ none → All IsProgress r.queue → Shape r
  ended :
      (items : List Item) (last : Item)
      → r.is_done ≡ true
      → r.queue ≡ items ++ (last ∷ [])
      → All IsProgress items
      → IsEnd r last
      → Shape r
  -- All that came was taken from the queue: a response is kept, a fault is not.
  read_response :
      (m : Msg)
      → r.is_done ≡ true
      → r.queue ≡ []
      → is_response m ≡ true
      → r.final ≡ some m
      → wait r ≡ some (response m)
      → Shape r
  read_fault :
      r.is_done ≡ true
      → r.queue ≡ []
      → r.final ≡ none
      → wait r ≡ some (raised no_response)
      → Shape r

pub first_fault-append :
    (items : List Item) (e : PeerFault)
    → All IsProgress items
    → first_fault (items ++ (broke e ∷ [])) ≡ e
unfolding first_fault
first_fault-append [] e h = refl
first_fault-append (arrived m ∷ items) e (h, hs) = first_fault-append items e hs
first_fault-append (broke f ∷ items) e (h, hs) = absurd h

new_request-Shape : Shape new_request
unfolding new_request
new_request-Shape = waits_on refl refl tt

pub deliver-Shape : (m : Msg) (r : Request) → Shape r → r.is_done ≡ false → Shape (deliver m r)
unfolding deliver wait
deliver-Shape m r (waits_on d f q) o = elim (Bool-cases (is_response m)) [
  | inl e ↦ rw e (ended r.queue (arrived m) refl refl q (e, refl, refl))
  | inr e ↦ rw e (waits_on d f (All-append IsProgress r.queue (arrived m ∷ []) q (e, tt)))
]
deliver-Shape m r (ended items last d q p e) o = absurd (ground (arith, d, o))
deliver-Shape m r (read_response n d q k f w) o = absurd (ground (arith, d, o))
deliver-Shape m r (read_fault d q f w) o = absurd (ground (arith, d, o))

broken : PeerFault → Request → Request
broken e r = record r { queue = r.queue ++ (broke e ∷ []); is_done = true }

broken-Shape :
    (e : PeerFault) (r : Request) → r.final ≡ none → All IsProgress r.queue → Shape (broken e r)
unfolding broken wait
broken-Shape e r f q =
    ended r.queue (broke e) refl refl q (f, ground (arith, f, first_fault-append r.queue e q))

pub fail-Shape : (e : PeerFault) (r : Request) → Shape r → Shape (fail e r)
unfolding fail broken
fail-Shape e r (waits_on d f q) =
    let same : broken e r ≡ fail e r = ground (arith, d) in subst Shape same (broken-Shape e r f q)
fail-Shape e r (ended items last d q p k) =
    let same : r ≡ fail e r = ground (arith, d) in subst Shape same (ended items last d q p k)
fail-Shape e r (read_response n d q k f w) =
    let same : r ≡ fail e r = ground (arith, d) in subst Shape same (read_response n d q k f w)
fail-Shape e r (read_fault d q f w) =
    let same : r ≡ fail e r = ground (arith, d) in subst Shape same (read_fault d q f w)

-- The requests of a peer: each has its shape, and a pending one is not done.
pub record Inv (p : Peer) : Type 0 where
  pub shaped : (id : String) (r : Request) → lookup id p.requests ≡ some r → Shape r
  pub running :
      (id : String)
      → contains p.pending id ≡ true
      → (r : Request) × (lookup id p.requests ≡ some r) × (r.is_done ≡ false)

pub some-eq : {A : Type 0} {x y : A} → some x ≡ some y → x ≡ y
some-eq {x = x} e = ap (λ (o : Option _). elim o [ some z ↦ z | none ↦ x ]) e

-- One request more, or another one in its place.
abbrev pub IsShaped : Dict Request → Type 0
IsShaped d = (id : String) (r : Request) → lookup id d ≡ some r → Shape r

pub insert-IsShaped :
    (id : String) (r : Request) (d : Dict Request) → Shape r → IsShaped d → IsShaped (insert id r d)
insert-IsShaped id r d s h j t e = elim (Bool-cases (str_eq id j)) [
  | inl f ↦
      let same : some r ≡ some t = ground (arith, e, f, lookup-insert j id r d) in
      subst Shape (some-eq same) s
  | inr f ↦ h j t (ground (arith, e, f, lookup-insert j id r d))
]

-- Where a request is changed.
pub changed-requests :
    (id : String) (f : Request → Request) (p : Peer) (r : Request)
    → lookup id p.requests ≡ some r
    → (changed id f p).requests ≡ insert id (f r) p.requests
unfolding changed changed_from
changed-requests id f p r e = rw e refl

pub changed-IsShaped :
    (id : String) (f : Request → Request) (p : Peer)
    → ((r : Request) → lookup id p.requests ≡ some r → Shape (f r))
    → IsShaped p.requests
    → IsShaped (changed id f p).requests
unfolding changed changed_from
changed-IsShaped id f p g h = elim (Option-cases (lookup id p.requests)) [
  | inl e ↦ rw e h
  | inr (r, e) ↦ rw e (insert-IsShaped id (f r) p.requests (g r e) h)
]

-- A change of one request leaves what is pending, and the others.
pub changed-pending :
    (id : String) (f : Request → Request) (p : Peer) → (changed id f p).pending ≡ p.pending
unfolding changed changed_from
changed-pending id f p = elim (Option-cases (lookup id p.requests)) [
  | inl e ↦ rw e refl
  | inr (r, e) ↦ rw e refl
]

pub lookup-changed :
    (j id : String) (f : Request → Request) (p : Peer)
    → str_eq id j ≡ false
    → lookup j (changed id f p).requests ≡ lookup j p.requests
unfolding changed changed_from
lookup-changed j id f p n = elim (Option-cases (lookup id p.requests)) [
  | inl e ↦ rw e refl
  | inr (r, e) ↦ rw e (ground (arith, n, lookup-insert j id (f r) p.requests))
]

pub new_peer-Inv : Inv new_peer
unfolding new_peer lookup
new_peer-Inv = record {
  shaped = λ id r e. absurd (ground (arith, e));
  running = λ id e. absurd (ground (arith, e));
}

pub forget-Inv : (id : String) (p : Peer) → Inv p → Inv (forget id p)
unfolding forget
forget-Inv id p h = record {
  shaped = h.shaped;
  running = λ j e. h.running j (ground (arith, e, contains-without j id p.pending));
}

pub send-Inv : (id : String) (p : Peer) → Inv p → Inv (send_request true id p)
unfolding send_request new_request
send-Inv id p h = record {
  shaped = insert-IsShaped id new_request p.requests new_request-Shape h.shaped;
  running = λ j e. elim (Bool-cases (str_eq id j)) [
    | inl f ↦ (new_request, ground (arith, f, lookup-insert j id new_request p.requests), refl)
    | inr f ↦
        let (r, g, d) = h.running j (ground (arith, e, f)) in
        (r, ground (arith, g, f, lookup-insert j id new_request p.requests), d)
  ];
}
