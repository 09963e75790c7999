-- ===== src/Peer/Closing.antt =====
-- How a request of runtime/peer.py ends: by its response, or with the connection.
use ovn_fabric.Prelude.{
  String, ◌≡◌, refl, sym, ap, ◌∙◌, Bool, true, false, some, List, [], ◌∷◌, lookup, lookup-insert,
  contains, str_eq, Bool-cases, inl, inr, arith, if◌then◌else◌,
}
use mathlib.Core.Path.{subst}
use ovn_fabric.Sysdeps.Counts.{contains-without, str_eq-eq, str_eq_refl}
use ovn_fabric.Peer.Requests.{
  response_role, Msg, PeerFault, connection_closed, Request, is_response, deliver, fail, response,
  raised, wait,
}
use ovn_fabric.Peer.Routing.{
  Peer, new_peer, changed, forget, message, routed, answered, receive, fail_all, end_run,
}
use ovn_fabric.Peer.Steps.{Reach}
use ovn_fabric.Peer.Invariant.{
  Shape, waits_on, ended, read_response, read_fault, changed-requests, lookup-changed,
  first_fault-append, new_peer-Inv,
}
use ovn_fabric.Peer.Received.{Reach-Inv}

fail_again : (e : PeerFault) (r : Request) → fail e (fail e r) ≡ fail e r
unfolding fail
fail_again e r = elim (Bool-cases r.is_done) [
  | inl d ↦ ground (arith, d)
  | inr d ↦ ground (arith, d)
]

lookup-changed_own :
    (id : String) (f : Request → Request) (p : Peer) (r : Request)
    → lookup id p.requests ≡ some r
    → lookup id (changed id f p).requests ≡ some (f r)
lookup-changed_own id f p r e =
    ap (lookup id) (changed-requests id f p r e)
    ∙ ground (arith, lookup-insert id id (f r) p.requests, str_eq_refl id)

-- What the end of the connection makes of one request.
lookup-fail_all :
    (id : String) (ids : List String) (p : Peer) (r : Request)
    → lookup id p.requests ≡ some r
    → lookup id (fail_all ids p).requests
      ≡ some (if contains ids id then fail connection_closed r else r)
unfolding fail_all
lookup-fail_all id [] p r e = e
lookup-fail_all id (j ∷ ids) p r e = elim (Bool-cases (str_eq j id)) [
  | inl f ↦
      let q = changed j (fail connection_closed) p in
      let own : lookup id q.requests ≡ some (fail connection_closed r) =
        subst
          (λ i.
            lookup id (changed i (fail connection_closed) p).requests
            ≡ some (fail connection_closed r))
          (sym (str_eq-eq j id f)) (lookup-changed_own id (fail connection_closed) p r e) in
      ground (
        arith,
        f,
        lookup-fail_all id ids q (fail connection_closed r) own,
        fail_again connection_closed r,
      )
  | inr f ↦
      let q = changed j (fail connection_closed) p in
      ground (
        arith,
        f,
        lookup-fail_all id ids q r (lookup-changed id j (fail connection_closed) p f ∙ e),
      )
]

wait-failed :
    (e : PeerFault) (r : Request) → Shape r → r.is_done ≡ false → wait (fail e r) ≡ some (raised e)
unfolding wait fail
wait-failed e r (waits_on d f q) o = ground (arith, d, f, first_fault-append r.queue e q)
wait-failed e r (ended items last d q p k) o = absurd (ground (arith, d, o))
wait-failed e r (read_response n d q k f w) o = absurd (ground (arith, d, o))
wait-failed e r (read_fault d q f w) o = absurd (ground (arith, d, o))

-- When the connection ends, every request that is pending then is done, and waiting for it raises
-- that the connection is closed.
pub end_run-raises :
    (p : Peer) (id : String)
    → Reach new_peer p
    → contains p.pending id ≡ true
    → (r : Request) × (lookup id (end_run p).requests ≡ some r)
      × (wait r ≡ some (raised connection_closed))
unfolding end_run
end_run-raises p id path c =
    let h = Reach-Inv path new_peer-Inv in
    let (r, e, d) = h.running id c in
    (
      fail connection_closed r,
      ground (arith, c, lookup-fail_all id p.pending p r e),
      wait-failed connection_closed r (h.shaped id r e) d,
    )

wait-delivered :
    (m : Msg) (r : Request) → is_response m ≡ true → wait (deliver m r) ≡ some (response m)
unfolding wait deliver
wait-delivered m r e = ground (arith, e)

-- A response to the request with the id.
abbrev pub answer_to : (id kind body : String) → Msg
answer_to id kind body = record { role = response_role; req_id = some id; kind = kind; body = body }

received :
    (p : Peer) (id kind body : String) (has_handler : Bool)
    → contains p.pending id ≡ true
    → receive has_handler (message (answer_to id kind body)) p
      ≡ forget id (changed id (deliver (answer_to id kind body)) p)
unfolding receive routed answered
received p id kind body b c = rw c refl

-- A response to a pending request is what waiting for that request answers with; the request is not
-- pending after it, and the other requests are as before.
pub receive-answers :
    (p : Peer) (id kind body : String) (has_handler : Bool)
    → Reach new_peer p
    → contains p.pending id ≡ true
    → ((r : Request) × (lookup id
            (receive has_handler (message (answer_to id kind body)) p).requests
          ≡ some r)
        × (wait r ≡ some (response (answer_to id kind body))))
      × (contains (receive has_handler (message (answer_to id kind body)) p).pending id ≡ false)
      × ((j : String)
          → str_eq id j ≡ false
          → lookup j (receive has_handler (message (answer_to id kind body)) p).requests
            ≡ lookup j p.requests)
unfolding forget
receive-answers p id kind body b path c =
    let m = answer_to id kind body in
    let (r, e, d) = (Reach-Inv path new_peer-Inv).running id c in
    let same = received p id kind body b c in
    (
      (
        deliver m r,
        ap (λ (q : Peer). lookup id q.requests) same ∙ lookup-changed_own id (deliver m) p r e,
        wait-delivered m r refl,
      ),
      ap (λ (q : Peer). contains q.pending id) same
          ∙ ground
              (arith, contains-without id id (changed id (deliver m) p).pending, str_eq_refl id),
      λ j n. ap (λ (q : Peer). lookup j q.requests) same ∙ lookup-changed j id (deliver m) p n,
    )
