-- ===== src/Peer/Received.antt =====
-- Every step of a connection (runtime/peer.py) keeps its requests in shape; a response reaches the
-- request that it is for.
use ovn_fabric.Prelude.{
  String, ◌≡◌, sym, ap, ◌∙◌, Bool, true, false, Option, none, some, List, [], ◌∷◌, ◌++◌, lookup,
  lookup-insert, contains, str_eq, Bool-cases, inl, inr, arith,
}
use mathlib.Core.Path.{subst}
use ovn_fabric.Sysdeps.Counts.{contains-without}
use ovn_fabric.Peer.Requests.{
  Role, request_role, event_role, response_role, Msg, connection_closed, protocol_error, Request,
  is_response, deliver, fail, next_item, waited,
}
use ovn_fabric.Peer.Reading.{
  changed-Inv, next_item-Shape, next_item-done, waited-Shape, waited-done,
}
use ovn_fabric.Peer.Routing.{
  Peer, new_peer, spawn, changed, forget, effect, send_request, Frame, message, invalid, refused,
  answered, told, routed, receive, fail_all, end_run, dropped,
}
use ovn_fabric.Peer.Steps.{
  Step, send, send_fails, give_up, iterate, wait_for, take_frame, finish_run, Reach, here, next,
}
use ovn_fabric.Peer.Invariant.{
  Shape, Inv, IsShaped, some-eq, deliver-Shape, fail-Shape, changed-IsShaped, changed-requests,
  changed-pending, lookup-changed, new_peer-Inv, forget-Inv, send-Inv,
}

-- A request that is pending is not done.
pub pending_not_done :
    (p : Peer) (id : String)
    → Inv p
    → contains p.pending id ≡ true
    → (r : Request) → lookup id p.requests ≡ some r
    → r.is_done ≡ false
pending_not_done p id h c r e =
    let (t, g, d) = h.running id c in
    let same : some t ≡ some r = sym g ∙ e in
    ap (λ (x : Request). x.is_done) (sym (some-eq same)) ∙ d

-- What stays pending when one request is not: the others, as they were.
others-running :
    (id : String) (f : Request → Request) (p : Peer)
    → Inv p
    → (j : String) → contains (dropped id p.pending) j ≡ true
    → (r : Request) × (lookup j (changed id f p).requests ≡ some r) × (r.is_done ≡ false)
others-running id f p h j c =
    let facts = contains-without j id p.pending in
    let other : str_eq id j ≡ false = ground (arith, c, facts) in
    let (r, g, d) = h.running j (ground (arith, c, facts)) in
    (r, lookup-changed j id f p other ∙ g, d)

refused-Inv : (id code : String) (p : Peer) → Inv p → Inv (refused id code p)
unfolding refused forget effect
refused-Inv id code p h = elim (Bool-cases (contains p.pending id)) [
  | inl c ↦ rw c (record {
    shaped =
        changed-IsShaped id (fail (protocol_error code)) q (λ r e. fail-Shape _ r (h.shaped id r e))
          h.shaped;
    running = λ j d.
        others-running_forgotten j
          (subst (λ ids. contains ids j ≡ true) (changed-pending id _ q) d);
  })
  | inr c ↦ rw c (record { shaped = h.shaped; running = h.running })
]
  where
    q : Peer
    q = record p { pending = dropped id p.pending }

    others-running_forgotten :
        (j : String)
        → contains (dropped id p.pending) j ≡ true
        → (r : Request) × (lookup j (changed id (fail (protocol_error code)) q).requests ≡ some r)
          × (r.is_done ≡ false)
    others-running_forgotten j c =
        let facts = contains-without j id p.pending in
        let (r, g, d) = h.running j (ground (arith, c, facts)) in
        (r, lookup-changed j id _ q (ground (arith, c, facts)) ∙ g, d)

deliver-running :
    (m : Msg) (r : Request)
    → is_response m ≡ false
    → r.is_done ≡ false
    → (deliver m r).is_done ≡ false
unfolding deliver
deliver-running m r e d = ground (arith, e, d)

answered-Inv :
    (id : String) (m : Msg) (p : Peer)
    → Inv p
    → contains p.pending id ≡ true
    → Inv (answered id m p)
unfolding answered forget
answered-Inv id m p h c = elim (Bool-cases (is_response m)) [
  | inl e ↦ rw e (record {
    shaped = kept;
    running = λ j d.
        others-running id (deliver m) p h j
          (subst (λ ids. contains (dropped id ids) j ≡ true) (changed-pending id _ p) d);
  })
  | inr e ↦ rw e (record {
    shaped = kept;
    running = λ j d. still e j (subst (λ ids. contains ids j ≡ true) (changed-pending id _ p) d);
  })
]
  where
    kept : IsShaped (changed id (deliver m) p).requests
    kept =
        changed-IsShaped id (deliver m) p
          (λ r e. deliver-Shape m r (h.shaped id r e) (pending_not_done p id h c r e)) h.shaped

    still :
        is_response m ≡ false
        → (j : String) → contains p.pending j ≡ true
        → (r : Request) × (lookup j (changed id (deliver m) p).requests ≡ some r)
          × (r.is_done ≡ false)
    still e j k = elim (Bool-cases (str_eq id j)) [
      | inl f ↦
          let (r, g, d) = h.running id c in
          (
            deliver m r,
            ap (lookup j) (changed-requests id (deliver m) p r g)
                ∙ ground (arith, f, lookup-insert j id (deliver m r) p.requests),
            deliver-running m r e d,
          )
      | inr f ↦ let (r, g, d) = h.running j k in (r, lookup-changed j id (deliver m) p f ∙ g, d)
    ]

told-Inv : (has_handler : Bool) (m : Msg) (p : Peer) → Inv p → Inv (told has_handler m p)
unfolding told effect
told-Inv true m p h = record { shaped = h.shaped; running = h.running }
told-Inv false m p h = h

routed-Inv :
    (has_handler : Bool) (m : Msg) (o : Option String) (p : Peer)
    → Inv p
    → Inv (routed has_handler m o p)
unfolding routed
routed-Inv b m none p h = told-Inv b m p h
routed-Inv b m (some id) p h = elim (Bool-cases (contains p.pending id)) [
  | inl c ↦ rw c (answered-Inv id m p h c)
  | inr c ↦ rw c (told-Inv b m p h)
]

receive-Inv : (has_handler : Bool) (f : Frame) (p : Peer) → Inv p → Inv (receive has_handler f p)
unfolding receive effect
receive-Inv b (invalid none code) p h = h
receive-Inv b (invalid (some id) code) p h = refused-Inv id code p h
receive-Inv b (message m) p h = by_role m.role
  where
    by_role :
        (role : Role)
        → Inv (elim role [
          | request_role ↦ record p { effects = p.effects ++ (spawn m ∷ []) }
          | _ ↦ routed b m m.req_id p
        ])
    by_role request_role = record { shaped = h.shaped; running = h.running }
    by_role event_role = routed-Inv b m m.req_id p h
    by_role response_role = routed-Inv b m m.req_id p h

fail_all-IsShaped :
    (ids : List String) (p : Peer) → IsShaped p.requests → IsShaped (fail_all ids p).requests
unfolding fail_all
fail_all-IsShaped [] p h = h
fail_all-IsShaped (id ∷ ids) p h = fail_all-IsShaped ids (changed id (fail connection_closed) p) (
    changed-IsShaped id (fail connection_closed) p
      (λ r e. fail-Shape connection_closed r (h id r e)) h)

end_run-Inv : (p : Peer) → Inv p → Inv (end_run p)
unfolding end_run
end_run-Inv p h = record {
  shaped = fail_all-IsShaped p.pending p h.shaped;
  running = λ id c. absurd (ground (arith, c));
}

Step-Inv : {p q : Peer} → Step p q → Inv p → Inv q
unfolding send_request
Step-Inv {p} (send id fresh up) h = send-Inv id p h
Step-Inv {p} (send_fails id fresh) h = forget-Inv id _ (send-Inv id p h)
Step-Inv {p} (give_up id) h = forget-Inv id p h
Step-Inv {p} (iterate id) h = changed-Inv id next_item p next_item-Shape next_item-done h
Step-Inv {p} (wait_for id) h = changed-Inv id waited p waited-Shape waited-done h
Step-Inv {p} (take_frame b f up) h = receive-Inv b f p h
Step-Inv {p} (finish_run up) h = end_run-Inv p h

pub Reach-Inv : {p q : Peer} → Reach p q → Inv p → Inv q
Reach-Inv here h = h
Reach-Inv (next path st) h = Step-Inv st (Reach-Inv path h)

-- In every state of a connection, its requests read or waited for at any time, each request that was
-- made has its shape. One that is not done has no response, and in its queue messages only that are
-- not final. One that is done has in its queue those and then one end, a response or a fault, which
-- is what waiting for it answers with; or its queue is empty, and waiting answers with the response,
-- or, when there was none, raises that there is no response.
pub Reach-Shape :
    (p : Peer) (id : String) (r : Request)
    → Reach new_peer p
    → lookup id p.requests ≡ some r
    → Shape r
Reach-Shape p id r path e = (Reach-Inv path new_peer-Inv).shaped id r e
