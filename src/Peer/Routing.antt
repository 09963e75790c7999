-- ===== src/Peer/Routing.antt =====
-- runtime/peer.py: the requests of a `Peer`, and where an incoming message goes.
use ovn_fabric.Prelude.{
  String, Bool, true, false, not, Option, none, some, List, [], ◌∷◌, ◌++◌, Dict, lookup, insert,
  contains, filter, str_eq, if◌then◌else◌,
}
use ovn_fabric.Peer.Requests.{
  request_role, Msg, connection_closed, protocol_error, Request, new_request, deliver, fail,
  is_response,
}

-- What a peer does with a message that is for no request of its own: its handler, its event handler
-- (if it has one), or an answer with `ErrorRes`.
pub data Effect : Type 0 where
  spawn : Msg → Effect
  event : Msg → Effect
  error_res : (req_id code : String) → Effect

-- `requests` are all that were made, by their ids; `pending` the keys of `_pending`.
pub record Peer : Type 0 where
  pub requests : Dict Request
  pub pending : List String
  pub effects : List Effect
  pub closed : Bool

unfoldable pub new_peer : Peer
new_peer = record { requests = []; pending = []; effects = []; closed = false }

abbrev pub dropped : String → List String → List String
dropped id ids = filter (λ i. not (str_eq i id)) ids

-- A change of the request with the id.
unfoldable pub changed_from : String → (Request → Request) → Peer → Option Request → Peer
changed_from id f p none = p
changed_from id f p (some r) = record p { requests = insert id (f r) p.requests }

unfoldable pub changed : String → (Request → Request) → Peer → Peer
unfolding changed_from
changed id f p = changed_from id f p (lookup id p.requests)

unfoldable pub forget : String → Peer → Peer
forget id p = record p { pending = dropped id p.pending }

unfoldable pub effect : Effect → Peer → Peer
effect e p = record p { effects = p.effects ++ (e ∷ []) }

-- `request`: its id is registered before the message is sent, and taken away when that fails.
unfoldable pub send_request : (sent : Bool) → String → Peer → Peer
unfolding forget
send_request sent id p =
    let q = record p { requests = insert id new_request p.requests; pending = id ∷ p.pending } in
    if sent then q else forget id q

-- A frame, as `decode` reads it: a message, or an error that may know the `reqId`.
pub data Frame : Type 0 where
  message : Msg → Frame
  invalid : (req_id : Option String) (code : String) → Frame

unfoldable pub refused : String → String → Peer → Peer
unfolding changed forget effect
refused id code p =
    if contains p.pending id
    then changed id (fail (protocol_error code)) (forget id p)
    else effect (error_res id code) p

unfoldable pub answered : String → Msg → Peer → Peer
unfolding changed forget
answered id m p = let q = changed id (deliver m) p in if is_response m then forget id q else q

unfoldable pub told : (has_handler : Bool) → Msg → Peer → Peer
unfolding effect
told true m p = effect (event m) p
told false m p = p

unfoldable pub routed : Bool → Msg → Option String → Peer → Peer
unfolding answered told
routed h m none p = told h m p
routed h m (some id) p = if contains p.pending id then answered id m p else told h m p

-- `_receive`, of a peer with or without an `on_event`
unfoldable pub receive : Bool → Frame → Peer → Peer
unfolding refused routed effect
receive h (invalid none code) p = p
receive h (invalid (some id) code) p = refused id code p
receive h (message m) p = elim m.role [
  | request_role ↦ effect (spawn m) p
  | _ ↦ routed h m m.req_id p
]

-- The end of `run`: every request that is still pending fails.
unfoldable pub fail_all : List String → Peer → Peer
unfolding changed
fail_all [] p = p
fail_all (id ∷ ids) p = fail_all ids (changed id (fail connection_closed) p)

unfoldable pub end_run : Peer → Peer
end_run p = record (fail_all p.pending p) { pending = []; closed = true }
