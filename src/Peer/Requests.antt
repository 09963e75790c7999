-- ===== src/Peer/Requests.antt =====
-- runtime/peer.py: `Request`, the requester's side of a request.
use ovn_fabric.Prelude.{
  String, Bool, true, false, Option, none, some, List, [], ◌∷◌, ◌++◌, if◌then◌else◌,
}

pub data Role : Type 0 where
  request_role event_role response_role : Role

-- A message: its role, `reqId`, kind and body (as JSON text).
pub record Msg : Type 0 where
  pub role : Role
  pub req_id : Option String
  pub kind : String
  pub body : String

-- What ends a request without a response: the connection is closed, or the answer is no message.
pub data PeerFault : Type 0 where
  connection_closed : PeerFault
  protocol_error : (code : String) → PeerFault
  no_response : PeerFault

pub data Item : Type 0 where
  arrived : Msg → Item
  broke : PeerFault → Item

pub record Request : Type 0 where
  pub queue : List Item
  pub final : Option Msg
  pub is_done : Bool

unfoldable pub new_request : Request
new_request = record { queue = []; final = none; is_done = false }

abbrev pub is_response : Msg → Bool
is_response m = elim m.role [ response_role ↦ true | _ ↦ false ]

-- `_deliver`
unfoldable pub deliver : Msg → Request → Request
deliver m r =
    let queue = r.queue ++ (arrived m ∷ []) in
    if is_response m
    then record { queue = queue; final = some m; is_done = true }
    else record r { queue = queue }

-- `_fail`
unfoldable pub fail : PeerFault → Request → Request
fail e r = if r.is_done then r else record r { queue = r.queue ++ (broke e ∷ []); is_done = true }

pub data Answer : Type 0 where
  response : Msg → Answer
  raised : PeerFault → Answer

unfoldable pub first_fault : List Item → PeerFault
first_fault [] = no_response
first_fault (arrived m ∷ items) = first_fault items
first_fault (broke e ∷ items) = e

-- What `wait` answers, once the request is done (none: it still waits). `no_response` is the `Closed`
-- of its end.
unfoldable pub wait : Request → Option Answer
unfolding first_fault
wait r =
    if r.is_done
    then elim r.final [ some m ↦ some (response m) | none ↦ some (raised (first_fault r.queue)) ]
    else none

unfoldable pub without_fault : List Item → List Item
without_fault [] = []
without_fault (arrived m ∷ items) = without_fault items
without_fault (broke e ∷ items) = items

unfoldable pub without_first : List Item → List Item
without_first [] = []
without_first (item ∷ items) = items

-- What `wait` leaves of the queue, when it comes to an end: it takes the items up to the first fault.
unfoldable pub waited : Request → Request
unfolding without_fault
waited r =
    if r.is_done
    then elim r.final [ some m ↦ r | none ↦ record r { queue = without_fault r.queue } ]
    else r

-- `__aiter__` takes the next item of the queue, when there is one.
unfoldable pub next_item : Request → Request
unfolding without_first
next_item r = record r { queue = without_first r.queue }
