-- ===== src/Peer/Steps.antt =====
-- What can happen on a connection of runtime/peer.py, in any order: requests are sent, read and
-- given up, frames come, and the reader loop ends.
use ovn_fabric.Prelude.{String, ◌≡◌, Bool, true, false, none, lookup}
use ovn_fabric.Peer.Requests.{next_item, waited}
use ovn_fabric.Peer.Routing.{Peer, Frame, changed, forget, send_request, receive, end_run}

pub data Step (p : Peer) : Peer → Type 0 where
  -- `new_req_id` makes an id that no request has.
  send :
      (id : String)
      → lookup id p.requests ≡ none
      → p.closed ≡ false
      → Step p (send_request true id p)
  send_fails : (id : String) → lookup id p.requests ≡ none → Step p (send_request false id p)
  -- The `finally` of `ask`, after a timeout too.
  give_up : (id : String) → Step p (forget id p)
  -- Whoever made the request iterates over it, or waits for its end.
  iterate : (id : String) → Step p (changed id next_item p)
  wait_for : (id : String) → Step p (changed id waited p)
  take_frame :
      (has_handler : Bool) (f : Frame) → p.closed ≡ false → Step p (receive has_handler f p)
  finish_run : p.closed ≡ false → Step p (end_run p)

pub data Reach (p : Peer) : Peer → Type 0 where
  here : Reach p p
  next : {q r : Peer} → Reach p q → Step q r → Reach p r
