-- ===== src/Tests/Connections.antt =====
-- Witnesses for the theorems on a connection (runtime/peer.py): one request, and what comes for it.
use ovn_fabric.Prelude.{String, ◌≡◌, refl, true, false, some, lookup, insert, contains, str_eq}
use ovn_fabric.Peer.Requests.{
  Request, new_request, Msg, deliver, wait, response, raised, connection_closed,
}
use ovn_fabric.Peer.Routing.{
  Peer, new_peer, changed, changed_from, forget, routed, answered, send_request, receive, message,
  end_run,
}
use ovn_fabric.Peer.Steps.{Reach, here, next, send, take_frame}
use ovn_fabric.Peer.Invariant.{Shape}
use ovn_fabric.Peer.Received.{Reach-Shape}
use ovn_fabric.Peer.Closing.{answer_to, end_run-raises, receive-answers}

abbrev asking : Peer
asking = send_request true "r1" new_peer

asking-path : Reach new_peer asking
unfolding lookup new_peer
asking-path = next here (send "r1" refl refl)

abbrev reply : Msg
reply = answer_to "r1" "OkRes" "{}"

answered-path : Reach new_peer (receive true (message reply) asking)
unfolding send_request new_peer
answered-path = next asking-path (take_frame true (message reply) refl)

Reach-Shape_example : Shape (deliver reply new_request)
unfolding lookup send_request insert new_peer receive routed answered changed changed_from forget
Reach-Shape_example =
    Reach-Shape (receive true (message reply) asking) "r1" (deliver reply new_request) answered-path
      refl

end_run-raises_example :
    (r : Request) × (lookup "r1" (end_run asking).requests ≡ some r)
    × (wait r ≡ some (raised connection_closed))
unfolding send_request
end_run-raises_example = end_run-raises asking "r1" asking-path refl

receive-answers_example :
    ((r : Request) × (lookup "r1"
          (receive true (message (answer_to "r1" "OkRes" "{}")) asking).requests
        ≡ some r)
      × (wait r ≡ some (response (answer_to "r1" "OkRes" "{}"))))
    × (contains (receive true (message (answer_to "r1" "OkRes" "{}")) asking).pending "r1" ≡ false)
    × ((j : String)
        → str_eq "r1" j ≡ false
        → lookup j (receive true (message (answer_to "r1" "OkRes" "{}")) asking).requests
          ≡ lookup j asking.requests)
unfolding send_request
receive-answers_example = receive-answers asking "r1" "OkRes" "{}" true asking-path refl
