-- ===== src/Tests/Node.antt =====
-- One process: replays, what holds up its deliveries, and where they come from.
use total_order_multicast.Common.{true, false, not, ◌&&◌, ◌⊎◌, ◌≡◌, refl, All, Result, ok, throw}
use total_order_multicast.HoldBack.{
  PendingMessage, undeliverable, before, seq_key, lookup, insert_undeliverable, find, assign,
}
use total_order_multicast.Common.OrderedSet
use total_order_multicast.HoldBack.Order.{SamePlace, before_strict_total}
use total_order_multicast.Process.{Node, accept_data, propose, reply, next_seq_num}
use total_order_multicast.Process.Server.{Served, initial, outcome}
use total_order_multicast.Process.Order.{start-NodeInv}
use total_order_multicast.Process.Progress.{WaitsForSender, outcome-WaitsForSender}
use total_order_multicast.Process.Replay.{AnswersAlike, accept_data-again}
use total_order_multicast.Process.Integrity.{ReceivedIn, outcome-Genuine}
use total_order_multicast.Udp.{send}
use total_order_multicast.Tests.Sites.{pc, open_client, data_of, site_0}

-- The state that a handler leaves.
abbrev pub state_of : Result Node → Node
state_of (ok node) = node
state_of (throw x) = initial site_0

abbrev after_data : Node
after_data = state_of (accept_data pc (initial site_0) open_client (data_of 0 7))

accept_data-ok : accept_data pc (initial site_0) open_client (data_of 0 7) ≡ ok after_data
unfolding accept_data propose reply next_seq_num send lookup insert_undeliverable find assign
    OrderedSet.count OrderedSet.insert
accept_data-ok = refl

accept_data-again_example :
    AnswersAlike pc
      (initial site_0)
      after_data
      open_client
      open_client
      (data_of 0 7)
      (data_of 0 7)
      refl
accept_data-again_example =
    accept_data-again pc (initial site_0) after_data open_client open_client (data_of 0 7)
      (data_of 0 7) refl (start-NodeInv site_0).queue.shape accept_data-ok

outcome-WaitsForSender_example :
    Served (λ node. WaitsForSender node.process.hold_back_queue) (outcome site_0)
outcome-WaitsForSender_example = outcome-WaitsForSender site_0

outcome-Genuine_example :
    Served
      (λ node. All (λ d. ReceivedIn site_0.host site_0.incoming (seq_key d)) node.delivered)
      (outcome site_0)
outcome-Genuine_example = outcome-Genuine site_0

abbrev pub pending_7 : PendingMessage
pending_7 =
    undeliverable (record { sender = 0; msg_id = 7 }) (record { seq = 1; seq_proposer = 0 }) 5

abbrev pending_9 : PendingMessage
pending_9 =
    undeliverable (record { sender = 1; msg_id = 9 }) (record { seq = 2; seq_proposer = 0 }) 5

abbrev final_9 : PendingMessage
final_9 = record pending_9 { deliverable = true }

before_strict_total_example :
    (before pending_7 pending_7 ≡ false)
    × ((before pending_7 pending_9 && before pending_9 pending_7) ≡ false)
    × ((before pending_7 pending_9 && before pending_9 final_9 && not (before pending_7 final_9))
        ≡ false)
    × ((before pending_7 pending_9 ≡ true)
        ⊎ (before pending_9 pending_7 ≡ true)
        ⊎ SamePlace pending_7 pending_9)
before_strict_total_example = before_strict_total pending_7 pending_9 final_9
