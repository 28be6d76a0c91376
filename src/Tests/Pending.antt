-- ===== src/Tests/Pending.antt =====
-- One HoldBackQueue with two messages, the second of which gets its final number.
use total_order_multicast.Common.{◌≡◌, refl, ◌↔◌, true, some, arith}
use total_order_multicast.Message.{AckMessage}
use total_order_multicast.HoldBack.{
  PendingMessageSeq, PendingMessage, HoldBackQueue, empty, set_deliverable, find, assign,
}
use total_order_multicast.HoldBack.Invariant.{QueueInv}
use total_order_multicast.HoldBack.Insertion.{extended, extended-QueueInv}
use total_order_multicast.HoldBack.Contents.{Contains}
use total_order_multicast.HoldBack.Split.{IsCalled, IsFree, IsHeldUp}
use total_order_multicast.HoldBack.Refinement.{Finalized, set_deliverable-Finalized}
use total_order_multicast.Process.Order.{start-NodeInv}
use total_order_multicast.Tests.Sites.{pc, seq_of, site_0}
use total_order_multicast.Tests.Node.{pending_7}

abbrev ack_7 : AckMessage
ack_7 = record { type = 1; sender = 0; msg_id = 7; proposed_seq = 1; proposer = 0 }

abbrev ack_9 : AckMessage
ack_9 = record { type = 1; sender = 1; msg_id = 9; proposed_seq = 2; proposer = 0 }

abbrev one_pending : HoldBackQueue
one_pending = extended empty ack_7 5

abbrev two_pending : HoldBackQueue
two_pending = extended one_pending ack_9 6

one_pending-QueueInv : QueueInv 1 one_pending
unfolding find
one_pending-QueueInv = extended-QueueInv (start-NodeInv site_0).queue ack_7 5 refl (omega arith)

two_pending-QueueInv : QueueInv 2 two_pending
unfolding find assign
two_pending-QueueInv = extended-QueueInv one_pending-QueueInv ack_9 6 refl (omega arith)

abbrev old_9 : PendingMessageSeq
old_9 = record { seq = 2; seq_proposer = 0 }

find_9 : find (record { sender = 1; msg_id = 9 }) two_pending.pending_seqs ≡ some old_9
unfolding find assign
find_9 = refl

-- The final number of the second message is behind the first, which holds it up.
abbrev Pending : PendingMessage → Type 0
Pending = Finalized pc (seq_of 1 9 4 1) two_pending old_9

set_deliverable-Finalized_example :
    let u = set_deliverable pc two_pending (seq_of 1 9 4 1) in
    (Contains pending_7 u.queue.ordering ↔ (Pending pending_7 × IsHeldUp Pending pending_7))
    × (((pending_7.deliverable ≡ true) × IsCalled pending_7 u.calls)
        ↔ (Pending pending_7 × IsFree Pending pending_7))
set_deliverable-Finalized_example =
    set_deliverable-Finalized pc (seq_of 1 9 4 1) two_pending old_9 two_pending-QueueInv.shape
      find_9 pending_7
