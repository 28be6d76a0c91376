-- ===== src/Process/Data.antt =====
-- src/process.cc: HandleDataMsg behind its validation, on a pending message and on a new one.
use total_order_multicast.Common.{
  ◌+◌, ◌<◌, ◌≡◌, inl, inr, none, some, All-mono, All-mono₂, Option-cases, ok, arith,
}
use total_order_multicast.Common.OrderedSet.Laws.{All-insert}
use total_order_multicast.Message.Host.{Host, u32_mod}
use total_order_multicast.Message.{DataMessage}
use total_order_multicast.Message.Wire.{ack_msg_bytes}
use total_order_multicast.HoldBack.{PendingMessageSeq, before, find, data_key, lookup, old_ack}
use total_order_multicast.HoldBack.Invariant.{QueueShape}
use total_order_multicast.HoldBack.Loop.{Follows}
use total_order_multicast.HoldBack.Insertion.{
  extended, added, insert_undeliverable-eq, extended-QueueInv,
}
use total_order_multicast.Process.{Node, next_seq_num, reply, new_ack, propose, accept_data}
use total_order_multicast.Udp.{Client}
use total_order_multicast.Process.Invariant.{NodeInv, Settles, reply-Settles, NodeInv-sent}

module _ (host : Host) where
  -- The process after a new number was proposed.
  abbrev pub proposed : Node → DataMessage → Node
  proposed node m = record node {
    process = record node.process {
      hold_back_queue =
          extended node.process.hold_back_queue (new_ack host node.process m) m.payload;
      seq_counter = next_seq_num node.process;
    };
  }

  -- A new message is accepted: the queue throws nothing.
  propose-eq :
      (node : Node) (m : DataMessage)
      → QueueShape node.process.hold_back_queue
      → find (data_key m) node.process.hold_back_queue.pending_seqs ≡ none
      → propose host node.process m ≡ ok (proposed node m).process
  unfolding propose
  propose-eq node m shape new =
      rw (insert_undeliverable-eq shape (new_ack host node.process m) m.payload new)

  module _ (node : Node) (inv : NodeInv node) (m : DataMessage)
      (new : find (data_key m) node.process.hold_back_queue.pending_seqs ≡ none)
      (room : node.process.seq_counter + 1 < u32_mod) where
    next-eq : next_seq_num node.process ≡ node.process.seq_counter + 1
    unfolding next_seq_num
    next-eq = omega arith

    pub proposed-NodeInv : NodeInv (proposed node m)
    proposed-NodeInv = record {
      queue =
          extended-QueueInv inv.queue (new_ack host node.process m) m.payload new
            (omega (arith, next-eq));
      increasing = inv.increasing;
      follows =
          All-mono₂ _ _ _
            (λ d f s.
              All-insert before (Follows d) (added (new_ack host node.process m) m.payload) _
                (inl (omega (arith, next-eq))) f)
            node.delivered inv.follows inv.seen;
      seen = All-mono _ _ (λ d s. omega (arith, next-eq)) node.delivered inv.seen;
    }

  -- A message in the queue: the recorded number is sent again, and nothing else changes.
  pub accept_data-pending :
      (node : Node) (client : Client) (m : DataMessage) (v : PendingMessageSeq)
      → find (data_key m) node.process.hold_back_queue.pending_seqs ≡ some v
      → accept_data host node client m
        ≡ reply host node client (ack_msg_bytes host (old_ack host m v))
  unfolding accept_data lookup
  accept_data-pending node client m v e = rw (accept_data, lookup, e)

  pub accept_data-new :
      (node : Node) (client : Client) (m : DataMessage)
      → QueueShape node.process.hold_back_queue
      → find (data_key m) node.process.hold_back_queue.pending_seqs ≡ none
      → accept_data host node client m
        ≡ reply host (proposed node m) client (ack_msg_bytes host (new_ack host node.process m))
  unfolding accept_data lookup
  accept_data-new node client m shape e =
      rw (accept_data, lookup, e) (rw (propose-eq node m shape e))

  -- HandleDataMsg behind the validation: it keeps the invariant, and throws only if sendto fails.
  pub accept_data-Settles :
      (node : Node) (client : Client) (m : DataMessage)
      → NodeInv node
      → node.process.seq_counter + 1 < u32_mod
      → Settles client NodeInv (accept_data host node client m)
  accept_data-Settles node client m inv room =
      elim (Option-cases (find (data_key m) node.process.hold_back_queue.pending_seqs)) [
        | inr (v, e) ↦ rw (accept_data-pending node client m v e) (
            reply-Settles host node client (ack_msg_bytes host (old_ack host m v)) NodeInv
              (λ s. NodeInv-sent s inv))
        | inl e ↦ rw (accept_data-new node client m inv.queue.shape e) (
            reply-Settles host (proposed node m) client
              (ack_msg_bytes host (new_ack host node.process m)) NodeInv
              (λ s. NodeInv-sent s (proposed-NodeInv node inv m e room)))
      ]
