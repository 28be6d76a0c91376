-- ===== src/Process/Seq.antt =====
-- src/process.cc: HandleSeqMsg behind its validation, and the invariant.
use mathlib.Core.List.{append-nil}
use total_order_multicast.Common.{
  ℕ, ◌≤◌, ◌≡◌, inl, inr, none, some, List, [], All, All-mono, All-append, Option-cases, arith,
}
use total_order_multicast.Common.OrderedSet
use total_order_multicast.Common.OrderedSet.Laws.{
  All-insert, All-erase, count-All, IsSorted-insert, IsSorted-erase,
}
use total_order_multicast.Message.Host.{Host}
use total_order_multicast.Message.{SeqMessage}
use total_order_multicast.Message.Wire.{seq_ack_msg_bytes}
use total_order_multicast.HoldBack.{
  PendingMessageSeq, PendingMessage, HoldBackQueue, before, find, seq_key, undeliverable, finalized,
  deliver_ready, reorder, to_deliver, remove, set_deliverable,
}
use total_order_multicast.HoldBack.Order.{before_trans, before_total}
use total_order_multicast.HoldBack.Loop.{
  IsIncreasing-append, Follows, calls-Earlier, calls-All, calls-IsIncreasing, rest-Follows,
  deliver_ready-All,
}
use total_order_multicast.HoldBack.Finalization.{updated-QueueInv}
use total_order_multicast.Process.{Process, Node, forward_seq_num, finalize, accept_seq, seq_ack}
use total_order_multicast.Udp.{Client}
use total_order_multicast.Process.Invariant.{
  NodeInv, Settles, Settles->>=, reply-Settles, NodeInv-sent, QueueInv-mono,
}

-- The final number is no smaller than the number that this process proposed.
abbrev pub Dominates : SeqMessage → HoldBackQueue → Type 0
Dominates m q =
    (v : PendingMessageSeq) → find (seq_key m) q.pending_seqs ≡ some v → v.seq ≤ m.final_seq

pub forward_seq_num-ge :
    (p : Process) (seen : ℕ)
    → (p.seq_counter ≤ (forward_seq_num p seen).seq_counter)
      × (seen ≤ (forward_seq_num p seen).seq_counter)
      × ((forward_seq_num p seen).hold_back_queue ≡ p.hold_back_queue)
unfolding forward_seq_num
forward_seq_num-ge p seen = ground arith

abbrev pub forwarded : Node → SeqMessage → Node
forwarded node m = record node { process = forward_seq_num node.process m.final_seq }

pub forwarded-NodeInv : (node : Node) (m : SeqMessage) → NodeInv node → NodeInv (forwarded node m)
forwarded-NodeInv node m inv =
    let (grows, _, same) = forward_seq_num-ge node.process m.final_seq in
    record {
      queue = rw same (QueueInv-mono grows inv.queue);
      increasing = inv.increasing;
      follows = rw same inv.follows;
      seen = All-mono _ _ (λ d s. omega arith) node.delivered inv.seen;
    }

module _ (host : Host) where
  pub set_deliverable-none :
      (q : HoldBackQueue) (m : SeqMessage)
      → find (seq_key m) q.pending_seqs ≡ none
      → set_deliverable host q m ≡ record { queue = q; calls = [] }
  unfolding set_deliverable
  set_deliverable-none q m e = rw (set_deliverable, e)

  pub set_deliverable-some :
      (q : HoldBackQueue) (m : SeqMessage) (old : PendingMessageSeq)
      → find (seq_key m) q.pending_seqs ≡ some old
      → let d = deliver_ready host (reorder host m old q.ordering) in
        set_deliverable host q m ≡ record {
          queue = record { pending_seqs = remove (seq_key m) q.pending_seqs; ordering = d.rest };
          calls = d.calls;
        }
  unfolding set_deliverable
  set_deliverable-some q m old e = rw (set_deliverable, e)

  module _ (node : Node) (m : SeqMessage) (inv : NodeInv node)
      (seen : m.final_seq ≤ node.process.seq_counter) (old : PendingMessageSeq)
      (here : find (seq_key m) node.process.hold_back_queue.pending_seqs ≡ some old)
      (dominates : old.seq ≤ m.final_seq) where
    abbrev q : HoldBackQueue
    q = node.process.hold_back_queue

    abbrev reordered : List PendingMessage
    reordered = reorder host m old q.ordering

    reordered-IsSorted : OrderedSet.IsSorted before reordered
    unfolding reorder
    reordered-IsSorted = IsSorted-insert before before_trans (finalized host m) _ (
        IsSorted-erase before before_trans (undeliverable (seq_key m) old host.uninit) q.ordering
          inv.queue.shape.sorted)

    -- The pending message was to follow `d` already by the number that was proposed for it.
    Follows-finalized : (d : SeqMessage) → All (Follows d) q.ordering → Follows d (finalized host m)
    Follows-finalized d f =
        let (pm, a, b, h) =
          count-All before (Follows d) (undeliverable (seq_key m) old 0) q.ordering
            (inv.queue.shape.queued (seq_key m) old 0 here) f in
        let same = before_total (undeliverable (seq_key m) old 0) pm a b in inl (ground arith)

    reordered-Follows : All (λ d. All (Follows d) reordered) node.delivered
    unfolding reorder
    reordered-Follows =
        All-mono _ _
          (λ d f.
            All-insert before (Follows d) (finalized host m) _ (Follows-finalized d f) (
              All-erase before (Follows d) (undeliverable (seq_key m) old host.uninit) q.ordering
                f))
          node.delivered inv.follows

    reordered-seen :
        All (λ d. d.final_seq ≤ node.process.seq_counter) (deliver_ready host reordered).calls
    unfolding reorder to_deliver
    reordered-seen =
        calls-All host (λ pm. pm.pms.seq ≤ node.process.seq_counter)
          (λ d. d.final_seq ≤ node.process.seq_counter) reordered (λ pm h d. h)
          (All-insert before (λ pm. pm.pms.seq ≤ node.process.seq_counter) (finalized host m) _ seen
            (All-erase before (λ pm. pm.pms.seq ≤ node.process.seq_counter)
              (undeliverable (seq_key m) old host.uninit) q.ordering inv.queue.bounded))

    finalize-pending : NodeInv (finalize host node m)
    unfolding finalize
    finalize-pending = rw (set_deliverable-some q m old here) (record {
      queue = updated-QueueInv host m inv.queue old here seen;
      increasing =
          IsIncreasing-append node.delivered _ inv.increasing
            (calls-IsIncreasing host reordered reordered-IsSorted)
            (All-mono _ _ (λ d f. calls-Earlier host d reordered f) node.delivered
              reordered-Follows);
      follows =
          All-append _ node.delivered _
            (All-mono _ _ (λ d f. deliver_ready-All host (Follows d) reordered f) node.delivered
              reordered-Follows)
            (rest-Follows host reordered reordered-IsSorted);
      seen = All-append _ node.delivered _ inv.seen reordered-seen;
    })

  finalize-unknown :
      (node : Node) (m : SeqMessage)
      → find (seq_key m) node.process.hold_back_queue.pending_seqs ≡ none
      → NodeInv node
      → NodeInv (finalize host node m)
  unfolding finalize
  finalize-unknown node m e inv =
      rw (set_deliverable-none node.process.hold_back_queue m e, append-nil)
        (record {
          queue = inv.queue;
          increasing = inv.increasing;
          follows = inv.follows;
          seen = inv.seen;
        })

  -- SetDeliverable keeps the invariant: on an unknown key it does nothing at all.
  pub finalize-NodeInv :
      (node : Node) (m : SeqMessage)
      → NodeInv node
      → m.final_seq ≤ node.process.seq_counter
      → Dominates m node.process.hold_back_queue
      → NodeInv (finalize host node m)
  finalize-NodeInv node m inv seen dominates =
      elim (Option-cases (find (seq_key m) node.process.hold_back_queue.pending_seqs)) [
        | inr (old, e) ↦ finalize-pending node m inv seen old e (dominates old e)
        | inl e ↦ finalize-unknown node m e inv
      ]

  -- HandleSeqMsg behind the validation: it keeps the invariant, and throws only if sendto fails.
  pub accept_seq-Settles :
      (node : Node) (client : Client) (m : SeqMessage)
      → NodeInv node
      → Dominates m node.process.hold_back_queue
      → Settles client NodeInv (accept_seq host node client m)
  unfolding accept_seq
  accept_seq-Settles node client m inv dominates =
      let (grows, seen, same) = forward_seq_num-ge node.process m.final_seq in
      Settles->>= client
        (λ r.
          NodeInv r × (m.final_seq ≤ r.process.seq_counter) × Dominates m r.process.hold_back_queue)
        NodeInv _ (λ r. finalize host r m) (λ r h. finalize-NodeInv r m h.0 h.1 h.2)
        (reply-Settles host (forwarded node m) client (seq_ack_msg_bytes host (seq_ack host m)) _
          (λ s. (NodeInv-sent s (forwarded-NodeInv node m inv), seen, rw same dominates)))
