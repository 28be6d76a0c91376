-- ===== src/Process/Retention.antt =====
-- src/process.cc: the messages that a process holds, in its queue or its log, through the handlers.
use mathlib.Core.List.{append-nil}
use total_order_multicast.Common.{ℕ, ◌≡◌, ◌⊎◌, inl, inr, some, List, Option-cases}
use total_order_multicast.Message.Host.{Host}
use total_order_multicast.Message.{DataMessage, SeqMessage}
use total_order_multicast.Message.Wire.{ack_msg_bytes, seq_ack_msg_bytes}
use total_order_multicast.HoldBack.{
  PendingMessageKey, PendingMessageSeq, find, data_key, seq_key, old_ack, undeliverable,
}
use total_order_multicast.HoldBack.Insertion.{added}
use total_order_multicast.HoldBack.Keys.{
  Queued, Logged, Logged-append_left, Logged-append_right, Queued-insert, Queued-insert_self,
  Queued-updated, count-Queued,
}
use total_order_multicast.Udp.{Client, receive_buffer, receive_count}
use total_order_multicast.Process.{Node, new_ack, accept_data, accept_seq, finalize, seq_ack}
use total_order_multicast.Process.Invariant.{Settles, Settles->>=, Settles-×, reply-Settles}
use total_order_multicast.Process.Data.{proposed, accept_data-pending, accept_data-new}
use total_order_multicast.Process.Seq.{
  forwarded, forward_seq_num-ge, set_deliverable-none, set_deliverable-some,
}
use total_order_multicast.Process.Server.{Keeps}
use total_order_multicast.Process.Robust.{HasShape, Anything, HasShape-Keeps}

module _ (k : PendingMessageKey) where
  -- The message waits in the queue or has been delivered.
  abbrev pub Holds : Node → Type 0
  Holds node = Queued k node.process.hold_back_queue.ordering ⊎ Logged k node.delivered

  module _ (host : Host) where
    pub pending-Queued :
        (node : Node) (m : DataMessage)
        → HasShape node
        → (v : PendingMessageSeq)
        → find (data_key m) node.process.hold_back_queue.pending_seqs ≡ some v
        → Queued (data_key m) node.process.hold_back_queue.ordering
    pending-Queued node m shape v e =
        count-Queued (undeliverable (data_key m) v 0) _ (shape.queued (data_key m) v 0 e)

    -- What was held before is held after, and so is the message of the datagram.
    pub accept_data-Holds :
        (node : Node) (client : Client) (m : DataMessage)
        → HasShape node
        → Holds node ⊎ (data_key m ≡ k)
        → Settles client Holds (accept_data host node client m)
    accept_data-Holds node client m shape h =
        elim (Option-cases (find (data_key m) node.process.hold_back_queue.pending_seqs)) [
          | inr (v, e) ↦ rw (accept_data-pending host node client m v e) (
              reply-Settles host node client (ack_msg_bytes host (old_ack host m v)) Holds (λ s.
                elim h [
                  | inl held ↦ held
                  | inr same ↦ inl (rw (← same) (pending-Queued node m shape v e))
                ]))
          | inl e ↦ rw (accept_data-new host node client m shape e) (
              reply-Settles host (proposed host node m) client
                (ack_msg_bytes host (new_ack host node.process m)) Holds
                (λ s. elim h [
                  | inl (inl q) ↦
                      inl (Queued-insert k (added (new_ack host node.process m) m.payload) _ q)
                  | inl (inr l) ↦ inr l
                  | inr same ↦ inl (
                      rw (← same)
                        (Queued-insert_self (added (new_ack host node.process m) m.payload) _))
                ]))
        ]

    finalize-Holds : (node : Node) (m : SeqMessage) → Holds node → Holds (finalize host node m)
    unfolding finalize
    finalize-Holds node m h =
        elim (Option-cases (find (seq_key m) node.process.hold_back_queue.pending_seqs)) [
          | inl e ↦ rw (set_deliverable-none host node.process.hold_back_queue m e, append-nil) h
          | inr (old, e) ↦
              rw (set_deliverable-some host node.process.hold_back_queue m old e) (elim h [
                | inr l ↦ inr (Logged-append_left k node.delivered _ l)
                | inl q ↦ elim (Queued-updated host k m old _ q) [
                  | inl still ↦ inl still
                  | inr now ↦ inr (Logged-append_right k node.delivered _ now)
                ]
              ])
        ]

    pub accept_seq-Holds :
        (node : Node) (client : Client) (m : SeqMessage)
        → Holds node
        → Settles client Holds (accept_seq host node client m)
    unfolding accept_seq
    accept_seq-Holds node client m h =
        let (_, _, same) = forward_seq_num-ge node.process m.final_seq in
        Settles->>= client Holds Holds _ (λ r. finalize host r m) (λ r. finalize-Holds r m)
          (reply-Settles host (forwarded node m) client (seq_ack_msg_bytes host (seq_ack host m)) _
            (λ s. rw same h))

    pub Holds-Keeps :
        (node : Node) (client : Client) (bytes : List ℕ)
        → HasShape node × Holds node
        → Anything host node client bytes
        → Keeps host
            (λ n. HasShape n × Holds n)
            node
            client
            (receive_buffer bytes)
            (receive_count bytes)
    Holds-Keeps node client bytes (shape, h) any =
        let keeps = HasShape-Keeps host node client bytes shape any in
        record {
          data_msg = λ m e v.
              Settles-× client _ _ _ (keeps.data_msg m e v)
                (accept_data-Holds node client m shape (inl h));
          seq_msg = λ m e v.
              Settles-× client _ _ _ (keeps.seq_msg m e v) (accept_seq-Holds node client m h);
        }
