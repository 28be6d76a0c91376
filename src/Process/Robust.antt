-- ===== src/Process/Robust.antt =====
-- src/process.cc: a server that receives any datagrams at all.
use total_order_multicast.Common.{inl, inr, none, some, List, [], ◌∷◌, Option-cases, ℕ}
use total_order_multicast.Message.Host.{Host}
use total_order_multicast.Message.{DataMessage, SeqMessage}
use total_order_multicast.Message.Wire.{ack_msg_bytes, seq_ack_msg_bytes}
use total_order_multicast.HoldBack.{find, data_key, seq_key, old_ack}
use total_order_multicast.HoldBack.Invariant.{QueueShape}
use total_order_multicast.HoldBack.Insertion.{extended-QueueShape}
use total_order_multicast.HoldBack.Finalization.{updated-QueueShape}
use total_order_multicast.Udp.{Client, Incoming, packet, no_packet, receive_buffer, receive_count}
use total_order_multicast.Process.{Node, new_ack, accept_data, accept_seq, finalize, seq_ack}
use total_order_multicast.Process.Invariant.{Settles, Settles->>=, reply-Settles}
use total_order_multicast.Process.Data.{proposed, accept_data-pending, accept_data-new}
use total_order_multicast.Process.Seq.{
  forwarded, forward_seq_num-ge, set_deliverable-none, set_deliverable-some,
}
use total_order_multicast.Process.Order.{start-NodeInv}
use total_order_multicast.Process.Server.{
  Keeps, Served, AllSafe, serve-Served, Site, initial, outcome,
}

abbrev pub HasShape : Node → Type 0
HasShape node = QueueShape node.process.hold_back_queue

module _ (host : Host) where
  pub accept_data-HasShape :
      (node : Node) (client : Client) (m : DataMessage)
      → HasShape node
      → Settles client HasShape (accept_data host node client m)
  accept_data-HasShape node client m shape =
      elim (Option-cases (find (data_key m) node.process.hold_back_queue.pending_seqs)) [
        | inr (v, e) ↦ rw (accept_data-pending host node client m v e) (
            reply-Settles host node client (ack_msg_bytes host (old_ack host m v)) HasShape
              (λ s. shape))
        | inl e ↦ rw (accept_data-new host node client m shape e) (
            reply-Settles host (proposed host node m) client
              (ack_msg_bytes host (new_ack host node.process m)) HasShape
              (λ s. extended-QueueShape shape (new_ack host node.process m) m.payload e))
      ]

  finalize-HasShape :
      (node : Node) (m : SeqMessage) → HasShape node → HasShape (finalize host node m)
  unfolding finalize
  finalize-HasShape node m shape =
      elim (Option-cases (find (seq_key m) node.process.hold_back_queue.pending_seqs)) [
        | inl e ↦ rw (set_deliverable-none host node.process.hold_back_queue m e) shape
        | inr (old, e) ↦
            rw (set_deliverable-some host node.process.hold_back_queue m old e)
              (updated-QueueShape host m shape old e)
      ]

  pub accept_seq-HasShape :
      (node : Node) (client : Client) (m : SeqMessage)
      → HasShape node
      → Settles client HasShape (accept_seq host node client m)
  unfolding accept_seq
  accept_seq-HasShape node client m shape =
      let (_, _, same) = forward_seq_num-ge node.process m.final_seq in
      Settles->>= client HasShape HasShape _ (λ r. finalize host r m) (λ r. finalize-HasShape r m)
        (reply-Settles host (forwarded node m) client (seq_ack_msg_bytes host (seq_ack host m)) _
          (λ s. rw same shape))

  abbrev pub Anything : Node → Client → List ℕ → Type 0
  Anything node client bytes = Unit

  pub HasShape-Keeps :
      (node : Node) (client : Client) (bytes : List ℕ)
      → HasShape node
      → Anything node client bytes
      → Keeps host HasShape node client (receive_buffer bytes) (receive_count bytes)
  HasShape-Keeps node client bytes shape any = record {
    data_msg = λ m e v. accept_data-HasShape node client m shape;
    seq_msg = λ m e v. accept_seq-HasShape node client m shape;
  }

  pub AllSafe-Anything :
      (node : Node) (incoming : List Incoming) → AllSafe host Anything node incoming
  AllSafe-Anything node [] = tt
  AllSafe-Anything node (packet none bytes ∷ rest) = tt
  AllSafe-Anything node (no_packet t ∷ rest) = tt
  AllSafe-Anything node (packet (some client) bytes ∷ rest) =
      (tt, λ after e. AllSafe-Anything after rest)

-- Whatever a server receives, with no condition on the datagrams, their senders or the numbers in
-- them, it is still waiting and the two parts of its queue fit together, or it has thrown one of the
-- exceptions of the network: HoldBackQueue never throws invalid_argument, and the server does not
-- return.
pub outcome-HasShape : (s : Site) → Served HasShape (outcome s)
outcome-HasShape s =
    serve-Served s.host (Anything s.host) HasShape (HasShape-Keeps s.host) (initial s) s.incoming
      (start-NodeInv s).queue.shape (AllSafe-Anything s.host (initial s) s.incoming)
