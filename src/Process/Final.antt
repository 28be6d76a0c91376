-- ===== src/Process/Final.antt =====
-- src/process.cc: the final numbers of the deliveries of a process.
use total_order_multicast.Common.{ℕ, ◌≡◌, inl, inr, true, some, List, All, All-append, Option-cases}
use mathlib.Core.List.{append-nil}
use total_order_multicast.Common.OrderedSet.Laws.{All-insert, All-erase}
use total_order_multicast.Message.Host.{Host}
use total_order_multicast.Message.{DataMessage, SeqMessage}
use total_order_multicast.Message.Wire.{seq_msg_from_buf, ack_msg_bytes, seq_ack_msg_bytes}
use total_order_multicast.HoldBack.{
  PendingMessageKey, PendingMessage, before, find, data_key, seq_key, finalized, undeliverable,
  to_deliver, reorder, old_ack,
}
use total_order_multicast.HoldBack.Loop.{calls-All, deliver_ready-All}
use total_order_multicast.HoldBack.Insertion.{added}
use total_order_multicast.Udp.{Client, receive_buffer, receive_count}
use total_order_multicast.Process.{Node, new_ack, accept_data, accept_seq, finalize, seq_ack}
use total_order_multicast.Process.Invariant.{
  NodeInv, Settles, Settles->>=, Settles-×, reply-Settles,
}
use total_order_multicast.Process.Data.{proposed, accept_data-pending, accept_data-new}
use total_order_multicast.Process.Seq.{
  forwarded, forward_seq_num-ge, set_deliverable-none, set_deliverable-some,
}
use total_order_multicast.Process.Server.{
  Keeps, Served, AllSafe, serve-Served, Site, initial, outcome,
}
use total_order_multicast.Process.Order.{IsOrderly, IsOrderly-Keeps, start-NodeInv}

module _ (Final : PendingMessageKey → ℕ → Type 0) where
  -- Whatever is final carries a number that `Final` allows for its message.
  abbrev pub IsFinal : PendingMessage → Type 0
  IsFinal pm = pm.deliverable ≡ true → Final pm.pmk pm.pms.seq

  abbrev pub HasFinal : SeqMessage → Type 0
  HasFinal m = Final (seq_key m) m.final_seq

  pub record FinalInv (node : Node) : Type 0 where
    pub queued : All IsFinal node.process.hold_back_queue.ordering
    pub logged : All HasFinal node.delivered

  module _ (host : Host) where
    pub accept_data-FinalInv :
        (node : Node) (client : Client) (m : DataMessage)
        → NodeInv node
        → FinalInv node
        → Settles client FinalInv (accept_data host node client m)
    accept_data-FinalInv node client m inv f =
        elim (Option-cases (find (data_key m) node.process.hold_back_queue.pending_seqs)) [
          | inr (v, e) ↦ rw (accept_data-pending host node client m v e) (
              reply-Settles host node client (ack_msg_bytes host (old_ack host m v)) FinalInv
                (λ s. record { queued = f.queued; logged = f.logged }))
          | inl e ↦ rw (accept_data-new host node client m inv.queue.shape e) (
              reply-Settles host (proposed host node m) client
                (ack_msg_bytes host (new_ack host node.process m)) FinalInv
                (λ s. record {
                  queued =
                      All-insert before IsFinal (added (new_ack host node.process m) m.payload) _
                        (λ d. cc) f.queued;
                  logged = f.logged;
                }))
        ]

    finalize-FinalInv :
        (node : Node) (m : SeqMessage)
        → HasFinal m
        → FinalInv node
        → FinalInv (finalize host node m)
    unfolding finalize reorder to_deliver
    finalize-FinalInv node m h f =
        elim (Option-cases (find (seq_key m) node.process.hold_back_queue.pending_seqs)) [
          | inl e ↦
              rw (set_deliverable-none host node.process.hold_back_queue m e, append-nil)
                (record { queued = f.queued; logged = f.logged })
          | inr (old, e) ↦
              let still : All IsFinal (reorder host m old node.process.hold_back_queue.ordering) =
                All-insert before IsFinal (finalized host m) _ (λ _. h)
                  (All-erase before IsFinal (undeliverable (seq_key m) old host.uninit) _
                    f.queued) in
              rw (set_deliverable-some host node.process.hold_back_queue m old e) (record {
                queued = deliver_ready-All host IsFinal _ still;
                logged =
                    All-append HasFinal node.delivered _ f.logged
                      (calls-All host IsFinal HasFinal _ (λ pm p d. p d) still);
              })
        ]

    pub accept_seq-FinalInv :
        (node : Node) (client : Client) (m : SeqMessage)
        → HasFinal m
        → FinalInv node
        → Settles client FinalInv (accept_seq host node client m)
    unfolding accept_seq
    accept_seq-FinalInv node client m h f =
        let (_, _, same) = forward_seq_num-ge node.process m.final_seq in
        Settles->>= client FinalInv FinalInv _ (λ r. finalize host r m)
          (λ r. finalize-FinalInv r m h)
          (reply-Settles host (forwarded node m) client (seq_ack_msg_bytes host (seq_ack host m)) _
            (λ s. record { queued = rw same f.queued; logged = f.logged }))

-- Every message has one number.
abbrev pub Given : (PendingMessageKey → ℕ) → PendingMessageKey → ℕ → Type 0
Given final k f = f ≡ final k

module _ (final : PendingMessageKey → ℕ) where
  -- As `IsOrderly`, and every SeqMessage carries the number that its sender chose.
  abbrev pub IsAgreed : Host → Node → Client → List ℕ → Type 0
  IsAgreed host node client bytes =
      IsOrderly host node client bytes
      × ((m : SeqMessage)
          → seq_msg_from_buf host (receive_buffer bytes) (receive_count bytes) ≡ some m
          → HasFinal (Given final) m)

  module _ (host : Host) where
    IsAgreed-Keeps :
        (node : Node) (client : Client) (bytes : List ℕ)
        → NodeInv node × FinalInv (Given final) node
        → IsAgreed host node client bytes
        → Keeps host
            (λ n. NodeInv n × FinalInv (Given final) n)
            node
            client
            (receive_buffer bytes)
            (receive_count bytes)
    IsAgreed-Keeps node client bytes (inv, f) (orderly, honest) =
        let k = IsOrderly-Keeps host node client bytes inv orderly in
        record {
          data_msg = λ m e v.
              Settles-× client _ _ _ (k.data_msg m e v)
                (accept_data-FinalInv (Given final) host node client m inv f);
          seq_msg = λ m e v.
              Settles-× client _ _ _ (k.seq_msg m e v)
                (accept_seq-FinalInv (Given final) host node client m (honest m e) f);
        }

  -- After any such datagrams the log is increasing and carries the agreed numbers.
  pub outcome-FinalInv :
      (s : Site)
      → AllSafe s.host (IsAgreed s.host) (initial s) s.incoming
      → Served (λ node. NodeInv node × FinalInv (Given final) node) (outcome s)
  outcome-FinalInv s safe =
      serve-Served s.host (IsAgreed s.host) _ (IsAgreed-Keeps s.host) _ s.incoming
        (start-NodeInv s, record { queued = tt; logged = tt }) safe
