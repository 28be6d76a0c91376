-- ===== src/Process/Integrity.antt =====
-- src/process.cc: where the messages that a process delivers come from.
use mathlib.Core.List.{append-nil}
use total_order_multicast.Common.{
  ℕ, ◌≡◌, refl, ◌⊎◌, inl, inr, none, some, List, [], ◌∷◌, All, All-append, Option-cases, subst,
}
use total_order_multicast.Common.OrderedSet.Laws.{All-insert, All-erase, count-All}
use total_order_multicast.Message.Host.{Host}
use total_order_multicast.Message.{DataMessage, SeqMessage}
use total_order_multicast.Message.Wire.{data_msg_from_buf, ack_msg_bytes, seq_ack_msg_bytes}
use total_order_multicast.HoldBack.{
  PendingMessageKey, PendingMessageSeq, before, find, data_key, seq_key, finalized, undeliverable,
  to_deliver, reorder, old_ack,
}
use total_order_multicast.HoldBack.Order.{before_total}
use total_order_multicast.HoldBack.Loop.{calls-All, deliver_ready-All}
use total_order_multicast.HoldBack.Insertion.{added}
use total_order_multicast.Udp.{Client, Incoming, packet, no_packet, receive_buffer, receive_count}
use total_order_multicast.Process.{Node, new_ack, accept_data, accept_seq, finalize, seq_ack}
use total_order_multicast.Process.Invariant.{Settles, Settles->>=, Settles-×, reply-Settles}
use total_order_multicast.Process.Data.{proposed, accept_data-pending, accept_data-new}
use total_order_multicast.Process.Seq.{
  forwarded, forward_seq_num-ge, set_deliverable-none, set_deliverable-some,
}
use total_order_multicast.Process.Server.{
  Keeps, Served, AllSafe, serve-Served, Served-mono, Site, initial, outcome,
}
use total_order_multicast.Process.Order.{start-NodeInv}
use total_order_multicast.Process.Robust.{HasShape, HasShape-Keeps}

module _ (Received : PendingMessageKey → Type 0) where
  pub record Genuine (node : Node) : Type 0 where
    pub queued : All (λ pm. Received pm.pmk) node.process.hold_back_queue.ordering
    pub logged : All (λ d. Received (seq_key d)) node.delivered

  module _ (host : Host) where
    accept_data-Genuine :
        (node : Node) (client : Client) (m : DataMessage)
        → HasShape node
        → Received (data_key m)
        → Genuine node
        → Settles client Genuine (accept_data host node client m)
    accept_data-Genuine node client m shape r g =
        elim (Option-cases (find (data_key m) node.process.hold_back_queue.pending_seqs)) [
          | inr (v, e) ↦ rw (accept_data-pending host node client m v e) (
              reply-Settles host node client (ack_msg_bytes host (old_ack host m v)) Genuine
                (λ s. record { queued = g.queued; logged = g.logged }))
          | inl e ↦ rw (accept_data-new host node client m shape e) (
              reply-Settles host (proposed host node m) client
                (ack_msg_bytes host (new_ack host node.process m)) Genuine
                (λ s. record {
                  queued =
                      All-insert before (λ pm. Received pm.pmk)
                        (added (new_ack host node.process m) m.payload) _ r g.queued;
                  logged = g.logged;
                }))
        ]

    -- A pending message was received, since it is in the queue.
    pending-Received :
        (node : Node) (k : PendingMessageKey) (old : PendingMessageSeq)
        → HasShape node
        → Genuine node
        → find k node.process.hold_back_queue.pending_seqs ≡ some old
        → Received k
    pending-Received node k old shape g e =
        let (pm, a, b, r) =
          count-All before (λ pm. Received pm.pmk) (undeliverable k old 0) _
            (shape.queued k old 0 e) g.queued in
        let same = before_total (undeliverable k old 0) pm a b in
        subst Received (cc (same.sender, same.msg_id)) r

    finalize-Genuine :
        (node : Node) (m : SeqMessage)
        → HasShape node × Genuine node
        → Genuine (finalize host node m)
    unfolding finalize reorder to_deliver
    finalize-Genuine node m (shape, g) =
        elim (Option-cases (find (seq_key m) node.process.hold_back_queue.pending_seqs)) [
          | inl e ↦
              rw (set_deliverable-none host node.process.hold_back_queue m e, append-nil)
                (record { queued = g.queued; logged = g.logged })
          | inr (old, e) ↦
              let still : All (λ pm. Received pm.pmk)
                  (reorder host m old node.process.hold_back_queue.ordering) =
                All-insert before (λ pm. Received pm.pmk) (finalized host m) _
                  (pending-Received node (seq_key m) old shape g e)
                  (All-erase before (λ pm. Received pm.pmk)
                    (undeliverable (seq_key m) old host.uninit) _ g.queued) in
              rw (set_deliverable-some host node.process.hold_back_queue m old e) (record {
                queued = deliver_ready-All host (λ pm. Received pm.pmk) _ still;
                logged =
                    All-append (λ d. Received (seq_key d)) node.delivered _ g.logged
                      (calls-All host (λ pm. Received pm.pmk) (λ d. Received (seq_key d)) _
                        (λ pm p d. p) still);
              })
        ]

    accept_seq-Genuine :
        (node : Node) (client : Client) (m : SeqMessage)
        → HasShape node
        → Genuine node
        → Settles client Genuine (accept_seq host node client m)
    unfolding accept_seq
    accept_seq-Genuine node client m shape g =
        let (_, _, same) = forward_seq_num-ge node.process m.final_seq in
        Settles->>= client (λ r. HasShape r × Genuine r) Genuine _ (λ r. finalize host r m)
          (λ r h. finalize-Genuine r m h)
          (reply-Settles host (forwarded node m) client (seq_ack_msg_bytes host (seq_ack host m)) _
            (λ s. (rw same shape, record { queued = rw same g.queued; logged = g.logged })))

    -- A DataMessage in the datagram counts as received.
    abbrev pub IsNoted : Node → Client → List ℕ → Type 0
    IsNoted node client bytes =
        (m : DataMessage)
        → data_msg_from_buf host (receive_buffer bytes) (receive_count bytes) ≡ some m
        → Received (data_key m)

    pub IsNoted-Keeps :
        (node : Node) (client : Client) (bytes : List ℕ)
        → HasShape node × Genuine node
        → IsNoted node client bytes
        → Keeps host
            (λ n. HasShape n × Genuine n)
            node
            client
            (receive_buffer bytes)
            (receive_count bytes)
    IsNoted-Keeps node client bytes (shape, g) noted =
        let k = HasShape-Keeps host node client bytes shape tt in
        record {
          data_msg = λ m e v.
              Settles-× client _ _ _ (k.data_msg m e v)
                (accept_data-Genuine node client m shape (noted m e) g);
          seq_msg = λ m e v.
              Settles-× client _ _ _ (k.seq_msg m e v) (accept_seq-Genuine node client m shape g);
        }

-- One of the datagrams is a DataMessage with this key.
abbrev pub ReceivedIn : Host → List Incoming → PendingMessageKey → Type 0
ReceivedIn host [] k = ⊥
ReceivedIn host (no_packet t ∷ rest) k = ReceivedIn host rest k
ReceivedIn host (packet client bytes ∷ rest) k =
    ((m : DataMessage) × (data_msg_from_buf host (receive_buffer bytes) (receive_count bytes)
        ≡ some m)
      × (data_key m ≡ k))
    ⊎ ReceivedIn host rest k

module _ (host : Host) (Received : PendingMessageKey → Type 0) where
  -- All of the datagrams are noted.
  IsNoted-all :
      (node : Node) (incoming : List Incoming)
      → ((k : PendingMessageKey) → ReceivedIn host incoming k → Received k)
      → AllSafe host (IsNoted Received host) node incoming
  IsNoted-all node [] f = tt
  IsNoted-all node (no_packet t ∷ rest) f = tt
  IsNoted-all node (packet none bytes ∷ rest) f = tt
  IsNoted-all node (packet (some client) bytes ∷ rest) f = (
    λ m e. f (data_key m) (inl (m, e, refl)),
    λ after e. IsNoted-all after rest (λ k r. f k (inr r)),
  )

-- Integrity: every message that a process has delivered was received by it in a DataMessage with that
-- sender and message id, whatever datagrams the process has received.
pub outcome-Genuine :
    (s : Site)
    → Served
        (λ node. All (λ d. ReceivedIn s.host s.incoming (seq_key d)) node.delivered)
        (outcome s)
outcome-Genuine s =
    let noted = ReceivedIn s.host s.incoming in
    Served-mono {P = λ node. HasShape node × Genuine noted node} (λ node h. h.1.logged) _
      (serve-Served s.host (IsNoted noted s.host) _ (IsNoted-Keeps noted s.host) _ s.incoming
        ((start-NodeInv s).queue.shape, record { queued = tt; logged = tt })
        (IsNoted-all s.host noted (initial s) s.incoming (λ k r. r)))
