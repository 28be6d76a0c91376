-- ===== src/Process/Acceptance.antt =====
-- src/process.cc: a DataMessage that the server of a process accepts, and where it is afterwards.
use total_order_multicast.Common.{
  ℕ, ◌≡◌, refl, ap, ◌∙◌, ◌⊎◌, inl, inr, true, false, none, some, List, [], ◌∷◌, length,
  Option-cases, ok, ◌>>=◌, arith,
}
use total_order_multicast.Message.Host.{Host}
use total_order_multicast.Message.{DataMessage, SeqMessage, data_message_type}
use total_order_multicast.Message.Valid.{valid_data_msg}
use total_order_multicast.Message.Wire.{
  message_type_from_buf, data_msg_from_buf, ack_msg_bytes, seq_ack_msg_bytes,
}
use total_order_multicast.HoldBack.{PendingMessageKey, find, data_key, old_ack}
use total_order_multicast.Udp.{
  Client, listen, ServerAction, Incoming, packet, no_packet, receive_buffer, receive_count,
}
use total_order_multicast.Process.{
  Node, new_ack, accept_data, accept_seq, finalize, seq_ack, forward_seq_num, serve, on_receive,
  dispatch, handle_data_msg,
}
use total_order_multicast.Process.Invariant.{Settles, Settles->>=, Settles-×, reply-Settles}
use total_order_multicast.Process.Data.{proposed, accept_data-pending, accept_data-new}
use total_order_multicast.Process.Seq.{forwarded}
use total_order_multicast.Process.Server.{
  Keeps, Served, serve-step, serve-Served, on_receive-Settles, Served-mono, Site, initial, outcome,
  receive,
}
use total_order_multicast.Process.Order.{start-NodeInv}
use total_order_multicast.Process.Robust.{
  HasShape, Anything, HasShape-Keeps, AllSafe-Anything, accept_data-HasShape,
}
use total_order_multicast.Process.Retention.{Holds, Holds-Keeps, accept_data-Holds}

-- A valid DataMessage is dispatched to HandleDataMsg.
module _ (host : Host) (buf : List ℕ) (n : ℕ) (m : DataMessage)
    (decoded : data_msg_from_buf host buf n ≡ some m) where
  type-data_msg : message_type_from_buf host buf n ≡ some m.type
  unfolding message_type_from_buf data_msg_from_buf
  type-data_msg = ground arith

  module _ (node : Node) (client : Client)
      (valid : valid_data_msg m (length node.process.processes) ≡ true) where
    is_data : m.type ≡ data_message_type
    unfolding valid_data_msg
    is_data = ground arith

    handle_data_msg-eq : handle_data_msg host node client buf n ≡ accept_data host node client m
    unfolding handle_data_msg
    handle_data_msg-eq = rw (handle_data_msg, decoded, valid) refl

    pub on_receive-eq :
        on_receive host node client buf n
        ≡ (accept_data host node client m >>= (λ after. ok (after, ServerAction.continue)))
    unfolding on_receive dispatch
    on_receive-eq =
        let type : message_type_from_buf host buf n ≡ some data_message_type =
          type-data_msg ∙ ap some is_data in
        rw (on_receive, type, handle_data_msg-eq) refl

-- A valid DataMessage with this key is among the datagrams, for `n` processes.
abbrev pub AcceptedIn : Host → ℕ → List Incoming → PendingMessageKey → Type 0
AcceptedIn host n [] k = ⊥
AcceptedIn host n (no_packet t ∷ rest) k = AcceptedIn host n rest k
AcceptedIn host n (packet client bytes ∷ rest) k =
    ((m : DataMessage) × (data_msg_from_buf host (receive_buffer bytes) (receive_count bytes)
        ≡ some m)
      × (valid_data_msg m n ≡ true)
      × (data_key m ≡ k))
    ⊎ AcceptedIn host n rest k

module _ (n : ℕ) where
  abbrev Counts : Node → Type 0
  Counts node = length node.process.processes ≡ n

  module _ (host : Host) where
    accept_data-Counts :
        (node : Node) (client : Client) (m : DataMessage)
        → HasShape node
        → Counts node
        → Settles client Counts (accept_data host node client m)
    accept_data-Counts node client m shape c =
        elim (Option-cases (find (data_key m) node.process.hold_back_queue.pending_seqs)) [
          | inr (v, e) ↦ rw (accept_data-pending host node client m v e) (
              reply-Settles host node client (ack_msg_bytes host (old_ack host m v)) Counts
                (λ s. c))
          | inl e ↦ rw (accept_data-new host node client m shape e) (
              reply-Settles host (proposed host node m) client
                (ack_msg_bytes host (new_ack host node.process m)) Counts (λ s. c))
        ]

    forward-Counts : (node : Node) (m : SeqMessage) → Counts node → Counts (forwarded node m)
    unfolding forward_seq_num
    forward-Counts node m c = ground arith

    accept_seq-Counts :
        (node : Node) (client : Client) (m : SeqMessage)
        → Counts node
        → Settles client Counts (accept_seq host node client m)
    unfolding accept_seq finalize
    accept_seq-Counts node client m c =
        Settles->>= client Counts Counts _ (λ r. finalize host r m) (λ r h. h)
          (reply-Settles host (forwarded node m) client (seq_ack_msg_bytes host (seq_ack host m)) _
            (λ s. forward-Counts node m c))

    Counts-Keeps :
        (node : Node) (client : Client) (bytes : List ℕ)
        → HasShape node × Counts node
        → Anything host node client bytes
        → Keeps host
            (λ r. HasShape r × Counts r)
            node
            client
            (receive_buffer bytes)
            (receive_count bytes)
    Counts-Keeps node client bytes (shape, c) any =
        let keeps = HasShape-Keeps host node client bytes shape any in
        record {
          data_msg = λ m e v.
              Settles-× client _ _ _ (keeps.data_msg m e v)
                (accept_data-Counts node client m shape c);
          seq_msg = λ m e v.
              Settles-× client _ _ _ (keeps.seq_msg m e v) (accept_seq-Counts node client m c);
        }

module _ (k : PendingMessageKey) (n : ℕ) (host : Host) where
  -- What is held stays held.
  held-Served :
      (node : Node) (incoming : List Incoming)
      → HasShape node × Holds k node
      → Served (Holds k) (serve host node incoming)
  held-Served node incoming h =
      Served-mono {P = λ r. HasShape r × Holds k r} (λ r q. q.1) _
        (serve-Served host (Anything host) _ (Holds-Keeps k host) node incoming h
          (AllSafe-Anything host node incoming))

  -- A datagram with the message makes the process hold it.
  accepted-Settles :
      (node : Node) (client : Client) (bytes : List ℕ) (m : DataMessage)
      → HasShape node
      → data_msg_from_buf host (receive_buffer bytes) (receive_count bytes) ≡ some m
      → valid_data_msg m (length node.process.processes) ≡ true
      → data_key m ≡ k
      → Settles client
          (λ q. (HasShape q.0 × Holds k q.0) × (q.1 ≡ ServerAction.continue))
          (receive host node client bytes)
  accepted-Settles node client bytes m shape e v same =
      rw (on_receive-eq host (receive_buffer bytes) (receive_count bytes) m e node client v) (
        Settles->>= client (λ r. HasShape r × Holds k r)
          (λ (q : Node × ServerAction).
            (HasShape q.0 × Holds k q.0) × (q.1 ≡ ServerAction.continue))
          (accept_data host node client m) (λ r. (r, ServerAction.continue)) (λ r h. (h, refl))
          (Settles-× client HasShape (Holds k) (accept_data host node client m)
            (accept_data-HasShape host node client m shape)
            (accept_data-Holds k host node client m shape (inr same))))

  accepted-Served :
      (node : Node) (incoming : List Incoming)
      → HasShape node × Counts n node
      → AcceptedIn host n incoming k
      → Served (Holds k) (serve host node incoming)
  unfolding serve listen
  accepted-Served node [] h a = absurd a
  accepted-Served node (no_packet true ∷ rest) h a = inr (inl refl)
  accepted-Served node (no_packet false ∷ rest) h a = inr (inl refl)
  accepted-Served node (packet none bytes ∷ rest) h a = inr (inr refl)
  accepted-Served node (packet (some client) bytes ∷ rest) (shape, c) (inl (m, e, v, same)) =
      serve-step host (Anything host) (Holds k) (λ r. HasShape r × Holds k r) node client bytes rest
        (accepted-Settles node client bytes m shape e (rw c v) same)
        (λ after q h. held-Served after rest h)
  accepted-Served node (packet (some client) bytes ∷ rest) h (inr later) =
      serve-step host (Anything host) (Holds k) (λ r. HasShape r × Counts n r) node client bytes
        rest
        (on_receive-Settles host _ node client (receive_buffer bytes) (receive_count bytes) h
          (Counts-Keeps n host node client bytes h tt))
        (λ after q r. accepted-Served after rest r later)

-- No loss: a message of which a process has received a valid DataMessage waits in its queue or has
-- been delivered, whatever other datagrams the process has received.
pub outcome-Holds :
    (s : Site) (k : PendingMessageKey)
    → AcceptedIn s.host (length s.processes) s.incoming k
    → Served (Holds k) (outcome s)
outcome-Holds s k a =
    accepted-Served k (length s.processes) s.host (initial s) s.incoming
      ((start-NodeInv s).queue.shape, refl) a
