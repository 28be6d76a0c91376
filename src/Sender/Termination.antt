-- ===== src/Sender/Termination.antt =====
-- src/process.cc: when a sender thread ends.
use total_order_multicast.Common.{
  ℕ, zero, suc, ◌+◌, ◌<◌, ◌≡◌, refl, subst, ◌⊎◌, set, inl, inr, true, List, [], ◌∷◌, length,
  replicate, Result, ok, Returns, arith,
}
use total_order_multicast.Message.Host.{Host}
use total_order_multicast.Message.{SeqMessage}
use total_order_multicast.Udp.{
  Client, Arrival, datagram, failure, unsent, ServerAction, receive_buffer, receive_count,
}
use total_order_multicast.Udp.Return.{Answered, send_with_ack-returns}
use total_order_multicast.Sender.{
  Sending, Phase, finished, handle_ack, is_valid_ack, send_data_msg, send_seq_msg, client_for_id,
  data_msg, acknowledged-acked, collect, announce, seq_msg, multicast,
}
use total_order_multicast.Message.Wire.{data_msg_bytes, seq_msg_bytes}
use total_order_multicast.Sender.Collect.{Acknowledges, handle_ack-cases}
use total_order_multicast.Sender.Announce.{Confirms}
use total_order_multicast.Sender.Multicast.{Decided, Multicasts, multicast-Multicasts}

-- A datagram with the property arrives, and before it no sendto fails, and no receive but by a timeout.
abbrev pub Comes : (List ℕ → Type 0) → List Arrival → Type 0
Comes P [] = ⊥
Comes P (datagram bytes ∷ rest) = P bytes ⊎ Comes P rest
Comes P (failure t ∷ rest) = (t ≡ true) × Comes P rest
Comes P (unsent ∷ rest) = ⊥

module _ (host : Host) where
  module _ (id msg_id pid : ℕ) (seqs : List ℕ) where
    abbrev IsAck : List ℕ → Type 0
    IsAck bytes = (seq : ℕ) × Acknowledges host id msg_id pid seq bytes

    accepts_ack :
        (bytes : List ℕ)
        → IsAck bytes
        → (s : List ℕ) × (handle_ack host id msg_id pid seqs
              (receive_buffer bytes)
              (receive_count bytes)
            ≡ (s, ServerAction.stop))
    unfolding handle_ack
    accepts_ack bytes (seq, (ack, e, v, q)) =
        (set seqs pid ack.proposed_seq, rw (handle_ack, e, v) refl)

    handle_ack-Answered :
        (arrivals : List Arrival)
        → Comes IsAck arrivals
        → Answered (handle_ack host id msg_id pid) seqs arrivals
    handle_ack-Answered [] h = h
    handle_ack-Answered (unsent ∷ rest) h = absurd h
    handle_ack-Answered (failure t ∷ rest) (e, h) = (e, handle_ack-Answered rest h)
    handle_ack-Answered (datagram bytes ∷ rest) (inl a) = inl (accepts_ack bytes a)
    handle_ack-Answered (datagram bytes ∷ rest) (inr h) =
        elim (handle_ack-cases host id msg_id pid seqs (receive_buffer bytes)
          (receive_count bytes)) [
            | inl q ↦ inr (q, handle_ack-Answered rest h)
            | inr (ack, d, v, q) ↦ inl (_, q)
          ]

  module _ (m : SeqMessage) where
    accepts_seq_ack :
        (bytes : List ℕ)
        → Confirms host m bytes
        → is_valid_ack host m tt (receive_buffer bytes) (receive_count bytes)
          ≡ (tt, ServerAction.stop)
    unfolding is_valid_ack
    accepts_seq_ack bytes (ack, e, v) = rw (is_valid_ack, e, v) refl

    is_valid_ack-Answered :
        (arrivals : List Arrival)
        → Comes (Confirms host m) arrivals
        → Answered (is_valid_ack host m) tt arrivals
    is_valid_ack-Answered [] h = h
    is_valid_ack-Answered (unsent ∷ rest) h = absurd h
    is_valid_ack-Answered (failure t ∷ rest) (e, h) = (e, is_valid_ack-Answered rest h)
    is_valid_ack-Answered (datagram bytes ∷ rest) (inl a) = inl (tt, accepts_seq_ack bytes a)
    is_valid_ack-Answered (datagram bytes ∷ rest) (inr h) =
        answered (is_valid_ack host m tt (receive_buffer bytes) (receive_count bytes)) refl
          (is_valid_ack-Answered rest h)
      where
        answered :
            (r : Unit {0} × ServerAction)
            → is_valid_ack host m tt (receive_buffer bytes) (receive_count bytes) ≡ r
            → Answered (is_valid_ack host m) tt rest
            → Answered (is_valid_ack host m) tt (datagram bytes ∷ rest)
        answered (u, ServerAction.stop) e later = inl (u, e)
        answered (u, ServerAction.continue) e later = inr (e, later)

module _ (host : Host) (t : Sending) where
  -- The client of a process, whose socket takes every datagram.
  abbrev pub Reaches : ℕ → Type 0
  Reaches pid =
      (client : Client) × (client_for_id t.processes t.clients pid ≡ ok client)
      × ((buf : List ℕ) → client.sendto buf ≡ true)

  -- The process acknowledges the message.
  abbrev pub Answers : ℕ → Type 0
  Answers pid =
      Reaches pid
      × Comes (λ bytes. (seq : ℕ) × Acknowledges host t.id t.msg_id pid seq bytes)
          (t.ack_arrivals pid)

  abbrev pub Finishes : {A : Type 0} → Result (Phase A) → Type 0
  Finishes {A} r = (a : A) × (r ≡ ok (finished a))

  collect-Finishes :
      (rounds pid : ℕ) (seqs : List ℕ)
      → ((i : ℕ) → i < pid + rounds → Answers i)
      → Finishes (collect host t rounds pid seqs)
  unfolding collect send_data_msg
  collect-Finishes zero pid seqs h = (seqs, refl)
  collect-Finishes (suc rounds) pid seqs h =
      let ((client, here, opens), comes) = h pid (omega arith) in
      let (log, e, a) =
        send_with_ack-returns client (data_msg_bytes host (data_msg host t))
          (handle_ack host t.id t.msg_id pid) seqs (opens _) (t.ack_arrivals pid)
          (handle_ack-Answered host t.id t.msg_id pid seqs (t.ack_arrivals pid) comes) in
      rw (here, e, acknowledged-acked pid log a)
        (collect-Finishes rounds (pid + 1) log.state (λ i l. h i (omega arith)))

  announce-Finishes :
      (rounds pid : ℕ) (m : SeqMessage)
      → ((i : ℕ) → i < pid + rounds → Reaches i × Comes (Confirms host m) (t.seq_ack_arrivals i))
      → Finishes (announce host t rounds pid m)
  unfolding announce send_seq_msg
  announce-Finishes zero pid m h = (m, refl)
  announce-Finishes (suc rounds) pid m h =
      let ((client, here, opens), comes) = h pid (omega arith) in
      let (log, e, a) =
        send_with_ack-returns client (seq_msg_bytes host m) (is_valid_ack host m) tt (opens _)
          (t.seq_ack_arrivals pid) (is_valid_ack-Answered host m (t.seq_ack_arrivals pid) comes) in
      rw (here, e, acknowledged-acked pid log a)
        (announce-Finishes rounds (pid + 1) m (λ i l. h i (omega arith)))

  -- A sender thread ends, and has then decided its message as `Decided` says: the final number is the
  -- largest that the processes have acknowledged, and all have acknowledged the SeqMessage.
  -- Conditions: every process has a client whose socket takes every datagram; at each client a valid
  -- acknowledgement of the message arrives while it waits in the first phase, and one of each SeqMessage
  -- with the sender and id of the message in the second; and until then no sendto fails, and no receive
  -- but by a timeout.
  pub multicast-Finishes :
      ((pid : ℕ) → pid < length t.processes → Answers pid)
      → ((m : SeqMessage) (pid : ℕ)
          → m.sender ≡ t.id
          → m.msg_id ≡ t.msg_id
          → pid < length t.processes
          → Comes (Confirms host m) (t.seq_ack_arrivals pid))
      → (m : SeqMessage) × (multicast host t ≡ ok (finished m)) × Decided host t m
  multicast-Finishes answers confirms =
      let (seqs, e) =
        collect-Finishes (length t.processes) 0 (replicate (length t.processes) 0)
          (λ i l. answers i (omega arith)) in
      let (m, f) = announce-Finishes (length t.processes) 0 (seq_msg host t seqs) (λ i l.
        ((answers i (omega arith)).0, confirms (seq_msg host t seqs) i refl refl (omega arith))) in
      let done : multicast host t ≡ ok (finished m) = unfold multicast in rw e f in
      (m, done, subst (Returns (Multicasts host t)) done (multicast-Multicasts host t))
