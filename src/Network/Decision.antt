-- ===== src/Network/Decision.antt =====
-- src/process.cc: a sender thread in a group, and the SeqMessage that it decides on.
use total_order_multicast.Common.{
  ℕ, ◌≤◌, ◌<◌, ◌≡◌, refl, sym, ap, subst, ◌∙◌, ◌⊎◌, inl, inr, true, none, some, List, Among, length,
  replicate, ok, arith, All-get_elem?, get_elem?-lt, get_elem?, length-replicate, Returns,
}
use total_order_multicast.Message.Host.{Host, u32_mod}
use total_order_multicast.Message.{AckMessage, SeqMessage, SeqAckMessage, ack_message_type}
use total_order_multicast.Message.Valid.{valid_ack_msg}
use total_order_multicast.Message.Wire.{ack_msg_from_buf, ack_msg_bytes, seq_ack_msg_bytes}
use total_order_multicast.Message.Wire.RoundTrip.{
  AckMessageFits, SeqMessageFits, ack_msg_from_buf-bytes, field_bytes-network,
}
use total_order_multicast.HoldBack.{PendingMessageKey, PendingMessageSeq, ack_seq}
use total_order_multicast.Process.Reception.{receive-short}
use total_order_multicast.Udp.{receive_buffer, receive_count}
use total_order_multicast.Udp.Reliable.{Arrives}
use total_order_multicast.Sender.{Sending, finished, seq_msg}
use total_order_multicast.Sender.Collect.{Acknowledges, IsAcked, Collected, collect-Collected}
use total_order_multicast.Sender.Selection.{IsFirst, select_final-Selects}
use total_order_multicast.Network.{Member, Network, Group, collected, IsSender, WasSent, thread_key}
use total_order_multicast.Network.Invariant.{Recorded, HasProposed, IsReply, Local, Backed}

module _ (sender receiver : Host) where
  ack_msg-decoded :
      (a : AckMessage)
      → AckMessageFits a
      → ack_msg_from_buf receiver
          (receive_buffer (ack_msg_bytes sender a))
          (receive_count (ack_msg_bytes sender a))
        ≡ some (record a { type = ack_message_type })
  ack_msg-decoded a fits =
      let (b, c) = receive-short (ack_msg_bytes sender a) 20 (ack_msg-length a) (omega arith) in
      rw (b, c) (ack_msg_from_buf-bytes sender receiver _ a fits)
    where
      ack_msg-length : (a : AckMessage) → length (ack_msg_bytes sender a) ≡ 20
      ack_msg-length a = unfold ack_msg_bytes in (simp (field_bytes-network sender) refl)

  -- The acknowledgement of a SeqMessage is not one of a DataMessage.
  seq_ack_msg-other :
      (q : SeqAckMessage)
      → ack_msg_from_buf receiver
          (receive_buffer (seq_ack_msg_bytes sender q))
          (receive_count (seq_ack_msg_bytes sender q))
        ≡ none
  unfolding ack_msg_from_buf
  seq_ack_msg-other q =
      let (b, c) =
        receive-short (seq_ack_msg_bytes sender q) 12 (seq_ack_msg-length q) (omega arith) in
      rw c refl
    where
      seq_ack_msg-length : (q : SeqAckMessage) → length (seq_ack_msg_bytes sender q) ≡ 12
      seq_ack_msg-length q = unfold seq_ack_msg_bytes in (simp (field_bytes-network sender) refl)

-- The process has proposed the number, which fits a uint32_t, and has it recorded.
abbrev pub Proposes : Host → ℕ → Member → PendingMessageKey → ℕ → Type 0
Proposes host i mem k seq =
    (v : PendingMessageSeq) × (v.seq ≡ seq)
    × (seq < u32_mod)
    × HasProposed host i mem k v
    × Recorded mem k v

module _ (host : Host) (id msg_id pid seq : ℕ) where
  valid-fields :
      (ack : AckMessage)
      → valid_ack_msg ack id msg_id pid ≡ true
      → (ack.sender ≡ id) × (ack.msg_id ≡ msg_id) × (ack.proposer ≡ pid)
  unfolding valid_ack_msg
  valid-fields ack valid = ground arith

  -- An acknowledgement that the callback accepts for process `pid` comes from that process.
  IsReply-Proposes :
      (hosts : ℕ → Host) (j : ℕ) (mem : ℕ → Member) (bytes : List ℕ)
      → Among bytes (mem j).node.sent
      → IsReply (hosts j) j (mem j) bytes
      → Acknowledges host id msg_id pid seq bytes
      → Proposes (hosts pid) pid (mem pid) (record { sender = id; msg_id = msg_id }) seq
  unfolding valid_ack_msg
  IsReply-Proposes hosts j mem bytes sent (inr (q, e)) (ack, decoded, valid, number) = cc (
    seq_ack_msg-other (hosts j) host q,
    ap (λ b. ack_msg_from_buf host (receive_buffer b) (receive_count b)) e,
    decoded,
  )
  IsReply-Proposes hosts j mem bytes sent (inl (a, e, fits, own, bound))
        (ack, decoded, valid, number) =
      let same : some (record a { type = ack_message_type }) ≡ some ack =
        sym (ack_msg-decoded (hosts j) host a fits) ∙ rw (← e) decoded in
      let (sends, ids, from) = valid-fields ack valid in
      let from_pid : j ≡ pid = cc (same, own, from) in
      let sender_eq : id ≡ a.sender = cc (same, sends) in
      let id_eq : msg_id ≡ a.msg_id = cc (same, ids) in
      let number_eq : a.proposed_seq ≡ seq = cc (same, number) in
      rw (← from_pid) (
        ack_seq a,
        number_eq,
        rw (← number_eq) fits.2,
        (a, rw (← e) sent, rw (sender_eq, id_eq) refl, refl, own),
        rw (sender_eq, id_eq) bound,
      )

-- The fields of a SeqMessage fit, its process ids are those of processes, and no process has proposed
-- a larger number for its message.
abbrev pub IsFounded : Group → Network → SeqMessage → Type 0
IsFounded g net m =
    SeqMessageFits m
    × (m.sender < length g.processes)
    × (m.final_seq_proposer < length g.processes)
    × ((i : ℕ) → i < length g.processes → Backed (g.hosts i) i (net.members i) m)

module _ (g : Group) (net : Network) (small : length g.processes ≤ u32_mod)
    (locals : (i : ℕ)
      → i < length g.processes
      → Local (g.hosts i) (length g.processes) i (net.members i))
    (t : Sending) (sender : IsSender g t)
    (genuine : (pid : ℕ) (bytes : List ℕ)
      → Arrives bytes (t.ack_arrivals pid)
      → WasSent g net bytes) where
  IsAcked-Proposes :
      (pid seq : ℕ)
      → IsAcked (g.hosts t.id) t pid seq
      → Proposes (g.hosts pid) pid (net.members pid) (thread_key t) seq
  IsAcked-Proposes pid seq (bytes, arrives, a) =
      let (j, l, sent) = genuine pid bytes arrives in
      IsReply-Proposes (g.hosts t.id) t.id t.msg_id pid seq g.hosts j net.members bytes sent
        ((locals j l).replies bytes sent) a

  abbrev n : ℕ
  n = length g.processes

  module _ (numbers : List ℕ) (done : collected g t ≡ ok (finished numbers)) where
    numbers-Collected :
        Collected
          (g.hosts t.id)
          t
          (length t.processes)
          0
          (replicate (length t.processes) 0)
          (finished numbers)
    unfolding collected
    numbers-Collected =
        subst
          (Returns
            (Collected (g.hosts t.id) t (length t.processes) 0 (replicate (length t.processes) 0)))
          done
          (collect-Collected (g.hosts t.id) t (length t.processes) 0
            (replicate (length t.processes) 0)
            (omega (arith, length-replicate {A = ℕ} (length t.processes) 0)))

    count : length t.processes ≡ n
    count = ap length sender.0

    -- The number at an index was proposed by the process with that index.
    number-Proposes :
        (i : ℕ)
        → i < n
        → (seq : ℕ) × (get_elem? numbers i ≡ some seq)
          × Proposes (g.hosts i) i (net.members i) (thread_key t) seq
    number-Proposes i h =
        let (seq, e, acked) = numbers-Collected.2 i (omega arith) (omega (arith, count)) in
        (seq, e, IsAcked-Proposes i seq acked)

    -- The selected number and its proposer.
    selected-fits :
        (f p : ℕ) → ((f ≡ 0) × (p ≡ 0)) ⊎ ((0 < f) × IsFirst numbers p f) → (f < u32_mod) × (p < n)
    selected-fits f p (inl (zero_f, zero_p)) = (omega arith, omega (arith, sender.1))
    selected-fits f p (inr (positive, (e, _))) =
        let below : p < n = omega (
          arith,
          get_elem?-lt numbers p f e,
          numbers-Collected.0,
          length-replicate {A = ℕ} (length t.processes) 0,
          count,
        ) in
        let (seq, q, (v, _, fits, _, _)) = number-Proposes p below in
        (let same : seq ≡ f = cc (e, q) in rw (← same) fits, below)

    pub seq_msg-IsFounded : IsFounded g net (seq_msg (g.hosts t.id) t numbers)
    seq_msg-IsFounded =
        let (most, which) = select_final-Selects numbers in
        let (fits, below) = selected-fits _ _ which in
        (
          (omega (arith, sender.1), sender.2, fits, omega arith),
          sender.1,
          below,
          λ i h.
              let (seq, q, (v, same, _, proposed, bound)) = number-Proposes i h in
              (v, omega (arith, All-get_elem? _ numbers i seq most q), proposed, bound),
        )
