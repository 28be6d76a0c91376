-- ===== src/Process/Replay.antt =====
-- src/process.cc: HandleDataMsg behind its validation, on a message that is received again.
use total_order_multicast.Common.{
  ◌+◌, ◌<◌, ◌≡◌, refl, sym, ap, ◌∙◌, inl, inr, none, some, Option, ◌%◌, List, [], ◌∷◌, ◌++◌,
  Bool-cases, ℕ, Option-cases, ok, arith,
}
use total_order_multicast.Message.Host.{Host, u32_mod}
use total_order_multicast.Message.{DataMessage, AckMessage}
use total_order_multicast.Message.Wire.{ack_msg_bytes}
use total_order_multicast.HoldBack.{
  PendingMessageSeq, PendingMessageKey, find, data_key, old_ack, ack_key, ack_seq,
}
use total_order_multicast.HoldBack.Insertion.{added}
use total_order_multicast.HoldBack.Keys.{Queued, Logged, Queued-insert_self}
use total_order_multicast.HoldBack.Pending.{find-assign, key_eq_refl}
use total_order_multicast.Process.{Node, reply, new_ack, accept_data, next_seq_num}
use total_order_multicast.Process.Robust.{HasShape}
use total_order_multicast.Process.Data.{proposed, accept_data-pending, accept_data-new}
use total_order_multicast.Udp.{Client, send}

-- A reply that is sent is the last datagram sent, and nothing else has changed.
pub reply-ok :
    (host : Host) (node after : Node) (client : Client) (buf : List ℕ)
    → reply host node client buf ≡ ok after
    → after ≡ record node { sent = node.sent ++ buf ∷ [] }
unfolding reply send
reply-ok host node after client buf e = elim (Bool-cases (client.sendto buf)) [
  | inl taken ↦ ground arith
  | inr refused ↦ ground arith
]

module _ (host : Host) (node after : Node) (client client' : Client) (m again : DataMessage)
    (same : data_key again ≡ data_key m) where
  abbrev pub AnswersAlike : Type 0
  AnswersAlike =
      (bytes : List ℕ) × (after.sent ≡ node.sent ++ bytes ∷ [])
      × (accept_data host after client' again ≡ reply host after client' bytes)

  same_ack : (v : PendingMessageSeq) → old_ack host again v ≡ old_ack host m v
  same_ack v =
      ap {B = AckMessage}
        (λ (k : PendingMessageKey). record {
          type = host.uninit;
          sender = k.sender;
          msg_id = k.msg_id;
          proposed_seq = v.seq;
          proposer = v.seq_proposer;
        })
        same

  -- The message is recorded with a number that was sent.
  recorded-AnswersAlike :
      (v : PendingMessageSeq)
      → find (data_key m) after.process.hold_back_queue.pending_seqs ≡ some v
      → after.sent ≡ node.sent ++ ack_msg_bytes host (old_ack host m v) ∷ []
      → AnswersAlike
  recorded-AnswersAlike v e sent = (
    ack_msg_bytes host (old_ack host m v),
    sent,
    accept_data-pending host after client' again v (rw same e)
        ∙ ap (λ a. reply host after client' (ack_msg_bytes host a)) (same_ack v),
  )

  again-pending :
      (v : PendingMessageSeq)
      → find (data_key m) node.process.hold_back_queue.pending_seqs ≡ some v
      → accept_data host node client m ≡ ok after
      → AnswersAlike
  again-pending v e done =
      let left =
        reply-ok host node after client (ack_msg_bytes host (old_ack host m v))
          (sym (accept_data-pending host node client m v e) ∙ done) in
      recorded-AnswersAlike v (rw left e) (ap (λ n. n.sent) left)

  again-new :
      HasShape node
      → find (data_key m) node.process.hold_back_queue.pending_seqs ≡ none
      → accept_data host node client m ≡ ok after
      → AnswersAlike
  again-new shape e done =
      let ack = new_ack host node.process m in
      let left =
        reply-ok host (proposed host node m) after client (ack_msg_bytes host ack)
          (sym (accept_data-new host node client m shape e) ∙ done) in
      recorded-AnswersAlike (ack_seq ack)
        (rw left (
          find-assign (data_key m) (ack_key ack) (ack_seq ack)
            node.process.hold_back_queue.pending_seqs
          ∙ rw (key_eq_refl (data_key m)) refl))
        (ap (λ n. n.sent) left)

  -- A DataMessage that is received again, directly after a reception that was answered, is answered
  -- with the same bytes and changes nothing: it gets no other number.
  -- Condition: the two parts of the queue fit together, as they do after any datagrams.
  pub accept_data-again : HasShape node → accept_data host node client m ≡ ok after → AnswersAlike
  accept_data-again shape done =
      elim (Option-cases (find (data_key m) node.process.hold_back_queue.pending_seqs)) [
        | inl e ↦ again-new shape e done
        | inr (v, e) ↦ again-pending v e done
      ]

-- A late replay: where it is answered, a DataMessage of a message that was delivered already and that
-- is not recorded in `pending_seqs_` is accepted as a new message: it is recorded with the next number
-- of the counter and queued once more, while the log keeps its delivery.
-- Conditions: the two parts of the queue fit together, as they do after any datagrams, and the
-- sequence counter is below its last value.
pub accept_data-late :
    (host : Host) (node after : Node) (client : Client) (m : DataMessage)
    → HasShape node
    → node.process.seq_counter + 1 < u32_mod
    → Logged (data_key m) node.delivered
    → find (data_key m) node.process.hold_back_queue.pending_seqs ≡ none
    → accept_data host node client m ≡ ok after
    → (find (data_key m) after.process.hold_back_queue.pending_seqs
        ≡ some (record { seq = node.process.seq_counter + 1; seq_proposer = node.process.id }))
      × Queued (data_key m) after.process.hold_back_queue.ordering
      × Logged (data_key m) after.delivered
unfolding next_seq_num
accept_data-late host node after client m shape room logged e done =
    let ack = new_ack host node.process m in
    let left =
      reply-ok host (proposed host node m) after client (ack_msg_bytes host ack)
        (sym (accept_data-new host node client m shape e) ∙ done) in
    let number : (node.process.seq_counter + 1) % u32_mod ≡ node.process.seq_counter + 1 =
      omega arith in
    rw left (
      find-assign (data_key m) (ack_key ack) (ack_seq ack) node.process.hold_back_queue.pending_seqs
          ∙ rw (key_eq_refl (data_key m)) (
              ap {B = Option PendingMessageSeq}
                (λ n. some (record { seq = n; seq_proposer = node.process.id })) number),
      Queued-insert_self (added ack m.payload) node.process.hold_back_queue.ordering,
      logged,
    )
