-- ===== src/Network/Data.antt =====
-- src/process.cc: a process in a group that handles a DataMessage.
use total_order_multicast.Common.{
  ℕ, ◌+◌, ◌<◌, ◌≡◌, refl, sym, ◌∙◌, inl, inr, none, some, List, [], ◌∷◌, ◌++◌, length, Among,
  Among-append_left, Bool-cases, Option-cases, ok, arith,
}
use total_order_multicast.Message.Host.{Host, u32_mod}
use total_order_multicast.Message.{DataMessage, SeqMessage, AckMessage}
use total_order_multicast.Message.Wire.{ack_msg_bytes}
use total_order_multicast.Message.Wire.RoundTrip.{DataMessageFits}
use total_order_multicast.HoldBack.{
  PendingMessageKey, PendingMessageSeq, find, data_key, ack_key, ack_seq, old_ack, key_eq,
}
use total_order_multicast.HoldBack.Pending.{find-assign, key_eq_refl, key_eq→eq}
use total_order_multicast.Process.{Node, accept_data, new_ack, next_seq_num}
use total_order_multicast.Process.Invariant.{NodeInv, Settles-ok}
use total_order_multicast.Process.Data.{
  proposed, accept_data-pending, accept_data-new, accept_data-Settles,
}
use total_order_multicast.Process.Final.{FinalInv, accept_data-FinalInv}
use total_order_multicast.Process.Retention.{Holds, accept_data-Holds}
use total_order_multicast.Process.Replay.{reply-ok}
use total_order_multicast.Udp.{Client}
use total_order_multicast.Network.{Member}
use total_order_multicast.Network.Invariant.{
  Recorded, IsReply, IsOpen, Local, Settled, Grows, Backed-Grows, replies-Grows, DecidedBy,
}

module _ (host : Host) (n i : ℕ) (mem : Member) (l : Local host n i mem) (client : Client)
    (m : DataMessage) (small : i < u32_mod) (fits : DataMessageFits m)
    (room : mem.node.process.seq_counter + 1 < u32_mod)
    (timely : ¬ Among (data_key m) mem.heard) where
  -- What a handler has changed, apart from the invariant of the process itself.
  record Moved (after : Node) : Type 0 where
    pub count : length after.process.processes ≡ n
    pub identity : after.process.id ≡ i
    pub pending :
        (k : PendingMessageKey) (v : PendingMessageSeq)
        → find k after.process.hold_back_queue.pending_seqs ≡ some v
        → IsOpen i mem.heard k v
    pub replies :
        (bytes : List ℕ)
        → Among bytes after.sent
        → IsReply host i (record { node = after; heard = mem.heard }) bytes
    pub grows : Grows mem (record { node = after; heard = mem.heard })

  replied : Node → AckMessage → Node
  replied node ack = record node { sent = node.sent ++ ack_msg_bytes host ack ∷ [] }

  sent-more :
      (last bytes : List ℕ) → Among bytes mem.node.sent → Among bytes (mem.node.sent ++ last ∷ [])
  sent-more last bytes h = Among-append_left bytes mem.node.sent (last ∷ []) h

  pending-Moved :
      (v : PendingMessageSeq)
      → find (data_key m) mem.node.process.hold_back_queue.pending_seqs ≡ some v
      → Moved (replied mem.node (old_ack host m v))
  unfolding replied
  pending-Moved v e =
      let (small_seq, own, _) = l.pending (data_key m) v e in
      record {
        count = l.count;
        identity = l.identity;
        pending = l.pending;
        replies =
            replies-Grows host n i mem
              (record { node = replied mem.node (old_ack host m v); heard = mem.heard })
              (λ k w b. b, sent-more (ack_msg_bytes host (old_ack host m v))) mem.node.sent
              (ack_msg_bytes host (old_ack host m v)) l.replies
              (inl (old_ack host m v, refl, (fits.0, fits.1, small_seq, rw own small), own, inl e));
        grows = (λ k w b. b, sent-more (ack_msg_bytes host (old_ack host m v)));
      }

  module _ (new : find (data_key m) mem.node.process.hold_back_queue.pending_seqs ≡ none) where
    abbrev ack : AckMessage
    ack = new_ack host mem.node.process m

    abbrev extended_member : Member
    extended_member = record { node = replied (proposed host mem.node m) ack; heard = mem.heard }

    -- The new number is the only one that changes.
    new-Recorded : Recorded extended_member (data_key m) (ack_seq ack)
    unfolding replied
    new-Recorded = inl (
        find-assign (data_key m) (ack_key ack) (ack_seq ack)
          mem.node.process.hold_back_queue.pending_seqs
        ∙ rw (key_eq_refl (data_key m)) refl)

    still-Recorded :
        (k : PendingMessageKey) (v : PendingMessageSeq)
        → Recorded mem k v
        → Recorded extended_member k v
    unfolding replied
    still-Recorded k v (inr h) = inr h
    still-Recorded k v (inl e) = elim (Bool-cases (key_eq (data_key m) k)) [
      | inl same ↦ let eq = key_eq→eq (data_key m) k same in absurd (cc (eq, e, new))
      | inr other ↦ inl (
          find-assign k (ack_key ack) (ack_seq ack) mem.node.process.hold_back_queue.pending_seqs
          ∙ rw other e)
    ]

    new-Grows : Grows mem extended_member
    unfolding replied
    new-Grows = (still-Recorded, sent-more (ack_msg_bytes host ack))

    new-IsOpen :
        (k : PendingMessageKey) (v : PendingMessageSeq)
        → find k extended_member.node.process.hold_back_queue.pending_seqs ≡ some v
        → IsOpen i mem.heard k v
    unfolding replied next_seq_num
    new-IsOpen k v f =
        let e =
          sym (
            find-assign k (ack_key ack) (ack_seq ack) mem.node.process.hold_back_queue.pending_seqs)
          ∙ f in
        elim (Bool-cases (key_eq (data_key m) k)) [
          | inl same ↦
              let key = key_eq→eq (data_key m) k same in
              let number : ack_seq ack ≡ v = ground arith in
              rw (← key, ← number) (omega arith, l.identity, timely)
          | inr other ↦ l.pending k v (ground arith)
        ]

    new-Moved : Moved extended_member.node
    unfolding replied next_seq_num
    new-Moved = record {
      count = l.count;
      identity = l.identity;
      pending = new-IsOpen;
      replies =
          replies-Grows host n i mem extended_member new-Grows mem.node.sent
            (ack_msg_bytes host ack) l.replies
            (inl (
              ack,
              refl,
              (fits.0, fits.1, omega arith, rw l.identity small),
              l.identity,
              new-Recorded,
            ));
      grows = new-Grows;
    }

  accept_data-Moved : (after : Node) → accept_data host mem.node client m ≡ ok after → Moved after
  unfolding replied
  accept_data-Moved after done =
      elim (Option-cases (find (data_key m) mem.node.process.hold_back_queue.pending_seqs)) [
        | inr (v, e) ↦
            rw
              (reply-ok host mem.node after client (ack_msg_bytes host (old_ack host m v))
                (sym (accept_data-pending host mem.node client m v e) ∙ done))
              (pending-Moved v e)
        | inl e ↦
            rw
              (reply-ok host (proposed host mem.node m) after client
                (ack_msg_bytes host (new_ack host mem.node.process m))
                (sym (accept_data-new host mem.node client m l.inv.queue.shape e) ∙ done))
              (new-Moved e)
      ]

  -- The process handles a DataMessage for which it has heard no SeqMessage.
  pub accept_data-Local :
      (after : Node) (seqs : List SeqMessage)
      → accept_data host mem.node client m ≡ ok after
      → Settled host i seqs mem
      → let mem' = record mem { node = after } in Local host n i mem' × Settled host i seqs mem'
  accept_data-Local after seqs done s =
      let moved = accept_data-Moved after done in
      (
        record {
          inv =
              Settles-ok client NodeInv _ after
                (accept_data-Settles host mem.node client m l.inv room) done;
          count = moved.count;
          identity = moved.identity;
          pending = moved.pending;
          replies = moved.replies;
          held = λ k h.
              Settles-ok client (Holds k) _ after
                (accept_data-Holds k host mem.node client m l.inv.queue.shape (inl (l.held k h)))
                done;
        },
        record {
          final =
              Settles-ok client (FinalInv (DecidedBy seqs)) _ after
                (accept_data-FinalInv (DecidedBy seqs) host mem.node client m l.inv s.final) done;
          backed = λ q a.
              Backed-Grows host n i mem (record { node = after; heard = mem.heard }) moved.grows q
                (s.backed q a);
        },
      )
