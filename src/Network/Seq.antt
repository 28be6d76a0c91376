-- ===== src/Network/Seq.antt =====
-- src/process.cc: a process in a group that handles a SeqMessage.
use total_order_multicast.Common.{
  ℕ, ◌≡◌, refl, sym, subst, ◌∙◌, inl, inr, false, none, some, List, [], ◌∷◌, ◌++◌, Among,
  Among-append_left, Bool-cases, Option-cases, Result, ok, throw, ◌>>=◌, arith,
}
use total_order_multicast.Message.Host.{Host}
use total_order_multicast.Message.{SeqMessage}
use total_order_multicast.Message.Wire.{seq_ack_msg_bytes}
use total_order_multicast.HoldBack.{
  PendingMessageKey, PendingMessageSeq, find, seq_key, key_eq, PendingSeq, undeliverable,
}
use total_order_multicast.HoldBack.Pending.{
  find-remove_ne, find-remove_self, key_eq_refl, key_eq→eq,
}
use total_order_multicast.HoldBack.Keys.{count-Queued}
use total_order_multicast.Process.{Node, accept_seq, seq_ack, finalize, reply, forward_seq_num}
use total_order_multicast.Process.Invariant.{NodeInv, Settles-ok}
use total_order_multicast.Process.Seq.{
  forwarded, forward_seq_num-ge, set_deliverable-none, set_deliverable-some, accept_seq-Settles,
}
use total_order_multicast.Process.Final.{FinalInv, accept_seq-FinalInv}
use total_order_multicast.Process.Retention.{Holds, accept_seq-Holds}
use total_order_multicast.Process.Replay.{reply-ok}
use total_order_multicast.Udp.{Client}
use total_order_multicast.Network.{Member}
use total_order_multicast.Network.Invariant.{
  Recorded, IsOpen, Local, Settled, Grows, Backed, Backed-Grows, replies-Grows, DecidedBy,
  Backed-Dominates,
}

-- What is recorded after SetDeliverable: the key of the message is not, the others are as before.
module _ (ps : List PendingSeq) (k : PendingMessageKey) where
  abbrev pub Removed : List PendingSeq → Type 0
  Removed qs =
      (find k qs ≡ none) × ((j : PendingMessageKey) → key_eq k j ≡ false → find j qs ≡ find j ps)

module _ (host : Host) (n i : ℕ) (mem : Member) (l : Local host n i mem) (client : Client)
    (m : SeqMessage) where
  abbrev replied : Node
  replied = record (forwarded mem.node m) {
    sent = mem.node.sent ++ seq_ack_msg_bytes host (seq_ack host m) ∷ [];
  }

  same_queue : replied.process.hold_back_queue ≡ mem.node.process.hold_back_queue
  same_queue = (forward_seq_num-ge mem.node.process m.final_seq).2

  same_process :
      (replied.process.processes ≡ mem.node.process.processes)
      × (replied.process.id ≡ mem.node.process.id)
  unfolding forward_seq_num
  same_process = ground arith

  accept_seq-eq :
      (after : Node)
      → accept_seq host mem.node client m ≡ ok after
      → after ≡ finalize host replied m
  unfolding accept_seq
  accept_seq-eq after done =
      step (reply host (forwarded mem.node m) client (seq_ack_msg_bytes host (seq_ack host m))) refl
        done
    where
      step :
          (r : Result Node)
          → reply host (forwarded mem.node m) client (seq_ack_msg_bytes host (seq_ack host m)) ≡ r
          → (r >>= (λ replied. ok (finalize host replied m))) ≡ ok after
          → after ≡ finalize host replied m
      step (throw x) e f = cc
      step (ok r) e f =
          let sent =
            reply-ok host (forwarded mem.node m) r client (seq_ack_msg_bytes host (seq_ack host m))
              e in
          cc (sent, f)

  finalize-Removed :
      Removed mem.node.process.hold_back_queue.pending_seqs
        (seq_key m)
        (finalize host replied m).process.hold_back_queue.pending_seqs
  unfolding finalize
  finalize-Removed =
      elim (Option-cases (find (seq_key m) mem.node.process.hold_back_queue.pending_seqs)) [
        | inl e ↦
            rw (same_queue, set_deliverable-none host mem.node.process.hold_back_queue m e)
              (e, λ j d. refl)
        | inr (old, e) ↦
            rw (same_queue, set_deliverable-some host mem.node.process.hold_back_queue m old e)
              (
                find-remove_self (seq_key m) _ l.inv.queue.shape.distinct,
                λ j d. find-remove_ne j (seq_key m) _ d,
              )
      ]

  module _ (backed : Backed host i mem m) where
    abbrev after_seq : Member
    after_seq = record { node = finalize host replied m; heard = seq_key m ∷ mem.heard }

    seq-Recorded :
        (k : PendingMessageKey) (v : PendingMessageSeq) → Recorded mem k v → Recorded after_seq k v
    seq-Recorded k v (inr h) = inr (inr h)
    seq-Recorded k v (inl e) = elim (Bool-cases (key_eq (seq_key m) k)) [
      | inl same ↦ inr (inl (key_eq→eq (seq_key m) k same))
      | inr other ↦ inl (finalize-Removed.1 k other ∙ e)
    ]

    seq-Grows : Grows mem after_seq
    unfolding finalize
    seq-Grows = (
      seq-Recorded,
      λ bytes h.
          Among-append_left bytes mem.node.sent (seq_ack_msg_bytes host (seq_ack host m) ∷ []) h,
    )

    seq-IsOpen :
        (k : PendingMessageKey) (v : PendingMessageSeq)
        → find k after_seq.node.process.hold_back_queue.pending_seqs ≡ some v
        → IsOpen i after_seq.heard k v
    seq-IsOpen k v f = elim (Bool-cases (key_eq (seq_key m) k)) [
      | inl same ↦ let e = key_eq→eq (seq_key m) k same in absurd (cc (e, f, finalize-Removed.0))
      | inr other ↦
          let (small, own, silent) = l.pending k v (sym (finalize-Removed.1 k other) ∙ f) in
          (
            small,
            own,
            λ h. elim h [ inl e ↦ cc (e, other, key_eq_refl k) | inr before ↦ silent before ],
          )
    ]

    before-Holds : (k : PendingMessageKey) → Among k after_seq.heard → Holds k mem.node
    before-Holds k (inr h) = l.held k h
    before-Holds k (inl e) = elim backed.3 [
      | inl pending ↦ inl (
          rw (← e) (
            count-Queued (undeliverable (seq_key m) backed.0 0) _
              (l.inv.queue.shape.queued (seq_key m) backed.0 0 pending)))
      | inr heard ↦ l.held k (rw (← e) heard)
    ]

    -- The process handles a SeqMessage that was sent.
    pub accept_seq-Local :
        (after : Node) (seqs : List SeqMessage)
        → accept_seq host mem.node client m ≡ ok after
        → DecidedBy seqs (seq_key m) m.final_seq
        → Settled host i seqs mem
        → let mem' = record mem { node = after; heard = seq_key m ∷ mem.heard } in
          Local host n i mem' × Settled host i seqs mem'
    unfolding finalize
    accept_seq-Local after seqs done sent s =
        let dominates = Backed-Dominates host n i mem m l backed in
        let eq = accept_seq-eq after done in
        rw eq (
          record {
            inv = subst NodeInv eq (
                Settles-ok client NodeInv _ after
                  (accept_seq-Settles host mem.node client m l.inv dominates) done);
            count = rw (same_process.0) l.count;
            identity = rw (same_process.1) l.identity;
            pending = seq-IsOpen;
            replies =
                replies-Grows host n i mem after_seq seq-Grows mem.node.sent
                  (seq_ack_msg_bytes host (seq_ack host m)) l.replies (inr (seq_ack host m, refl));
            held = λ k h. subst (Holds k) eq (
                Settles-ok client (Holds k) _ after
                  (accept_seq-Holds k host mem.node client m (before-Holds k h)) done);
          },
          record {
            final = subst (FinalInv (DecidedBy seqs)) eq (
                Settles-ok client (FinalInv (DecidedBy seqs)) _ after
                  (accept_seq-FinalInv (DecidedBy seqs) host mem.node client m sent s.final) done);
            backed = λ q a. Backed-Grows host n i mem after_seq seq-Grows q (s.backed q a);
          },
        )
