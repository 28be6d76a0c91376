-- ===== src/HoldBack/Finalization.antt =====
-- HoldBackQueue::SetDeliverable (src/process.cc) on a pending key, and the invariant.
use total_order_multicast.Common.{
  ℕ, ◌≤◌, ◌≡◌, refl, sym, ap, ◌∙◌, inl, inr, ◌||◌, true, false, some, List, [], ◌∷◌, All, All-mono₂,
  Bool-cases, arith,
}
use total_order_multicast.Common.OrderedSet
use total_order_multicast.Common.OrderedSet.Laws.{
  All-insert, All-erase, count-insert, count-erase, IsSorted-insert, IsSorted-erase, erase-separate,
}
use total_order_multicast.Message.Host.{Host}
use total_order_multicast.Message.{SeqMessage}
use total_order_multicast.HoldBack.{
  PendingMessageKey, PendingMessageSeq, PendingMessage, HoldBackQueue, key_eq, before, find, remove,
  seq_key, undeliverable, finalized, deliver_ready, reorder,
}
use total_order_multicast.HoldBack.Order.{
  before_trans, SamePlace, SamePlace-sym, SamePlace→not_before,
}
use total_order_multicast.HoldBack.Pending.{
  key_eq→eq, find-remove_ne, find-remove_self, remove-Distinct,
}
use total_order_multicast.HoldBack.Loop.{
  deliver_ready-All, deliver_ready-IsSorted, deliver_ready-HeadWaits, deliver_ready-head,
  deliver_ready-stop,
}
use total_order_multicast.HoldBack.Invariant.{
  IsRecorded, QueueShape, QueueInv, apart_state, apart_key, before_same,
}

module _ (host : Host) (m : SeqMessage) where
  -- An undeliverable element outlives the delivery loop.
  count-deliver_ready :
      (x : PendingMessage) (pms : List PendingMessage)
      → x.deliverable ≡ false
      → OrderedSet.count before x pms ≡ true
      → OrderedSet.count before x (deliver_ready host pms).rest ≡ true
  count-deliver_ready x [] d h = unfold deliver_ready in h
  count-deliver_ready x (pm ∷ pms) d h = elim (Bool-cases pm.deliverable) [
    | inl e ↦ rw (deliver_ready-head host pm pms e) (
        count-deliver_ready x pms d
          (unfold OrderedSet.count in (ground (arith, apart_state x pm d e))))
    | inr e ↦ rw (deliver_ready-stop host pm pms e) h
  ]

  module _ {q : HoldBackQueue} (inv : QueueShape q) (old : PendingMessageSeq)
      (here : find (seq_key m) q.pending_seqs ≡ some old) where
    abbrev erased : PendingMessage
    erased = undeliverable (seq_key m) old host.uninit

    -- The recorded element is the erased one.
    erased_apart :
        (pm : PendingMessage)
        → seq_key m ≡ pm.pmk
        → find pm.pmk q.pending_seqs ≡ some pm.pms
        → pm.deliverable ≡ false
        → (before erased pm || before pm erased) ≡ true
        → ⊥
    erased_apart pm same e d apart =
        cc (
          SamePlace→not_before erased pm place,
          SamePlace→not_before pm erased (SamePlace-sym place),
        )
      where
        value : old ≡ pm.pms
        value = cc (ap (λ k. find k q.pending_seqs) same)

        place : SamePlace erased pm
        place = record {
          seq = ap (λ v. v.seq) value;
          state = sym d;
          sender = ap (λ k. k.sender) same;
          msg_id = ap (λ k. k.msg_id) same;
        }

    still-IsRecorded :
        (pm : PendingMessage)
        → IsRecorded q.pending_seqs pm
        → (before erased pm || before pm erased) ≡ true
        → IsRecorded (remove (seq_key m) q.pending_seqs) pm
    unfolding before
    still-IsRecorded pm h apart d = elim (Bool-cases (key_eq (seq_key m) pm.pmk)) [
      | inl same ↦ absurd (erased_apart pm (key_eq→eq _ _ same) (h d) d apart)
      | inr other ↦ find-remove_ne pm.pmk (seq_key m) q.pending_seqs other ∙ h d
    ]

    reorder-IsRecorded :
        All (IsRecorded (remove (seq_key m) q.pending_seqs)) (reorder host m old q.ordering)
    unfolding reorder
    reorder-IsRecorded =
        All-insert before (IsRecorded (remove (seq_key m) q.pending_seqs)) (finalized host m)
          (OrderedSet.erase before erased q.ordering) (λ e. cc)
          (All-mono₂ _ _ _ still-IsRecorded (OrderedSet.erase before erased q.ordering)
            (All-erase before (IsRecorded q.pending_seqs) erased q.ordering inv.recorded)
            (erase-separate before before_trans erased q.ordering (before_same erased) inv.sorted))

    reorder-queued :
        (k : PendingMessageKey) (v : PendingMessageSeq) (u : ℕ)
        → find k (remove (seq_key m) q.pending_seqs) ≡ some v
        → OrderedSet.count before (undeliverable k v u) (reorder host m old q.ordering) ≡ true
    unfolding reorder
    reorder-queued k v u e = elim (Bool-cases (key_eq (seq_key m) k)) [
      | inl same ↦
          cc
            (find-remove_self (seq_key m) q.pending_seqs inv.distinct, key_eq→eq (seq_key m) k same)
      | inr other ↦ count-insert before (undeliverable k v u) (finalized host m) _ (
          count-erase before (undeliverable k v u) erased q.ordering
            (λ z. apart_key erased (undeliverable k v u) z other)
            (inv.queued k v u (sym (find-remove_ne k (seq_key m) q.pending_seqs other) ∙ e)))
    ]

    pub updated-QueueShape : QueueShape (record {
      pending_seqs = (remove (seq_key m) q.pending_seqs);
      ordering = (deliver_ready host (reorder host m old q.ordering)).rest;
    })
    unfolding reorder
    updated-QueueShape = record {
      sorted = deliver_ready-IsSorted host _ (
          IsSorted-insert before before_trans (finalized host m) _
            (IsSorted-erase before before_trans erased q.ordering inv.sorted));
      distinct = remove-Distinct (seq_key m) q.pending_seqs inv.distinct;
      recorded =
          deliver_ready-All host (IsRecorded (remove (seq_key m) q.pending_seqs)) _
            reorder-IsRecorded;
      queued = λ k v u e. count-deliver_ready (undeliverable k v u) _ refl (reorder-queued k v u e);
      waits = deliver_ready-HeadWaits host _;
    }

  pub updated-QueueInv :
      {c : ℕ} {q : HoldBackQueue}
      → QueueInv c q
      → (old : PendingMessageSeq) → find (seq_key m) q.pending_seqs ≡ some old
      → m.final_seq ≤ c
      → QueueInv c (record {
        pending_seqs = (remove (seq_key m) q.pending_seqs);
        ordering = (deliver_ready host (reorder host m old q.ordering)).rest;
      })
  unfolding reorder
  updated-QueueInv {c} {q} inv old here final = record {
    shape = updated-QueueShape inv.shape old here;
    bounded =
        deliver_ready-All host (λ pm. pm.pms.seq ≤ c) _
          (All-insert before (λ pm. pm.pms.seq ≤ c) (finalized host m) _ final
            (All-erase before (λ pm. pm.pms.seq ≤ c) (undeliverable (seq_key m) old host.uninit)
              q.ordering inv.bounded));
  }
