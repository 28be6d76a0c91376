-- ===== src/HoldBack/Insertion.antt =====
-- HoldBackQueue::InsertUndeliverable (src/process.cc) on a new key, and the invariant.
use total_order_multicast.Common.{
  ℕ, ◌<◌, ◌≤◌, ◌≡◌, refl, sym, ap, ◌∙◌, inl, inr, true, none, some, All, All-mono, Bool-cases, ok,
  arith,
}
use total_order_multicast.Common.OrderedSet
use total_order_multicast.Common.OrderedSet.Laws.{
  All-insert, count-insert, count-insert_self, IsSorted-insert,
}
use total_order_multicast.Message.{AckMessage}
use total_order_multicast.HoldBack.{
  PendingMessageKey, PendingMessageSeq, PendingMessage, HoldBackQueue, key_eq, before, find, assign,
  ack_key, ack_seq, undeliverable, insert_undeliverable,
}
use total_order_multicast.HoldBack.Order.{before_irrefl, before_trans}
use total_order_multicast.HoldBack.Pending.{key_eq→eq, find-assign, assign-Distinct}
use total_order_multicast.HoldBack.Invariant.{
  IsRecorded, QueueShape, QueueInv, count_unrecorded, HeadWaits-insert, count_payload,
}

-- The element that InsertUndeliverable adds to `ordering_`.
abbrev pub added : AckMessage → ℕ → PendingMessage
added ack payload = undeliverable (ack_key ack) (ack_seq ack) payload

-- The queue that InsertUndeliverable leaves.
abbrev pub extended : HoldBackQueue → AckMessage → ℕ → HoldBackQueue
extended q ack payload = record {
  pending_seqs = assign (ack_key ack) (ack_seq ack) q.pending_seqs;
  ordering = OrderedSet.insert before (added ack payload) q.ordering;
}

module _ {q : HoldBackQueue} (inv : QueueShape q) where
  -- The insertion of a new key succeeds.
  module _ (ack : AckMessage) (payload : ℕ) where
    module _ (new : find (ack_key ack) q.pending_seqs ≡ none) where
      pub insert_undeliverable-eq : insert_undeliverable q ack payload ≡ ok (extended q ack payload)
      unfolding insert_undeliverable
      insert_undeliverable-eq = ground (
        arith,
        count_unrecorded (ack_key ack) (ack_seq ack) payload q.pending_seqs q.ordering new
            inv.recorded,
      )

      extended-IsRecorded :
          All (IsRecorded (extended q ack payload).pending_seqs) (extended q ack payload).ordering
      extended-IsRecorded =
          All-insert before (IsRecorded (extended q ack payload).pending_seqs) (added ack payload)
            q.ordering
            (λ _.
              ground (arith, find-assign (ack_key ack) (ack_key ack) (ack_seq ack) q.pending_seqs))
            (All-mono _ _ (λ pm h d. old pm (h d)) q.ordering inv.recorded)
        where
          old :
              (pm : PendingMessage)
              → find pm.pmk q.pending_seqs ≡ some pm.pms
              → find pm.pmk (extended q ack payload).pending_seqs ≡ some pm.pms
          old pm e = elim (Bool-cases (key_eq (ack_key ack) pm.pmk)) [
            | inl same ↦ cc (sym new ∙ ap (λ k. find k q.pending_seqs) (key_eq→eq _ _ same) ∙ e)
            | inr other ↦ find-assign pm.pmk (ack_key ack) (ack_seq ack) q.pending_seqs ∙ rw other e
          ]

      is_added :
          (k : PendingMessageKey) (v : PendingMessageSeq)
          → find k (extended q ack payload).pending_seqs ≡ some v
          → key_eq (ack_key ack) k ≡ true
          → undeliverable k v payload ≡ (added ack payload)
      is_added k v e same = ground (arith, find-assign k (ack_key ack) (ack_seq ack) q.pending_seqs)

      extended-queued :
          (k : PendingMessageKey) (v : PendingMessageSeq) (u : ℕ)
          → find k (extended q ack payload).pending_seqs ≡ some v
          → OrderedSet.count before (undeliverable k v u) (extended q ack payload).ordering ≡ true
      extended-queued k v u e = elim (Bool-cases (key_eq (ack_key ack) k)) [
        | inl same ↦
            count_payload k v u payload (extended q ack payload).ordering
            ∙ ap (λ x. OrderedSet.count before x (extended q ack payload).ordering)
                (is_added k v e same)
            ∙ count-insert_self before before_irrefl (added ack payload) q.ordering
        | inr other ↦ count-insert before (undeliverable k v u) (added ack payload) q.ordering (
            inv.queued k v u
              (rw other at (sym (find-assign k (ack_key ack) (ack_seq ack) q.pending_seqs) ∙ e)))
      ]

      pub extended-QueueShape : QueueShape (extended q ack payload)
      extended-QueueShape = record {
        sorted = IsSorted-insert before before_trans (added ack payload) q.ordering inv.sorted;
        distinct = assign-Distinct (ack_key ack) (ack_seq ack) q.pending_seqs inv.distinct;
        recorded = extended-IsRecorded;
        queued = extended-queued;
        waits = HeadWaits-insert (added ack payload) q.ordering refl inv.waits;
      }

pub extended-QueueInv :
    {c : ℕ} {q : HoldBackQueue}
    → QueueInv c q
    → (ack : AckMessage) (payload : ℕ) → find (ack_key ack) q.pending_seqs ≡ none
    → c < ack.proposed_seq
    → QueueInv ack.proposed_seq (extended q ack payload)
extended-QueueInv {q} inv ack payload new above = record {
  shape = extended-QueueShape inv.shape ack payload new;
  bounded =
      All-insert before (λ pm. pm.pms.seq ≤ ack.proposed_seq) (added ack payload) q.ordering
        (omega arith) (All-mono _ _ (λ pm h. omega arith) q.ordering inv.bounded);
}
