-- ===== src/HoldBack/Refinement.antt =====
-- HoldBackQueue::SetDeliverable (src/process.cc) as an operation on the set of pending messages.
use total_order_multicast.Common.{◌≡◌, ◌↔◌, ◌⊎◌, inl, inr, true, some}
use total_order_multicast.Common.OrderedSet
use total_order_multicast.Common.OrderedSet.Laws.{IsSorted-insert, IsSorted-erase}
use total_order_multicast.Message.Host.{Host}
use total_order_multicast.Message.{SeqMessage}
use total_order_multicast.HoldBack.{
  PendingMessageSeq, PendingMessage, HoldBackQueue, before, find, seq_key, undeliverable, finalized,
  deliver_ready, reorder, set_deliverable,
}
use total_order_multicast.HoldBack.Order.{SamePlace, before_trans}
use total_order_multicast.HoldBack.Invariant.{QueueShape}
use total_order_multicast.HoldBack.Contents.{Contains, Contains-insert, Contains-erase}
use total_order_multicast.HoldBack.Split.{IsCalled, IsFree, IsHeldUp, loop-splits}

IsFree-mono :
    (P Q : PendingMessage → Type 0)
    → ((y : PendingMessage) → Q y → P y)
    → (x : PendingMessage) → IsFree P x
    → IsFree Q x
IsFree-mono P Q f x (e, free) = (e, λ y h d. free y (f y h) d)

IsHeldUp-mono :
    (P Q : PendingMessage → Type 0)
    → ((y : PendingMessage) → P y → Q y)
    → (x : PendingMessage) → IsHeldUp P x
    → IsHeldUp Q x
IsHeldUp-mono P Q f x (y, h, d, e) = (y, f y h, d, e)

module _ (host : Host) (m : SeqMessage) (q : HoldBackQueue) (old : PendingMessageSeq) where
  -- The set with the message moved to its final number, and now deliverable.
  abbrev pub Finalized : PendingMessage → Type 0
  Finalized x =
      SamePlace x (finalized host m)
      ⊎ (Contains x q.ordering × (¬ SamePlace x (undeliverable (seq_key m) old host.uninit)))

  module _ (shape : QueueShape q) where
    abbrev erased : PendingMessage
    erased = undeliverable (seq_key m) old host.uninit

    reorder-Finalized :
        (x : PendingMessage) → Contains x (reorder host m old q.ordering) ↔ Finalized x
    unfolding reorder
    reorder-Finalized x =
        let (to, from) =
          Contains-insert x (finalized host m) (OrderedSet.erase before erased q.ordering) in
        let (out, back) = Contains-erase x erased q.ordering shape.sorted in
        (
          λ c. elim (to c) [ inl p ↦ inl p | inr d ↦ inr (out d) ],
          λ c. elim c [ inl p ↦ from (inl p) | inr d ↦ from (inr (back d)) ],
        )

    reorder-IsSorted : OrderedSet.IsSorted before (reorder host m old q.ordering)
    unfolding reorder
    reorder-IsSorted =
        IsSorted-insert before before_trans (finalized host m) _
          (IsSorted-erase before before_trans erased q.ordering shape.sorted)

    loop-Finalized :
        (x : PendingMessage)
        → let d = deliver_ready host (reorder host m old q.ordering) in
          (Contains x d.rest ↔ (Finalized x × IsHeldUp Finalized x))
          × (((x.deliverable ≡ true) × IsCalled x d.calls) ↔ (Finalized x × IsFree Finalized x))
    loop-Finalized x =
        let ((left, leave), (called, call)) =
          loop-splits host x (reorder host m old q.ordering) reorder-IsSorted in
        let to = λ (y : PendingMessage). (reorder-Finalized y).0 in
        let from = λ (y : PendingMessage). (reorder-Finalized y).1 in
        (
          (
            λ c. let (a, b) = left c in (to x a, IsHeldUp-mono _ _ to x b),
            λ (a, b). leave (from x a, IsHeldUp-mono _ _ from x b),
          ),
          (
            λ c. let (a, b) = called c in (to x a, IsFree-mono _ _ from x b),
            λ (a, b). call (from x a, IsFree-mono _ _ to x b),
          ),
        )

    -- SetDeliverable as an operation on the set of pending messages, whatever their order in memory: a
    -- pending message gets its final number and becomes deliverable; of the set that this gives,
    -- exactly the messages are handed to `deliver` that are deliverable and come before every message
    -- that is not, and exactly the others, which a message that is not deliverable comes before or
    -- is, stay in the queue.
    -- Conditions: the queue is well formed, and the message is pending with the number `old`.
    pub set_deliverable-Finalized :
        find (seq_key m) q.pending_seqs ≡ some old
        → (x : PendingMessage)
        → let u = set_deliverable host q m in
          (Contains x u.queue.ordering ↔ (Finalized x × IsHeldUp Finalized x))
          × (((x.deliverable ≡ true) × IsCalled x u.calls) ↔ (Finalized x × IsFree Finalized x))
    unfolding set_deliverable before
    set_deliverable-Finalized here x = rw (Contains, IsCalled, here) (loop-Finalized x)
