-- ===== src/HoldBack/Invariant.antt =====
-- What holds of a HoldBackQueue between two calls. `c` is the sequence counter of the process that
-- owns the queue.
use total_order_multicast.Common.{
  ℕ, ◌≤◌, ◌≡◌, refl, sym, inl, inr, ◌||◌, true, false, none, some, Bool-cases, List, [], ◌∷◌, All,
  arith,
}
use total_order_multicast.Common.OrderedSet
use total_order_multicast.Common.OrderedSet.Laws.{count-All}
use total_order_multicast.HoldBack.{
  PendingMessageKey, PendingMessageSeq, PendingMessage, PendingSeq, HoldBackQueue, key_eq, before,
  find, undeliverable,
}
use total_order_multicast.HoldBack.Order.{before_total}
use total_order_multicast.HoldBack.Pending.{Distinct}
use total_order_multicast.HoldBack.Loop.{HeadWaits}

-- An undeliverable element is recorded in `pending_seqs_`, with the number that it is ordered by.
abbrev pub IsRecorded : List PendingSeq → PendingMessage → Type 0
IsRecorded ps pm = pm.deliverable ≡ false → find pm.pmk ps ≡ some pm.pms

-- What the two parts of a queue have to do with each other.
pub record QueueShape (q : HoldBackQueue) : Type 0 where
  pub sorted : OrderedSet.IsSorted before q.ordering
  pub distinct : Distinct q.pending_seqs
  pub recorded : All (IsRecorded q.pending_seqs) q.ordering
  pub queued :
      (k : PendingMessageKey) (v : PendingMessageSeq) (payload : ℕ)
      → find k q.pending_seqs ≡ some v
      → OrderedSet.count before (undeliverable k v payload) q.ordering ≡ true
  pub waits : HeadWaits q.ordering

-- No number in the queue is above the counter.
pub record QueueInv (c : ℕ) (q : HoldBackQueue) : Type 0 where
  pub shape : QueueShape q
  pub bounded : All (λ pm. pm.pms.seq ≤ c) q.ordering

-- What is not recorded is not in the set either.
pub count_unrecorded :
    (k : PendingMessageKey) (v : PendingMessageSeq) (payload : ℕ) (ps : List PendingSeq)
    (pms : List PendingMessage)
    → find k ps ≡ none
    → All (IsRecorded ps) pms
    → OrderedSet.count before (undeliverable k v payload) pms ≡ false
count_unrecorded k v payload ps pms new recorded =
    elim (Bool-cases (OrderedSet.count before (undeliverable k v payload) pms)) [
      | inr e ↦ e
      | inl e ↦
          let (pm, a, b, known) =
            count-All before (IsRecorded ps) (undeliverable k v payload) pms e recorded in
          let same = before_total (undeliverable k v payload) pm a b in
          let key : k ≡ pm.pmk = cc (same.sender, same.msg_id) in
          cc (new, key, known (sym same.state))
    ]

pub HeadWaits-insert :
    (pm : PendingMessage) (pms : List PendingMessage)
    → pm.deliverable ≡ false
    → HeadWaits pms
    → HeadWaits (OrderedSet.insert before pm pms)
unfolding OrderedSet.insert
HeadWaits-insert pm [] h w = h
HeadWaits-insert pm (x ∷ pms) h w = ground arith

-- The payload plays no part in the order.
pub count_payload :
    (k : PendingMessageKey) (v : PendingMessageSeq) (a b : ℕ) (pms : List PendingMessage)
    → OrderedSet.count before (undeliverable k v a) pms
      ≡ OrderedSet.count before (undeliverable k v b) pms
unfolding OrderedSet.count before
count_payload k v a b [] = refl
count_payload k v a b (x ∷ pms) = rw (count_payload k v a b pms)

-- Elements in different states, or under different keys, are apart.
pub apart_state :
    (x y : PendingMessage)
    → x.deliverable ≡ false
    → y.deliverable ≡ true
    → (before x y || before y x) ≡ true
unfolding before
apart_state x y h k = ground arith

pub apart_key :
    (x y z : PendingMessage)
    → key_eq x.pmk y.pmk ≡ false
    → before y z ≡ false
    → before z y ≡ false
    → (before x z || before z x) ≡ true
unfolding before
apart_key x y z h p q = ground (arith, before_total y z p q)

pub before_same :
    (x y z : PendingMessage)
    → before x y ≡ false
    → before y x ≡ false
    → before y z ≡ true
    → before x z ≡ true
unfolding before
before_same x y z p q h = ground (arith, before_total x y p q)
