-- ===== src/HoldBack/Keys.antt =====
-- Which messages a HoldBackQueue (src/process.cc) holds, through its updates and the delivery loop.
use total_order_multicast.Common.{
  ◌≡◌, refl, sym, ◌∙◌, ◌⊎◌, inl, inr, ◌||◌, true, false, List, [], ◌∷◌, ◌++◌, Bool-cases, arith,
}
use total_order_multicast.Common.OrderedSet
use total_order_multicast.Message.Host.{Host}
use total_order_multicast.Message.{SeqMessage}
use total_order_multicast.HoldBack.{
  PendingMessageKey, PendingMessageSeq, PendingMessage, key_eq, before, seq_key, undeliverable,
  finalized, to_deliver, deliver_ready, reorder,
}
use total_order_multicast.HoldBack.Order.{before_total}
use total_order_multicast.HoldBack.Pending.{key_eq→eq, key_eq_refl}
use total_order_multicast.HoldBack.Loop.{deliver_ready-head, deliver_ready-stop}

abbrev pub Queued : PendingMessageKey → List PendingMessage → Type 0
Queued k [] = ⊥
Queued k (pm ∷ pms) = (pm.pmk ≡ k) ⊎ Queued k pms

abbrev pub Logged : PendingMessageKey → List SeqMessage → Type 0
Logged k [] = ⊥
Logged k (m ∷ ms) = (seq_key m ≡ k) ⊎ Logged k ms

pub Logged-append_left :
    (k : PendingMessageKey) (xs ys : List SeqMessage) → Logged k xs → Logged k (xs ++ ys)
Logged-append_left k [] ys h = absurd h
Logged-append_left k (x ∷ xs) ys (inl e) = inl e
Logged-append_left k (x ∷ xs) ys (inr h) = inr (Logged-append_left k xs ys h)

pub Logged-append_right :
    (k : PendingMessageKey) (xs ys : List SeqMessage) → Logged k ys → Logged k (xs ++ ys)
Logged-append_right k [] ys h = h
Logged-append_right k (x ∷ xs) ys h = inr (Logged-append_right k xs ys h)

-- What the comparator does not separate is one message.
same_key : (x y : PendingMessage) → before x y ≡ false → before y x ≡ false → x.pmk ≡ y.pmk
same_key x y p q = let same = before_total x y p q in cc (same.sender, same.msg_id)

pub Queued-insert :
    (k : PendingMessageKey) (x : PendingMessage) (ys : List PendingMessage)
    → Queued k ys
    → Queued k (OrderedSet.insert before x ys)
unfolding OrderedSet.insert
Queued-insert k x [] h = absurd h
Queued-insert k x (y ∷ ys) h = elim (Bool-cases (before x y)) [
  | inl e ↦ rw e (inr h)
  | inr e ↦ elim (Bool-cases (before y x)) [
    | inl f ↦ rw (e, f) (elim h [ inl g ↦ inl g | inr g ↦ inr (Queued-insert k x ys g) ])
    | inr f ↦ rw (e, f) h
  ]
]

pub Queued-insert_self :
    (x : PendingMessage) (ys : List PendingMessage) → Queued x.pmk (OrderedSet.insert before x ys)
unfolding OrderedSet.insert
Queued-insert_self x [] = inl refl
Queued-insert_self x (y ∷ ys) = elim (Bool-cases (before x y)) [
  | inl e ↦ rw e (inl refl)
  | inr e ↦ elim (Bool-cases (before y x)) [
    | inl f ↦ rw (e, f) (inr (Queued-insert_self x ys))
    | inr f ↦ rw (e, f) (inl (sym (same_key x y e f)))
  ]
]

-- Only a message with the key of `x` is erased.
Queued-erase :
    (k : PendingMessageKey) (x : PendingMessage) (ys : List PendingMessage)
    → key_eq x.pmk k ≡ false
    → Queued k ys
    → Queued k (OrderedSet.erase before x ys)
unfolding OrderedSet.erase
Queued-erase k x [] d h = absurd h
Queued-erase k x (y ∷ ys) d h = elim (Bool-cases (before x y || before y x)) [
  | inl e ↦ rw e (elim h [ inl g ↦ inl g | inr g ↦ inr (Queued-erase k x ys d g) ])
  | inr e ↦ rw e (elim h [
    | inl g ↦
        let same = same_key x y (ground arith) (ground arith) ∙ g in absurd (cc (d, key_eq_refl k))
    | inr g ↦ g
  ])
]

module _ (host : Host) where
  -- The finalized message takes the place of the erased one.
  Queued-reorder :
      (k : PendingMessageKey) (m : SeqMessage) (old : PendingMessageSeq) (pms : List PendingMessage)
      → Queued k pms
      → Queued k (reorder host m old pms)
  unfolding reorder
  Queued-reorder k m old pms h = elim (Bool-cases (key_eq (seq_key m) k)) [
    | inl same ↦ rw (← (key_eq→eq (seq_key m) k same)) (Queued-insert_self (finalized host m) _)
    | inr other ↦
        Queued-insert k (finalized host m) _
          (Queued-erase k (undeliverable (seq_key m) old host.uninit) pms other h)
  ]

  -- The loop delivers a message or leaves it in the queue.
  Queued-deliver_ready :
      (k : PendingMessageKey) (pms : List PendingMessage)
      → Queued k pms
      → Queued k (deliver_ready host pms).rest ⊎ Logged k (deliver_ready host pms).calls
  unfolding to_deliver
  Queued-deliver_ready k [] h = absurd h
  Queued-deliver_ready k (pm ∷ pms) h = elim (Bool-cases pm.deliverable) [
    | inr e ↦ rw (deliver_ready-stop host pm pms e) (inl h)
    | inl e ↦ rw (deliver_ready-head host pm pms e) (elim h [
      | inl g ↦ inr (inl g)
      | inr g ↦ elim (Queued-deliver_ready k pms g) [ inl q ↦ inl q | inr l ↦ inr (inr l) ]
    ])
  ]

  pub Queued-updated :
      (k : PendingMessageKey) (m : SeqMessage) (old : PendingMessageSeq) (pms : List PendingMessage)
      → Queued k pms
      → let d = deliver_ready host (reorder host m old pms) in Queued k d.rest ⊎ Logged k d.calls
  Queued-updated k m old pms h =
      Queued-deliver_ready k (reorder host m old pms) (Queued-reorder k m old pms h)

-- What std::set counts is in the queue.
pub count-Queued :
    (x : PendingMessage) (ys : List PendingMessage)
    → OrderedSet.count before x ys ≡ true
    → Queued x.pmk ys
unfolding OrderedSet.count
count-Queued x [] h = cc
count-Queued x (y ∷ ys) h = elim (Bool-cases (before x y || before y x)) [
  | inl e ↦ inr (count-Queued x ys (ground arith))
  | inr e ↦ inl (sym (same_key x y (ground arith) (ground arith)))
]
