-- ===== src/HoldBack/Loop.antt =====
-- The delivery loop of HoldBackQueue::SetDeliverable (src/process.cc): its calls and what it leaves.
use total_order_multicast.Common.{
  ◌<◌, ◌≡◌, refl, ◌⊎◌, inl, inr, true, false, List, [], ◌∷◌, ◌++◌, map, All, All-mono, All-append,
  Bool-cases, arith,
}
use total_order_multicast.Common.OrderedSet
use total_order_multicast.Message.Host.{Host}
use total_order_multicast.Message.{SeqMessage}
use total_order_multicast.HoldBack.{PendingMessage, before, to_deliver, deliver_ready}
use total_order_multicast.HoldBack.Order.{before→Precedes}

-- The agreed order of final messages: by sequence number, then sender, then message id.
abbrev pub Earlier : SeqMessage → SeqMessage → Type 0
Earlier a b =
    (a.final_seq < b.final_seq)
    ⊎ ((a.final_seq ≡ b.final_seq) × (a.sender < b.sender))
    ⊎ ((a.final_seq ≡ b.final_seq) × (a.sender ≡ b.sender) × (a.msg_id < b.msg_id))

-- Each message is earlier than all that follow it.
abbrev pub IsIncreasing : List SeqMessage → Type 0
IsIncreasing [] = Unit
IsIncreasing (m ∷ ms) = All (Earlier m) ms × IsIncreasing ms

pub IsIncreasing-append :
    (xs ys : List SeqMessage)
    → IsIncreasing xs
    → IsIncreasing ys
    → All (λ x. All (Earlier x) ys) xs
    → IsIncreasing (xs ++ ys)
IsIncreasing-append [] ys hx hy h = hy
IsIncreasing-append (x ∷ xs) ys hx hy h =
    (All-append (Earlier x) xs ys hx.0 h.0, IsIncreasing-append xs ys hx.1 hy h.1)

-- A queued message will be delivered after `d`: an undeliverable one has a larger number, which can
-- only grow; a deliverable one is in its final place.
abbrev pub Follows : SeqMessage → PendingMessage → Type 0
Follows d pm =
    (d.final_seq < pm.pms.seq)
    ⊎ ((pm.deliverable ≡ true) × (d.final_seq ≡ pm.pms.seq) × (d.sender < pm.pmk.sender))
    ⊎ ((pm.deliverable ≡ true)
        × (d.final_seq ≡ pm.pms.seq)
        × (d.sender ≡ pm.pmk.sender)
        × (d.msg_id < pm.pmk.msg_id))

-- The head waits for its SeqMessage, or there is none.
abbrev pub HeadWaits : List PendingMessage → Type 0
HeadWaits [] = Unit
HeadWaits (pm ∷ pms) = pm.deliverable ≡ false

-- The deliverable messages in front.
abbrev pub ready : List PendingMessage → List PendingMessage
ready [] = []
ready (pm ∷ pms) = elim pm.deliverable [ true ↦ pm ∷ ready pms | false ↦ [] ]

module _ (host : Host) where
  pub deliver_ready-head :
      (pm : PendingMessage) (pms : List PendingMessage)
      → pm.deliverable ≡ true
      → deliver_ready host (pm ∷ pms) ≡ record {
        rest = (deliver_ready host pms).rest;
        calls = to_deliver host pm ∷ (deliver_ready host pms).calls;
      }
  unfolding deliver_ready
  deliver_ready-head pm pms e = ground arith

  pub deliver_ready-stop :
      (pm : PendingMessage) (pms : List PendingMessage)
      → pm.deliverable ≡ false
      → deliver_ready host (pm ∷ pms) ≡ record { rest = pm ∷ pms; calls = [] }
  unfolding deliver_ready
  deliver_ready-stop pm pms e = ground arith

  pub deliver_ready-All :
      (P : PendingMessage → Type 0) (pms : List PendingMessage)
      → All P pms
      → All P (deliver_ready host pms).rest
  unfolding deliver_ready
  deliver_ready-All P [] h = tt
  deliver_ready-All P (pm ∷ pms) h = ground (arith, deliver_ready-All P pms h.1)

  pub deliver_ready-IsSorted :
      (pms : List PendingMessage)
      → OrderedSet.IsSorted before pms
      → OrderedSet.IsSorted before (deliver_ready host pms).rest
  unfolding deliver_ready
  deliver_ready-IsSorted [] s = tt
  deliver_ready-IsSorted (pm ∷ pms) s = ground (arith, deliver_ready-IsSorted pms s.1)

  pub deliver_ready-HeadWaits :
      (pms : List PendingMessage) → HeadWaits (deliver_ready host pms).rest
  unfolding deliver_ready
  deliver_ready-HeadWaits [] = tt
  deliver_ready-HeadWaits (pm ∷ pms) = ground (arith, deliver_ready-HeadWaits pms)

  pub deliver_ready-split :
      (pms : List PendingMessage)
      → (pms ≡ ready pms ++ (deliver_ready host pms).rest)
        × ((deliver_ready host pms).calls ≡ map (to_deliver host) (ready pms))
  unfolding deliver_ready
  deliver_ready-split [] = (refl, refl)
  deliver_ready-split (pm ∷ pms) = ground (arith, deliver_ready-split pms)

  -- Only deliverable messages are delivered.
  pub calls-All :
      (P : PendingMessage → Type 0) (Q : SeqMessage → Type 0) (pms : List PendingMessage)
      → ((pm : PendingMessage) → P pm → pm.deliverable ≡ true → Q (to_deliver host pm))
      → All P pms
      → All Q (deliver_ready host pms).calls
  unfolding deliver_ready
  calls-All P Q [] f h = tt
  calls-All P Q (pm ∷ pms) f h = ground (arith, f pm h.0, calls-All P Q pms f h.1)

  -- What precedes an element in the set is delivered before it.
  Precedes-Follows :
      (a b : PendingMessage)
      → before a b ≡ true
      → a.deliverable ≡ true
      → Follows (to_deliver host a) b
  unfolding to_deliver
  Precedes-Follows a b h d = ground (arith, before→Precedes a b h)

  Follows-Earlier :
      (d : SeqMessage) (pm : PendingMessage) → Follows d pm → Earlier d (to_deliver host pm)
  unfolding to_deliver
  Follows-Earlier d pm h = ground arith

  -- The calls come after whatever all queued messages come after.
  pub calls-Earlier :
      (d : SeqMessage) (pms : List PendingMessage)
      → All (Follows d) pms
      → All (Earlier d) (deliver_ready host pms).calls
  unfolding deliver_ready
  calls-Earlier d [] h = tt
  calls-Earlier d (pm ∷ pms) h = ground (arith, Follows-Earlier d pm h.0, calls-Earlier d pms h.1)

  head-Follows :
      (pm : PendingMessage) (pms : List PendingMessage)
      → OrderedSet.IsSorted before (pm ∷ pms)
      → pm.deliverable ≡ true
      → All (Follows (to_deliver host pm)) pms
  head-Follows pm pms s d = All-mono _ _ (λ b h. Precedes-Follows pm b h d) pms s.0

  -- The calls are made in increasing order, and what stays in the queue follows each of them.
  pub calls-IsIncreasing :
      (pms : List PendingMessage)
      → OrderedSet.IsSorted before pms
      → IsIncreasing (deliver_ready host pms).calls
  unfolding deliver_ready
  calls-IsIncreasing [] s = tt
  calls-IsIncreasing (pm ∷ pms) s = ground (
    arith,
    head-Follows pm pms s,
    calls-Earlier (to_deliver host pm) pms,
    calls-IsIncreasing pms s.1,
  )

  pub rest-Follows :
      (pms : List PendingMessage)
      → OrderedSet.IsSorted before pms
      → All (λ d. All (Follows d) (deliver_ready host pms).rest) (deliver_ready host pms).calls
  rest-Follows [] s = unfold deliver_ready in tt
  rest-Follows (pm ∷ pms) s = elim (Bool-cases pm.deliverable) [
    | inl e ↦ rw (deliver_ready-head pm pms e) (
      deliver_ready-All (Follows (to_deliver host pm)) pms (head-Follows pm pms s e),
      rest-Follows pms s.1,
    )
    | inr e ↦ rw (deliver_ready-stop pm pms e) tt
  ]
