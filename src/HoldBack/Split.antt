-- ===== src/HoldBack/Split.antt =====
-- The delivery loop of HoldBackQueue::SetDeliverable (src/process.cc): how it splits the set.
use total_order_multicast.Common.{
  ◌≡◌, sym, ◌∙◌, subst, ◌↔◌, ◌⊎◌, inl, inr, true, false, List, [], ◌∷◌, All, Bool-cases,
}
use total_order_multicast.Common.OrderedSet
use total_order_multicast.Message.Host.{Host}
use total_order_multicast.Message.{SeqMessage}
use total_order_multicast.HoldBack.{PendingMessage, before, to_deliver, Delivery, deliver_ready}
use total_order_multicast.HoldBack.Order.{SamePlace, SamePlace→not_before, before_asymm}
use total_order_multicast.HoldBack.Loop.{deliver_ready-head, deliver_ready-stop}
use total_order_multicast.HoldBack.Contents.{
  Contains, SamePlace-refl, SamePlace-before, Contains-before,
}

-- The message has been handed to `deliver`.
abbrev pub IsCalled : PendingMessage → List SeqMessage → Type 0
IsCalled x [] = ⊥
IsCalled x (c ∷ cs) =
    ((c.final_seq ≡ x.pms.seq) × (c.sender ≡ x.pmk.sender) × (c.msg_id ≡ x.pmk.msg_id))
    ⊎ IsCalled x cs

-- No message of the set that is not deliverable has to come first.
abbrev pub IsFree : (PendingMessage → Type 0) → PendingMessage → Type 0
IsFree pending x =
    (x.deliverable ≡ true)
    × ((y : PendingMessage) → pending y → y.deliverable ≡ false → before x y ≡ true)

-- A message of the set that is not deliverable comes first.
abbrev pub IsHeldUp : (PendingMessage → Type 0) → PendingMessage → Type 0
IsHeldUp pending x =
    (y : PendingMessage) × pending y × (y.deliverable ≡ false) × (before x y ≡ false)

module _ (host : Host) where
  abbrev Held : List PendingMessage → PendingMessage → Type 0
  Held pms x = Contains x pms

  -- Where the first message is deliverable, the others that are not come behind it.
  IsFree-head :
      (x y : PendingMessage) (pms : List PendingMessage)
      → SamePlace x y
      → y.deliverable ≡ true
      → All (λ z. before y z ≡ true) pms
      → IsFree (Held (y ∷ pms)) x
  IsFree-head x y pms s d first = (
    s.state ∙ d,
    λ z c h. elim c [
      | inl p ↦ let other = p.state in absurd (cc (d, h, other))
      | inr c ↦ SamePlace-before x y z s (Contains-before y z pms first c)
    ],
  )

  IsFree-tail :
      (x y : PendingMessage) (pms : List PendingMessage)
      → y.deliverable ≡ true
      → IsFree (Held pms) x
      → IsFree (Held (y ∷ pms)) x
  IsFree-tail x y pms d (e, free) = (
    e,
    λ z c h. elim c [
      | inl p ↦ let other = p.state in absurd (cc (d, h, other))
      | inr c ↦ free z c h
    ],
  )

  -- The loop hands a message of the set to `deliver`, or leaves it.
  delivers-or_leaves :
      (x : PendingMessage) (pms : List PendingMessage)
      → OrderedSet.IsSorted before pms
      → Contains x pms
      → Contains x (deliver_ready host pms).rest
        ⊎ (IsFree (Held pms) x × IsCalled x (deliver_ready host pms).calls)
  unfolding to_deliver
  delivers-or_leaves x [] s c = absurd c
  delivers-or_leaves x (y ∷ pms) s c = elim (Bool-cases y.deliverable) [
    | inr e ↦ rw (deliver_ready-stop host y pms e) (inl c)
    | inl e ↦ rw (deliver_ready-head host y pms e) (elim c [
      | inl p ↦ inr (IsFree-head x y pms p e s.0, inl (sym p.seq, sym p.sender, sym p.msg_id))
      | inr c ↦ elim (delivers-or_leaves x pms s.1 c) [
        | inl r ↦ inl r
        | inr (free, called) ↦ inr (IsFree-tail x y pms e free, inr called)
      ]
    ])
  ]

  -- Nothing in a sorted set is before its first element.
  head-not_before :
      (x y : PendingMessage) (pms : List PendingMessage)
      → OrderedSet.IsSorted before (y ∷ pms)
      → Contains x (y ∷ pms)
      → before x y ≡ false
  head-not_before x y pms s (inl p) = SamePlace→not_before x y p
  head-not_before x y pms s (inr c) = before_asymm y x (Contains-before y x pms s.0 c)

  leaves-IsHeldUp :
      (x : PendingMessage) (pms : List PendingMessage)
      → OrderedSet.IsSorted before pms
      → Contains x (deliver_ready host pms).rest
      → Contains x pms × IsHeldUp (Held pms) x
  leaves-IsHeldUp x [] s c = absurd (unfold deliver_ready in c)
  leaves-IsHeldUp x (y ∷ pms) s c = elim (Bool-cases y.deliverable) [
    | inl e ↦
        let left : Contains x (deliver_ready host pms).rest =
          subst (λ (d : Delivery). Contains x d.rest) (deliver_ready-head host y pms e) c in
        let (d, (z, h, p, q)) = leaves-IsHeldUp x pms s.1 left in (inr d, (z, inr h, p, q))
    | inr e ↦
        let left : Contains x (y ∷ pms) =
          subst (λ (d : Delivery). Contains x d.rest) (deliver_ready-stop host y pms e) c in
        (left, (y, inl (SamePlace-refl y), e, head-not_before x y pms s left))
  ]

  called-IsFree :
      (x : PendingMessage) (pms : List PendingMessage)
      → OrderedSet.IsSorted before pms
      → x.deliverable ≡ true
      → IsCalled x (deliver_ready host pms).calls
      → Contains x pms × IsFree (Held pms) x
  unfolding to_deliver
  called-IsFree x [] s d c = absurd (unfold deliver_ready in c)
  called-IsFree x (y ∷ pms) s d c = elim (Bool-cases y.deliverable) [
    | inl e ↦
        let now =
          subst (λ (d : Delivery). IsCalled x d.calls) (deliver_ready-head host y pms e) c in
        elim now [
          | inl (a, b, i) ↦
              let place : SamePlace x y = record {
                seq = sym a;
                state = d ∙ sym e;
                sender = sym b;
                msg_id = sym i;
              } in
              (inl place, IsFree-head x y pms place e s.0)
          | inr later ↦
              let (h, free) = called-IsFree x pms s.1 d later in (inr h, IsFree-tail x y pms e free)
        ]
    | inr e ↦
        let none : ⊥ =
          subst (λ (d : Delivery). IsCalled x d.calls) (deliver_ready-stop host y pms e) c in
        absurd none
  ]

  -- The loop splits the set.
  pub loop-splits :
      (x : PendingMessage) (pms : List PendingMessage)
      → OrderedSet.IsSorted before pms
      → let d = deliver_ready host pms in
        (Contains x d.rest ↔ (Contains x pms × IsHeldUp (Held pms) x))
        × (((x.deliverable ≡ true) × IsCalled x d.calls) ↔ (Contains x pms × IsFree (Held pms) x))
  loop-splits x pms s = (
    (
      leaves-IsHeldUp x pms s,
      λ (c, held). elim (delivers-or_leaves x pms s c) [
        | inl left ↦ left
        | inr (free, called) ↦ let (y, h, p, q) = held in let first = free.1 y h p in absurd (cc)
      ],
    ),
    (
      λ (d, c). called-IsFree x pms s d c,
      λ (c, free). elim (delivers-or_leaves x pms s c) [
        | inl left ↦
            let (h, (y, k, p, q)) = leaves-IsHeldUp x pms s left in
            let first = free.1 y k p in absurd (cc)
        | inr (_, called) ↦ (free.0, called)
      ],
    ),
  )
