-- ===== src/HoldBack/Contents.antt =====
-- src/process.cc, class HoldBackQueue: which messages `ordering_` holds, without their order in it.
use total_order_multicast.Common.{
  ◌≡◌, refl, ◌∙◌, ◌↔◌, ◌⊎◌, inl, inr, ◌||◌, true, false, List, [], ◌∷◌, All, Bool-cases, arith,
}
use total_order_multicast.Common.OrderedSet
use total_order_multicast.HoldBack.{PendingMessage, before}
use total_order_multicast.HoldBack.Order.{
  SamePlace, SamePlace-sym, SamePlace→not_before, before_total,
}

-- The set holds the message, with its number and its state.
abbrev pub Contains : PendingMessage → List PendingMessage → Type 0
Contains x [] = ⊥
Contains x (y ∷ ys) = SamePlace x y ⊎ Contains x ys

pub SamePlace-trans : {a b c : PendingMessage} → SamePlace a b → SamePlace b c → SamePlace a c
SamePlace-trans s t = record {
  seq = s.seq ∙ t.seq;
  state = s.state ∙ t.state;
  sender = s.sender ∙ t.sender;
  msg_id = s.msg_id ∙ t.msg_id;
}

pub SamePlace-refl : (a : PendingMessage) → SamePlace a a
SamePlace-refl a = record { seq = refl; state = refl; sender = refl; msg_id = refl }

pub before-SamePlace :
    (x y z : PendingMessage) → SamePlace x z → before y z ≡ true → before y x ≡ true
unfolding before
before-SamePlace x y z s h = ground arith

pub SamePlace-before :
    (x y z : PendingMessage) → SamePlace x y → before y z ≡ true → before x z ≡ true
unfolding before
SamePlace-before x y z s h = ground arith

-- What is before all elements is before what the set holds.
pub Contains-before :
    (y x : PendingMessage) (ys : List PendingMessage)
    → All (λ z. before y z ≡ true) ys
    → Contains x ys
    → before y x ≡ true
Contains-before y x [] h c = absurd c
Contains-before y x (z ∷ ys) h (inl s) = before-SamePlace x y z s h.0
Contains-before y x (z ∷ ys) h (inr c) = Contains-before y x ys h.1 c

-- Elements in one place are not before each other.
pub apart-SamePlace : (x y : PendingMessage) → SamePlace x y → (before x y || before y x) ≡ false
apart-SamePlace x y s = rw (SamePlace→not_before x y s, SamePlace→not_before y x (SamePlace-sym s))

pub Contains-insert :
    (x f : PendingMessage) (ys : List PendingMessage)
    → Contains x (OrderedSet.insert before f ys) ↔ (SamePlace x f ⊎ Contains x ys)
unfolding OrderedSet.insert
Contains-insert x f [] = (λ h. h, λ h. h)
Contains-insert x f (y ∷ ys) = elim (Bool-cases (before f y)) [
  | inl e ↦ rw e (λ h. h, λ h. h)
  | inr e ↦ elim (Bool-cases (before y f)) [
    | inl g ↦
        let (to, from) = Contains-insert x f ys in
        rw (e, g)
          (
            λ h. elim h [
              | inl s ↦ inr (inl s)
              | inr c ↦ elim (to c) [ inl s ↦ inl s | inr d ↦ inr (inr d) ]
            ],
            λ h. elim h [
              | inl s ↦ inr (from (inl s))
              | inr c ↦ elim c [ inl s ↦ inl s | inr d ↦ inr (from (inr d)) ]
            ],
          )
    | inr g ↦
        rw (e, g)
          (
            λ h. inr h,
            λ h. elim h [ inl s ↦ inl (SamePlace-trans s (before_total f y e g)) | inr c ↦ c ],
          )
  ]
]

pub Contains-erase :
    (x e : PendingMessage) (ys : List PendingMessage)
    → OrderedSet.IsSorted before ys
    → Contains x (OrderedSet.erase before e ys) ↔ (Contains x ys × (¬ SamePlace x e))
unfolding OrderedSet.erase
Contains-erase x e [] s = (λ h. absurd h, λ h. h.0)
Contains-erase x e (y ∷ ys) s = elim (Bool-cases (before e y || before y e)) [
  | inl apart ↦
      let (to, from) = Contains-erase x e ys s.1 in
      rw apart (
        λ h. elim h [
          | inl p ↦ (
            inl p,
            λ q. let same = apart-SamePlace e y (SamePlace-trans (SamePlace-sym q) p) in cc,
          )
          | inr c ↦ let (d, q) = to c in (inr d, q)
        ],
        λ (h, q). elim h [ inl p ↦ inl p | inr c ↦ inr (from (c, q)) ],
      )
  | inr same ↦
      let place : SamePlace e y = before_total e y (ground arith) (ground arith) in
      rw same (
        λ c. (
          inr c,
          λ q.
              let later = Contains-before y x ys s.0 c in
              let not = SamePlace→not_before y x (SamePlace-sym (SamePlace-trans q place)) in cc,
        ),
        λ (h, q). elim h [
          | inl p ↦ absurd (q (SamePlace-trans p (SamePlace-sym place)))
          | inr c ↦ c
        ],
      )
]
