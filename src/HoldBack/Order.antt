-- ===== src/HoldBack/Order.antt =====
-- src/process.cc, operator< on PendingMessage: its laws as a comparator of std::set.
use total_order_multicast.Common.{
  ◌<◌, ◌≡◌, refl, ◌⊎◌, inl, inr, Bool, true, false, not, ◌&&◌, arith,
}
use total_order_multicast.HoldBack.{PendingMessage, before}

-- The order read off the four keys.
abbrev pub Precedes : PendingMessage → PendingMessage → Type 0
Precedes a b =
    (a.pms.seq < b.pms.seq)
    ⊎ ((a.pms.seq ≡ b.pms.seq) × (a.deliverable ≡ false) × (b.deliverable ≡ true))
    ⊎ ((a.pms.seq ≡ b.pms.seq) × (a.deliverable ≡ b.deliverable) × (a.pmk.sender < b.pmk.sender))
    ⊎ ((a.pms.seq ≡ b.pms.seq)
        × (a.deliverable ≡ b.deliverable)
        × (a.pmk.sender ≡ b.pmk.sender)
        × (a.pmk.msg_id < b.pmk.msg_id))

pub before→Precedes : (a b : PendingMessage) → before a b ≡ true → Precedes a b
unfolding before
before→Precedes a b h = ground arith

pub Precedes→before : (a b : PendingMessage) → Precedes a b → before a b ≡ true
unfolding before
Precedes→before a b h = ground arith

pub before_irrefl : (a : PendingMessage) → before a a ≡ false
unfolding before
before_irrefl a = ground arith

pub before_trans :
    (a b c : PendingMessage) → before a b ≡ true → before b c ≡ true → before a c ≡ true
before_trans a b c h k =
    Precedes→before a c (ground (arith, before→Precedes a b h, before→Precedes b c k))

pub before_asymm : (a b : PendingMessage) → before a b ≡ true → before b a ≡ false
unfolding before
before_asymm a b h = ground arith

-- What the comparator does not separate has the same sequence number, state and key.
pub record SamePlace (a b : PendingMessage) : Type 0 where
  pub seq : a.pms.seq ≡ b.pms.seq
  pub state : a.deliverable ≡ b.deliverable
  pub sender : a.pmk.sender ≡ b.pmk.sender
  pub msg_id : a.pmk.msg_id ≡ b.pmk.msg_id

pub before_total : (a b : PendingMessage) → before a b ≡ false → before b a ≡ false → SamePlace a b
unfolding before
before_total a b h k = ground arith

pub SamePlace→not_before : (a b : PendingMessage) → SamePlace a b → before a b ≡ false
unfolding before
SamePlace→not_before a b s = ground arith

pub SamePlace-sym : {a b : PendingMessage} → SamePlace a b → SamePlace b a
SamePlace-sym s = ground arith

-- operator< is what std::set asks of a comparator, and total on what identifies a message in the
-- queue: no message is before itself, no two are before each other, what is before a message that is
-- before another is before that one, and of two messages one is before the other or they have the
-- same number, state, sender and id.
pub before_strict_total :
    (a b c : PendingMessage)
    → (before a a ≡ false)
      × ((before a b && before b a) ≡ false)
      × ((before a b && before b c && not (before a c)) ≡ false)
      × ((before a b ≡ true) ⊎ (before b a ≡ true) ⊎ SamePlace a b)
before_strict_total a b c = (
  before_irrefl a,
  ground (arith, before_asymm a b),
  ground (arith, before_trans a b c),
  trichotomy (before a b) (before b a) refl refl,
)
  where
    trichotomy :
        (x y : Bool)
        → before a b ≡ x
        → before b a ≡ y
        → (before a b ≡ true) ⊎ (before b a ≡ true) ⊎ SamePlace a b
    trichotomy true y e f = inl e
    trichotomy false true e f = inr (inl f)
    trichotomy false false e f = inr (inr (before_total a b e f))
