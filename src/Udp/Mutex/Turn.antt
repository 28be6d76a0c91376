-- ===== src/Udp/Mutex/Turn.antt =====
-- src/udp_conn.h and src/udp_conn.cc: the one thread that has its turn with a client.
use total_order_multicast.Common.{ℕ, ◌≡◌, refl, inl, inr, some, ◌==◌, ==_iff, Bool-cases, All}
use total_order_multicast.Udp.{Client}
use total_order_multicast.Udp.Mutex.{
  Mutex, locked, lock, Pc, outside, looping, sending, receiving, Shared, Move, enter, give_up,
  start, transmit, refuse, refuse_now, time_out, fail, accept, ignore, sending_alone, enter_send,
  transmit_alone, refuse_alone, goes_on,
}
use total_order_multicast.Udp.Mutex.Threads.{System, Step, pick, Reach, begin, later, AsAlone}
use total_order_multicast.Udp.Mutex.Lock.{lock-other, ==-refl, apart, lock-owner}
use total_order_multicast.Udp.Mutex.Holds.{Holds, Move-After}

module _ {S : Type 0} (client : Client) where
  -- All threads but one are in no call, and the calls that are over ended as on their own.
  abbrev pub Inv : System S → Type 0
  Inv s =
      ((t : ℕ) × Holds client t s.shared (s.pc t) × ((j : ℕ) → ¬ (j ≡ t) → s.pc j ≡ outside))
      × All (AsAlone client) s.shared.returned

  -- Only a thread that waits for nobody enters.
  entering :
      (i : ℕ) (m : Shared S) {p : Pc S} {m' : Shared S} {p' : Pc S}
      → Move client i m p m' p'
      → p ≡ outside
      → (x : Mutex) × (lock i m.mutex ≡ some x)
  entering i m (enter c x l) e = (x, l)
  entering i m (give_up f q) e = cc
  entering i m (start f x q l) e = cc
  entering i m (transmit f q) e = cc
  entering i m (refuse f q) e = cc
  entering i m (refuse_now f) e = cc
  entering i m (time_out f) e = cc
  entering i m (fail f) e = cc
  entering i m (accept f bytes s q) e = cc
  entering i m (ignore f bytes s q) e = cc
  entering i m (enter_send buf x l) e = (x, l)
  entering i m (transmit_alone buf q) e = cc
  entering i m (refuse_alone buf q) e = cc

  -- A thread that can lock the mutex finds the one that had the turn outside.
  turn-passes :
      (i t : ℕ) (m : Shared S) (q : Pc S)
      → ¬ (i ≡ t)
      → Holds client t m q
      → (x : Mutex) → lock i m.mutex ≡ some x
      → (q ≡ outside) × Holds client i m outside
  turn-passes i t m outside h holds x l = (refl, holds)
  turn-passes i t m (looping f) h holds x l = absurd (lock-other i t 1 m.mutex x holds.0 h l)
  turn-passes i t m (sending f) h holds x l = absurd (lock-other i t 2 m.mutex x holds.0 h l)
  turn-passes i t m (receiving f) h holds x l = absurd (lock-other i t 1 m.mutex x holds.0 h l)
  turn-passes i t m (sending_alone b) h holds x l = absurd (lock-other i t 1 m.mutex x holds.0 h l)

  -- The thread that moves has the turn, before and after.
  has_turn :
      (i : ℕ) (s : System S) {m : Shared S} {p : Pc S}
      → Move client i s.shared (s.pc i) m p
      → Inv s
      → Holds client i s.shared (s.pc i) × ((j : ℕ) → ¬ (j ≡ i) → s.pc j ≡ outside)
  has_turn i s move ((t, holds, others), done) = elim (Bool-cases (i == t)) [
    | inl e ↦ let same : i ≡ t = (==_iff i t).0 e in rw same (holds, others)
    | inr e ↦
        let other : ¬ (i ≡ t) = apart i t e in
        let (x, l) = entering i s.shared move (others i other) in
        let (gone, free) = turn-passes i t s.shared (s.pc t) other holds x l in
        (
          rw (others i other) free,
          λ j h. elim (Bool-cases (j == t)) [
            | inl q ↦ rw ((==_iff j t).0 q) gone
            | inr q ↦ others j (apart j t q)
          ],
        )
  ]

  Step-Inv : {s u : System S} → Step client s u → Inv s → Inv u
  Step-Inv {s} (pick i {m} {p} move) inv =
      let (holds, others) = has_turn i s move inv in
      let (after, done) = Move-After client i s.shared move holds inv.1 in
      (
        (
          i,
          rw (==-refl i) after,
          λ j h. elim (Bool-cases (j == i)) [
            | inl q ↦ absurd (h ((==_iff j i).0 q))
            | inr q ↦ rw q (others j h)
          ],
        ),
        done,
      )

  pub Reach-Inv : {s : System S} → Reach client s → Inv s
  Reach-Inv begin = ((0, (refl, refl), λ j h. refl), tt)
  Reach-Inv (later r step) = Step-Inv step (Reach-Inv r)

  pub can_move :
      (t : ℕ) (m : Shared S) (p : Pc S)
      → ¬ (p ≡ outside)
      → Holds client t m p
      → (m' : Shared S) × (p' : Pc S) × Move client t m p m' p'
  can_move t m outside h holds = absurd (h refl)
  can_move t m (looping f) h (held, log, on) = elim (Bool-cases (goes_on f)) [
    | inl e ↦ (_, _, start f (locked t 2) e (rw held (lock-owner t 1)))
    | inr e ↦ (_, _, give_up f e)
  ]
  can_move t m (sending f) h holds = elim (Bool-cases (client.sendto f.call.buf)) [
    | inl e ↦ (_, _, transmit f e)
    | inr e ↦ (_, _, refuse f e)
  ]
  can_move t m (receiving f) h holds = (_, _, time_out f)
  can_move t m (sending_alone buf) h holds = elim (Bool-cases (client.sendto buf)) [
    | inl e ↦ (_, _, transmit_alone buf e)
    | inr e ↦ (_, _, refuse_alone buf e)
  ]
