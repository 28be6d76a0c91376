-- ===== src/Udp/Mutex/Serial.antt =====
-- src/udp_conn.h and src/udp_conn.cc: what the mutex of a client makes of the calls that share it.
use total_order_multicast.Common.{ℕ, ◌≡◌, inl, inr, ◌==◌, ==_iff, Bool-cases, All}
use total_order_multicast.Udp.{Client}
use total_order_multicast.Udp.Mutex.{
  Pc, outside, looping, sending, receiving, sending_alone, Shared, Move,
}
use total_order_multicast.Udp.Mutex.Threads.{System, Reach, past, AsAlone}
use total_order_multicast.Udp.Mutex.Lock.{apart}
use total_order_multicast.Udp.Mutex.Holds.{Holds}
use total_order_multicast.Udp.Mutex.Turn.{Reach-Inv, can_move}

module _ {S : Type 0} (client : Client) where
  -- A thread that is in no other's way has the turn.
  is_turn : (t i : ℕ) (p : Pc S) → (¬ (i ≡ t) → p ≡ outside) → ¬ (p ≡ outside) → i ≡ t
  is_turn t i p free inside = elim (Bool-cases (i == t)) [
    | inl e ↦ (==_iff i t).0 e
    | inr e ↦ absurd (inside (free (apart i t e)))
  ]

  used_once :
      (t : ℕ) (m : Shared S) (q : Pc S)
      → Holds client t m q
      → q ≡ outside
      → m.socket ≡ past m.returned
  used_once t m outside (free, log) e = log
  used_once t m (looping f) holds e = cc
  used_once t m (sending f) holds e = cc
  used_once t m (receiving f) holds e = cc
  used_once t m (sending_alone buf) holds e = cc

  -- Threads that share a client do not disturb each other: in every reachable state, a call of
  -- SendWithAck that is over has ended, by return or exception, with the state of its callback, as
  -- SendWithAck on its own ends with the arrivals that the call has received, and a call of Send as
  -- Send on its own; and while no thread is in a call, the socket has been used for these calls one
  -- after the other, by SendWithAck for a sendto and then a recvfrom each time round, and by Send for
  -- a sendto; a sendto that fails does not count.
  pub returned-AsAlone :
      {s : System S}
      → Reach client s
      → All (AsAlone client) s.shared.returned
        × (((t : ℕ) → s.pc t ≡ outside) → s.shared.socket ≡ past s.shared.returned)
  returned-AsAlone {s} r =
      let ((t, holds, others), done) = Reach-Inv client r in
      (done, λ quiet. used_once t s.shared (s.pc t) holds (quiet t))

  -- Mutual exclusion without a deadlock: in every reachable state, two threads that are in a call are
  -- the same thread, and this thread has a move, where recvfrom returns and where Send locks the mutex
  -- again.
  pub caller_moves :
      {s : System S}
      → Reach client s
      → (i j : ℕ) → ¬ (s.pc i ≡ outside)
      → ¬ (s.pc j ≡ outside)
      → (i ≡ j) × ((m : Shared S) × (p : Pc S) × Move client i s.shared (s.pc i) m p)
  caller_moves {s} r i j at_i at_j =
      let ((t, holds, others), done) = Reach-Inv client r in
      let same_i : i ≡ t = is_turn t i (s.pc i) (others i) at_i in
      let same_j : j ≡ t = is_turn t j (s.pc j) (others j) at_j in
      (cc, can_move client i s.shared (s.pc i) at_i (rw same_i holds))
