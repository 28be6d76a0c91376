-- ===== src/Udp/Mutex/Threads.antt =====
-- src/udp_conn.h and src/udp_conn.cc: the steps of several threads that share one client.
use total_order_multicast.Common.{ℕ, ◌≡◌, List, [], ◌∷◌, ◌++◌, update, ok, throw}
use total_order_multicast.Udp.{Client, Arrival, datagram, failure, unsent, send, send_with_ack}
use total_order_multicast.Udp.Mutex.{
  unlocked, Pc, outside, Returned, ack_call, send_call, Event, sent, received, Shared, summary,
  replay, Move,
}

-- The client and where each thread stands.
pub record System (S : Type 0) : Type 0 where
  pub shared : Shared S
  pub pc : ℕ → Pc S

pub data Step {S : Type 0} (client : Client) (s : System S) : System S → Type 0 where
  pick :
      (t : ℕ) {m : Shared S} {p : Pc S}
      → Move client t s.shared (s.pc t) m p
      → Step client s (record { shared = m; pc = update s.pc t p })

abbrev pub fresh : {S : Type 0} → System S
fresh = record {
  shared = record { mutex = unlocked; socket = []; returned = [] };
  pc = λ _. outside;
}

pub data Reach {S : Type 0} (client : Client) : System S → Type 0 where
  begin : Reach client fresh
  later : {s t : System S} → Reach client s → Step client s t → Reach client t

-- The uses of the socket in a call, the last first: each time round, sendto and then recvfrom,
-- or neither where sendto failed.
abbrev pub rounds : ℕ → List ℕ → List Arrival → List (ℕ × Event)
rounds t buf [] = []
rounds t buf (unsent ∷ seen) = rounds t buf seen
rounds t buf (datagram bytes ∷ seen) =
    (t, received (datagram bytes)) ∷ (t, sent buf) ∷ rounds t buf seen
rounds t buf (failure late ∷ seen) =
    (t, received (failure late)) ∷ (t, sent buf) ∷ rounds t buf seen

-- Those of calls that are over, one call after the other.
abbrev pub past : {S : Type 0} → List (Returned S) → List (ℕ × Event)
past [] = []
past (ack_call t call seen result ∷ rest) = rounds t call.buf seen ++ past rest
past (send_call t buf (ok bytes) ∷ rest) = (t, sent buf) ∷ past rest
past (send_call t buf (throw x) ∷ rest) = past rest

-- The result is the one of SendWithAck on its own with the arrivals that the call has seen, or of Send
-- on its own.
abbrev pub AsAlone : {S : Type 0} → Client → Returned S → Type 0
AsAlone client (ack_call t call seen result) =
    summary (send_with_ack client call.buf call.valid_ack call.attempts call.state (replay seen []))
    ≡ result
AsAlone client (send_call t buf result) = send client buf ≡ result
