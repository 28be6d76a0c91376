-- ===== src/Udp/Mutex.antt =====
-- src/udp_conn.cc, Client::SendWithAck and Client::Send: several threads that share one client, which
-- guard its socket with the recursive mutex sockfd_mutex_ of src/udp_conn.h.
pub mod Loop
pub mod Lock
pub mod Threads
pub mod Holds
pub mod Turn
pub mod Serial
use total_order_multicast.Common.{
  ℕ, suc, ◌+◌, ◌≡◌, Bool, true, false, ◌||◌, List, [], ◌∷◌, ◌++◌, Option, none, some, ltb, ◌==◌,
  update, if◌then◌else◌, Result, ok, throw, Exception,
}
use total_order_multicast.Udp.{
  ServerAction, Client, Arrival, datagram, failure, unsent, Finish, acked, exhausted, SendLog,
  next_backoff, decrement, unlimited_attempts, send, send_with_ack,
}
use total_order_multicast.Udp.Reliable.{answer}

-- std::recursive_mutex: the thread that owns it, and how often it has locked it.
pub data Mutex : Type 0 where
  unlocked : Mutex
  locked : ℕ → ℕ → Mutex

-- What `lock` of a thread makes of it; none while the thread waits.
unfoldable pub lock : ℕ → Mutex → Option Mutex
lock t unlocked = some (locked t 1)
lock t (locked owner depth) = if owner == t then some (locked owner (depth + 1)) else none

unfoldable pub unlock : Mutex → Mutex
unlock unlocked = unlocked
unlock (locked owner (suc (suc depth))) = locked owner (suc depth)
unlock (locked owner depth) = unlocked

module _ (S : Type 0) where
  -- The arguments of a call of SendWithAck; the callback comes with the state that it captures.
  pub record Call : Type 0 where
    pub buf : List ℕ
    pub attempts : ℕ
    pub valid_ack : S → List ℕ → ℕ → S × ServerAction
    pub state : S

  -- The local variables of SendWithAck, with what recvfrom has returned to it, the last first.
  pub record Frame : Type 0 where
    pub call : Call
    pub attempts : ℕ
    pub mult : ℕ
    pub state : S
    pub seen : List Arrival

  -- Where a thread stands: in no call; in SendWithAck at the condition of the loop, in its call of
  -- Send, with the guard of that, or at recvfrom; in a call of Send alone.
  pub data Pc : Type 0 where
    outside : Pc
    looping sending receiving : Frame → Pc
    sending_alone : List ℕ → Pc

  -- A call of SendWithAck or of Send that has returned or thrown: the thread, the arguments, what
  -- recvfrom has returned, and the result.
  pub data Returned : Type 0 where
    ack_call : ℕ → Call → List Arrival → Result (S × Finish) → Returned
    send_call : ℕ → List ℕ → Result (List ℕ) → Returned

-- What a thread does with the socket.
pub data Event : Type 0 where
  sent : List ℕ → Event
  received : Arrival → Event

-- The client: its mutex, and, the last first, the uses of its socket and the calls that are over.
pub record Shared (S : Type 0) : Type 0 where
  pub mutex : Mutex
  pub socket : List (ℕ × Event)
  pub returned : List (Returned S)

-- The state of the callback and the end of the loop, without the counts.
abbrev pub summary : {S : Type 0} → Result (SendLog S) → Result (S × Finish)
summary (ok log) = ok (log.state, log.finish)
summary (throw x) = throw x

-- Arrivals in their order, from those that were seen, the last first, and those that follow.
abbrev pub replay : List Arrival → List Arrival → List Arrival
replay [] rest = rest
replay (a ∷ seen) rest = replay seen (a ∷ rest)

module _ {S : Type 0} where
  -- `backoff_mult = 1`, and the attempts of the call.
  abbrev pub first_frame : Call S → Frame S
  first_frame c = record { call = c; attempts = c.attempts; mult = 1; state = c.state; seen = [] }

  abbrev pub no_limit : Call S → Bool
  no_limit c = c.attempts == unlimited_attempts

  -- The condition of the loop.
  abbrev pub goes_on : Frame S → Bool
  goes_on f = no_limit f.call || ltb 0 f.attempts

  -- recvfrom has returned.
  abbrev pub saw : Arrival → Frame S → Frame S
  saw a f = record f { seen = a ∷ f.seen }

  -- `--attempts`, behind the callback or behind the backoff.
  abbrev pub next_frame : ℕ → S → Frame S → Frame S
  next_frame mult s f = record f { attempts = decrement f.attempts; mult = mult; state = s }

  abbrev pub use_socket : ℕ → Event → Shared S → Shared S
  use_socket t e m = record m { socket = (t, e) ∷ m.socket }

  abbrev pub release : Shared S → Shared S
  release m = record m { mutex = unlock m.mutex }

  -- The call is over, by return or by an exception: the guard's destructor unlocks the mutex.
  abbrev pub end_call : ℕ → Frame S → Result (S × Finish) → Shared S → Shared S
  end_call t f result m = record (release m) {
    returned = ack_call t f.call f.seen result ∷ m.returned;
  }

  abbrev pub end_send : ℕ → List ℕ → Result (List ℕ) → Shared S → Shared S
  end_send t buf result m = record (release m) { returned = send_call t buf result ∷ m.returned }

-- The moves of a thread: the guard of SendWithAck, the end of the loop, the guard of Send, sendto,
-- and recvfrom with its timeout, its error, and an acknowledgement that the callback accepts or not;
-- then those of a call of Send alone.
pub data Move {S : Type 0} (client : Client) (t : ℕ) (m : Shared S)
    : Pc S → Shared S → Pc S → Type 0 where
  enter :
      (c : Call S) (x : Mutex)
      → lock t m.mutex ≡ some x
      → Move client t m outside (record m { mutex = x }) (looping (first_frame c))
  give_up :
      (f : Frame S)
      → goes_on f ≡ false
      → Move client t m (looping f) (end_call t f (ok (f.state, exhausted)) m) outside
  start :
      (f : Frame S) (x : Mutex)
      → goes_on f ≡ true
      → lock t m.mutex ≡ some x
      → Move client t m (looping f) (record m { mutex = x }) (sending f)
  transmit :
      (f : Frame S)
      → client.sendto f.call.buf ≡ true
      → Move client t m (sending f) (use_socket t (sent f.call.buf) (release m)) (receiving f)
  refuse :
      (f : Frame S)
      → client.sendto f.call.buf ≡ false
      → Move client t m
          (sending f)
          (end_call t f (throw Exception.send_exception) (release m))
          outside
  refuse_now :
      (f : Frame S)
      → Move client t m
          (sending f)
          (end_call t (saw unsent f) (throw Exception.send_exception) (release m))
          outside
  time_out :
      (f : Frame S)
      → Move client t m
          (receiving f)
          (use_socket t (received (failure true)) m)
          (looping (next_frame (next_backoff f.mult) f.state (saw (failure true) f)))
  fail :
      (f : Frame S)
      → Move client t m
          (receiving f)
          (end_call t
            (saw (failure false) f)
            (throw Exception.receive_exception)
            (use_socket t (received (failure false)) m))
          outside
  accept :
      (f : Frame S) (bytes : List ℕ) (s : S)
      → answer f.call.valid_ack f.state bytes ≡ (s, ServerAction.stop)
      → Move client t m
          (receiving f)
          (end_call t
            (saw (datagram bytes) f)
            (ok (s, acked))
            (use_socket t (received (datagram bytes)) m))
          outside
  ignore :
      (f : Frame S) (bytes : List ℕ) (s : S)
      → answer f.call.valid_ack f.state bytes ≡ (s, ServerAction.continue)
      → Move client t m
          (receiving f)
          (use_socket t (received (datagram bytes)) m)
          (looping (next_frame f.mult s (saw (datagram bytes) f)))
  enter_send :
      (buf : List ℕ) (x : Mutex)
      → lock t m.mutex ≡ some x
      → Move client t m outside (record m { mutex = x }) (sending_alone buf)
  transmit_alone :
      (buf : List ℕ)
      → client.sendto buf ≡ true
      → Move client t m
          (sending_alone buf)
          (end_send t buf (ok buf) (use_socket t (sent buf) m))
          outside
  refuse_alone :
      (buf : List ℕ)
      → client.sendto buf ≡ false
      → Move client t m
          (sending_alone buf)
          (end_send t buf (throw Exception.send_exception) m)
          outside
