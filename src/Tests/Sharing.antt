-- ===== src/Tests/Sharing.antt =====
-- src/udp_conn.cc: two threads that share a client.
use total_order_multicast.Common.{
  ℕ, none, Bool-cases, inl, inr, ◌+◌, ◌≡◌, refl, true, [], ◌∷◌, All, ◌==◌,
}
use total_order_multicast.Udp.{
  ServerAction, Client, failure, next_backoff, decrement, receive_buffer, receive_count,
}
use total_order_multicast.Udp.Mutex.{
  locked, lock, unlock, Call, Pc, outside, Frame, first_frame, saw, next_frame, Shared, Move, enter,
  start, transmit, time_out, accept, enter_send, transmit_alone,
}
use total_order_multicast.Udp.Mutex.Threads.{
  System, pick, fresh, Reach, begin, later, past, AsAlone,
}
use total_order_multicast.Udp.Mutex.Serial.{returned-AsAlone, caller_moves}

abbrev socket : Client
socket = record {
  timeout = none;
  remote_address = record { ip = 0; sin_port = 0 };
  sendto = λ buf. true;
}

-- The callback accepts everything, and adds up the counts.
abbrev call : Call ℕ
call = record {
  buf = 7 ∷ [];
  attempts = 0;
  valid_ack = λ s buf n. (s + n, ServerAction.stop);
  state = 0;
}

abbrev Reached : Type 0
Reached = (s : System ℕ) × Reach socket s

abbrev next :
    (r : Reached) (t : ℕ) {m : Shared ℕ} {p : Pc ℕ}
    → Move socket t r.0.shared (r.0.pc t) m p
    → Reached
next (s, r) t move = (_, later r (pick t move))

abbrev fresh_client : Reached
fresh_client = (fresh, begin)

abbrev entered : Reached
unfolding lock
entered = next fresh_client 0 (enter call (locked 0 1) refl)

abbrev again : Frame ℕ
again = next_frame 2 0 (saw (failure true) (first_frame call))

-- The first thread sends, times out, sends again and gets three bytes.
abbrev in_send : Reached
unfolding lock
in_send = next entered 0 (start (first_frame call) (locked 0 2) refl refl)

abbrev one_call : Reached
unfolding lock unlock next_backoff decrement receive_buffer receive_count
one_call =
    let waits = next in_send 0 (transmit (first_frame call) refl) in
    let late = next waits 0 (time_out (first_frame call)) in
    let resends = next late 0 (start _ (locked 0 2) refl refl) in
    let waits_again = next resends 0 (transmit _ refl) in
    next waits_again 0 (accept _ (1 ∷ 2 ∷ 3 ∷ []) 3 refl)

-- A third thread calls Send.
abbrev two_calls : Reached
unfolding lock unlock next_backoff decrement receive_buffer receive_count
two_calls =
    let third = next one_call 2 (enter_send (5 ∷ []) (locked 2 1) refl) in
    next third 2 (transmit_alone (5 ∷ []) refl)

-- Then the second thread has its turn; it has locked the mutex twice.
abbrev second_in_send : Reached
unfolding lock unlock next_backoff decrement receive_buffer receive_count
second_in_send =
    let second = next two_calls 1 (enter call (locked 1 1) refl) in
    next second 1 (start (first_frame call) (locked 1 2) refl refl)

-- While it does, the first thread cannot enter.
first_waits : lock 0 second_in_send.0.shared.mutex ≡ none
unfolding lock unlock second_in_send
first_waits = refl

quiet : (t : ℕ) → two_calls.0.pc t ≡ outside
unfolding two_calls
quiet t = elim (Bool-cases (t == 2)) [
  | inl e ↦ rw e
  | inr e ↦ elim (Bool-cases (t == 0)) [ inl f ↦ rw (e, f) | inr f ↦ rw (e, f) ]
]

returned-AsAlone_example :
    All (AsAlone socket) two_calls.0.shared.returned
    × (((t : ℕ) → two_calls.0.pc t ≡ outside)
        → two_calls.0.shared.socket ≡ past two_calls.0.shared.returned)
returned-AsAlone_example = returned-AsAlone socket two_calls.1

inside : ¬ (second_in_send.0.pc 1 ≡ outside)
unfolding second_in_send
inside e = cc

caller_moves_example :
    ◌≡◌ {A = ℕ} 1 1
    × ((m : Shared ℕ) × (p : Pc ℕ) × Move socket 1 second_in_send.0.shared
          (second_in_send.0.pc 1)
          m
          p)
caller_moves_example = caller_moves socket second_in_send.1 1 1 inside inside
