-- ===== src/Udp.antt =====
-- src/udp_conn.h and src/udp_conn.cc: the UDP client and server over the calls of the operating
-- system, whose answers are parameters: a Boolean for a call that may fail, and for recvfrom an
-- Arrival. A buffer is the list of its bytes, durations are microseconds.
pub mod Reliable
pub mod Return
pub mod Socket
pub mod Ack
pub mod Mutex
use total_order_multicast.Common.{
  ℕ, ◌+◌, ◌-◌, ◌*◌, ◌/◌, ◌%◌, Bool, true, false, ◌||◌, List, [], ◌∷◌, ◌++◌, Option, none, some,
  length, take, replicate, ltb, ◌==◌, if◌then◌else◌, Result, ok, throw, ◌>>=◌, Exception,
}
use total_order_multicast.Message.Host.{u32_mod}
use Prim.Native.Nat.{min}

-- enum class ServerAction.
pub data ServerAction : Type 0 where
  continue stop : ServerAction

abbrev pub bufsize : ℕ
bufsize = 1024

abbrev pub unlimited_attempts : ℕ
unlimited_attempts = 0

abbrev pub max_backoff_multiplier : ℕ
max_backoff_multiplier = 64

-- CreateSocket: whether socket, and setsockopt for SO_REUSEADDR and for SO_RCVTIMEO, succeed.
pub record SocketCalls : Type 0 where
  pub opens : Bool
  pub reuses : Bool
  pub times_out : Bool

-- struct timeval.
pub record TimeVal : Type 0 where
  pub sec : ℕ
  pub usec : ℕ

abbrev to_timeval : ℕ → TimeVal
to_timeval timeout =
    let secs = timeout / 1000000 in record { sec = secs; usec = timeout - secs * 1000000 }

-- The receive timeout of the socket, if one is set.
unfoldable pub create_socket : SocketCalls → ℕ → Result (Option TimeVal)
create_socket os timeout =
    if os.opens
    then if os.reuses
      then if ltb 0 timeout
        then if os.times_out
          then ok (some (to_timeval timeout))
          else throw Exception.socket_exception
        else ok none
      else throw Exception.socket_exception
    else throw Exception.socket_exception

-- struct sockaddr_in; the port is in network byte order.
pub record SocketAddress : Type 0 where
  pub ip : ℕ
  pub sin_port : ℕ

-- A client: the receive timeout of its socket, its remote address, and whether sendto accepts a buffer
-- to that address. In SendWithAck an arrival can say besides that sendto fails for one of the attempts.
pub record Client : Type 0 where
  pub timeout : Option TimeVal
  pub remote_address : SocketAddress
  pub sendto : List ℕ → Bool

-- Client::Send; the result is the datagram that was sent.
unfoldable pub send : Client → List ℕ → Result (List ℕ)
send client buf = if client.sendto buf then ok buf else throw Exception.send_exception

-- What the operating system answers to an attempt of SendWithAck: recvfrom returns the bytes of a
-- datagram, or an error, and then whether IsErrnoTimeout holds of errno; or sendto fails this time.
pub data Arrival : Type 0 where
  datagram : List ℕ → Arrival
  failure : Bool → Arrival
  unsent : Arrival

-- The buffer, zeroed before recvfrom writes into it, and the count that recvfrom returns.
unfoldable pub receive_buffer : List ℕ → List ℕ
receive_buffer bytes = take bufsize bytes ++ replicate (bufsize - length bytes) 0

unfoldable pub receive_count : List ℕ → ℕ
receive_count bytes = min bufsize (length bytes)

-- How SendWithAck ended: a valid acknowledgement, no attempts left, or still blocked in recvfrom
-- when the arrivals end.
pub data Finish : Type 0 where
  acked exhausted blocked : Finish

-- The state that the callback keeps, the number of sends and the multipliers of the backoffs.
pub record SendLog (S : Type 0) : Type 0 where
  pub state : S
  pub sends : ℕ
  pub backoffs : List ℕ
  pub finish : Finish

abbrev pub sent_once : {S : Type 0} → SendLog S → SendLog S
sent_once log = record log { sends = log.sends + 1 }

abbrev pub backed_off : {S : Type 0} → ℕ → SendLog S → SendLog S
backed_off mult log = record log { backoffs = mult ∷ log.backoffs }

-- `backoff_mult <<= 1` below the maximum.
unfoldable pub next_backoff : ℕ → ℕ
next_backoff mult = if ltb mult max_backoff_multiplier then mult * 2 % u32_mod else mult

-- `--attempts` on an unsigned int.
unfoldable pub decrement : ℕ → ℕ
decrement attempts = (attempts + u32_mod - 1) % u32_mod

module _ {S : Type 0} (client : Client) (buf : List ℕ)
    (valid_ack : S → List ℕ → ℕ → S × ServerAction) where
  -- What is left to do once the attempts are used up, and when the arrivals end.
  abbrev pub give_up : S → Finish → SendLog S
  give_up s finish = record { state = s; sends = 0; backoffs = []; finish = finish }

  -- After the callback: return, or go on with the next attempt.
  abbrev pub after_ack : S × ServerAction → (S → Result (SendLog S)) → Result (SendLog S)
  after_ack (s, ServerAction.stop) again = ok (give_up s Finish.acked)
  after_ack (s, ServerAction.continue) again = again s

  -- One attempt with that answer: `again` is the loop with the backoff multiplier kept, `later`
  -- the loop with the next one.
  abbrev pub attempt :
      Arrival → ℕ → S → (S → Result (SendLog S)) → Result (SendLog S) → Result (SendLog S)
  attempt (datagram bytes) mult s again later =
      after_ack (valid_ack s (receive_buffer bytes) (receive_count bytes)) again
  attempt (failure true) mult s again later = later >>= (λ log. ok (backed_off mult log))
  attempt (failure false) mult s again later = throw Exception.receive_exception
  attempt unsent mult s again later = throw Exception.send_exception

  -- The loop of SendWithAck: an attempt for each arrival. When the arrivals end with an attempt left,
  -- the message has been sent once more and recvfrom blocks.
  unfoldable pub send_loop : Bool → ℕ → ℕ → S → List Arrival → Result (SendLog S)
  unfolding send
  send_loop no_limit attempts mult s [] =
      if no_limit || ltb 0 attempts
      then send client buf >>= (λ _. ok (sent_once (give_up s Finish.blocked)))
      else ok (give_up s Finish.exhausted)
  send_loop no_limit attempts mult s (a ∷ rest) =
      let again = λ (s' : S). send_loop no_limit (decrement attempts) mult s' rest in
      let later = send_loop no_limit (decrement attempts) (next_backoff mult) s rest in
      if no_limit || ltb 0 attempts
      then send client buf >>= (λ _. attempt a mult s again later >>= (λ log. ok (sent_once log)))
      else ok (give_up s Finish.exhausted)

  unfoldable pub send_with_ack : ℕ → S → List Arrival → Result (SendLog S)
  send_with_ack attempts s arrivals =
      send_loop (attempts == unlimited_attempts) attempts 1 s arrivals

-- What the operating system hands to Listen: a datagram with the client that is made for its sender
-- (none where CreateSocket throws), or an error of recvfrom.
pub data Incoming : Type 0 where
  packet : Option Client → List ℕ → Incoming
  no_packet : Bool → Incoming

-- Listen goes on waiting when the incoming datagrams end, or it has returned.
pub data Serving (S : Type 0) : Type 0 where
  waiting : S → Serving S
  returned : S → Serving S

module _ {S : Type 0} (rcv : S → Client → List ℕ → ℕ → Result (S × ServerAction))
    (timeout : Option (S → S × ServerAction)) where
  abbrev after_action : S × ServerAction → (S → Result (Serving S)) → Result (Serving S)
  after_action (s, ServerAction.stop) again = ok (returned s)
  after_action (s, ServerAction.continue) again = again s

  -- One round of the loop in Server::Listen.
  abbrev serve_one : S → Incoming → (S → Result (Serving S)) → Result (Serving S)
  serve_one s (packet none bytes) again = throw Exception.socket_exception
  serve_one s (packet (some client) bytes) again =
      rcv s client (receive_buffer bytes) (receive_count bytes) >>= (λ r. after_action r again)
  serve_one s (no_packet false) again = throw Exception.receive_exception
  serve_one s (no_packet true) again = elim timeout [
    | none ↦ throw Exception.receive_exception
    | some on_timeout ↦ after_action (on_timeout s) again
  ]

  unfoldable pub listen : S → List Incoming → Result (Serving S)
  listen s [] = ok (waiting s)
  listen s (i ∷ rest) = let again = λ (s' : S). listen s' rest in serve_one s i again
