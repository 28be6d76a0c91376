-- ===== src/Udp/Mutex/Loop.antt =====
-- src/udp_conn.cc, Client::SendWithAck: one time round its loop, as it counts for the result.
use total_order_multicast.Common.{
  ℕ, ◌≡◌, refl, inl, inr, Bool-cases, Bool, true, false, ◌||◌, List, [], ◌∷◌, ltb, Result, ok,
  throw, ◌>>=◌, Exception,
}
use total_order_multicast.Udp.{
  ServerAction, Client, send, Arrival, datagram, failure, unsent, acked, exhausted, Finish, SendLog,
  next_backoff, decrement, send_loop, sent_once, backed_off,
}
use total_order_multicast.Udp.Reliable.{answer}
use total_order_multicast.Udp.Mutex.{summary}

pub send-ok : (client : Client) (buf : List ℕ) → client.sendto buf ≡ true → send client buf ≡ ok buf
unfolding send
send-ok client buf e = rw e

pub send-throw :
    (client : Client) (buf : List ℕ)
    → client.sendto buf ≡ false
    → send client buf ≡ throw Exception.send_exception
unfolding send
send-throw client buf e = rw e

module _ {S : Type 0} where
  summary-sent_once :
      (r : Result (SendLog S)) → summary (r >>= (λ log. ok (sent_once log))) ≡ summary r
  summary-sent_once (ok log) = refl
  summary-sent_once (throw x) = refl

  summary-backed_off :
      (mult : ℕ) (r : Result (SendLog S))
      → summary ((r >>= (λ log. ok (backed_off mult log))) >>= (λ log. ok (sent_once log)))
        ≡ summary r
  summary-backed_off mult (ok log) = refl
  summary-backed_off mult (throw x) = refl

module _ {S : Type 0} (client : Client) (buf : List ℕ)
    (valid_ack : S → List ℕ → ℕ → S × ServerAction) (unlimited : Bool) where
  abbrev pub result_from : ℕ → ℕ → S → List Arrival → Result (S × Finish)
  result_from a mult s arrivals =
      summary (send_loop client buf valid_ack unlimited a mult s arrivals)

module _ {S : Type 0} (client : Client) (buf : List ℕ)
    (valid_ack : S → List ℕ → ℕ → S × ServerAction) (unlimited : Bool) (a mult : ℕ) (s : S) where
  pub loop-exhausted :
      (unlimited || ltb 0 a) ≡ false
      → result_from client buf valid_ack unlimited a mult s [] ≡ ok (s, exhausted)
  unfolding send_loop
  loop-exhausted e = rw e

  pub loop-refused :
      (unlimited || ltb 0 a) ≡ true
      → client.sendto buf ≡ false
      → result_from client buf valid_ack unlimited a mult s [] ≡ throw Exception.send_exception
  unfolding send_loop send
  loop-refused e r = rw (e, r)

  pub loop-unsent :
      (unlimited || ltb 0 a) ≡ true
      → result_from client buf valid_ack unlimited a mult s (unsent ∷ [])
        ≡ throw Exception.send_exception
  unfolding send_loop send
  loop-unsent e = elim (Bool-cases (client.sendto buf)) [ inl r ↦ rw (e, r) | inr r ↦ rw (e, r) ]

  module _ (more : (unlimited || ltb 0 a) ≡ true) (accepts : client.sendto buf ≡ true)
      (rest : List Arrival) where
    pub loop-timeout :
        result_from client buf valid_ack unlimited a mult s (failure true ∷ rest)
        ≡ result_from client buf valid_ack unlimited (decrement a) (next_backoff mult) s rest
    unfolding send_loop send
    loop-timeout = rw (more, accepts) (summary-backed_off mult _)

    pub loop-failure :
        result_from client buf valid_ack unlimited a mult s (failure false ∷ rest)
        ≡ throw Exception.receive_exception
    unfolding send_loop send
    loop-failure = rw (more, accepts)

    pub loop-accepted :
        (bytes : List ℕ) (s' : S)
        → answer valid_ack s bytes ≡ (s', ServerAction.stop)
        → result_from client buf valid_ack unlimited a mult s (datagram bytes ∷ rest)
          ≡ ok (s', acked)
    unfolding send_loop send
    loop-accepted bytes s' e = rw (more, accepts, e)

    pub loop-ignored :
        (bytes : List ℕ) (s' : S)
        → answer valid_ack s bytes ≡ (s', ServerAction.continue)
        → result_from client buf valid_ack unlimited a mult s (datagram bytes ∷ rest)
          ≡ result_from client buf valid_ack unlimited (decrement a) mult s' rest
    unfolding send_loop send
    loop-ignored bytes s' e = rw (more, accepts, e) (summary-sent_once _)
