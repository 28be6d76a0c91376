-- ===== src/Udp/Return.antt =====
-- src/udp_conn.cc, Client::SendWithAck with unlimited attempts: when it returns.
use total_order_multicast.Common.{
  ℕ, ◌≡◌, refl, ◌∙◌, ◌⊎◌, inl, inr, true, List, [], ◌∷◌, Result, ok, ◌>>=◌,
}
use total_order_multicast.Udp.{
  ServerAction, Client, send, Arrival, datagram, failure, unsent, acked, SendLog, next_backoff,
  decrement, send_loop, sent_once, backed_off, send_with_ack, unlimited_attempts,
}
use total_order_multicast.Udp.Reliable.{answer}

-- An acknowledgement arrives that the callback accepts, and before it no sendto fails, and no receive
-- but by a timeout.
abbrev pub Answered : {S : Type 0} → (S → List ℕ → ℕ → S × ServerAction) → S → List Arrival → Type 0
Answered {S} valid_ack s [] = ⊥
Answered {S} valid_ack s (datagram bytes ∷ rest) =
    ((s' : S) × (answer valid_ack s bytes ≡ (s', ServerAction.stop)))
    ⊎ (((answer valid_ack s bytes) ≡ (s, ServerAction.continue)) × Answered valid_ack s rest)
Answered {S} valid_ack s (failure t ∷ rest) = (t ≡ true) × Answered valid_ack s rest
Answered {S} valid_ack s (unsent ∷ rest) = ⊥

module _ {S : Type 0} (client : Client) (buf : List ℕ)
    (valid_ack : S → List ℕ → ℕ → S × ServerAction) (s : S)
    (accepts : client.sendto buf ≡ true) where
  abbrev Acks : Result (SendLog S) → Type 0
  Acks r = (log : SendLog S) × (r ≡ ok log) × (log.finish ≡ acked)

  send-eq : send client buf ≡ ok buf
  unfolding send
  send-eq = rw accepts

  Acks-map :
      (r : Result (SendLog S)) (f : SendLog S → SendLog S)
      → ((log : SendLog S) → (f log).finish ≡ log.finish)
      → Acks r
      → Acks (r >>= (λ log. ok (f log)))
  Acks-map r f same (log, e, a) = rw e (f log, refl, same log ∙ a)

  unlimited-Acks :
      (a m : ℕ) (arrivals : List Arrival)
      → Answered valid_ack s arrivals
      → Acks (send_loop client buf valid_ack true a m s arrivals)
  unfolding send_loop
  unlimited-Acks a m [] h = absurd h
  unlimited-Acks a m (unsent ∷ rest) h = absurd h
  unlimited-Acks a m (failure t ∷ rest) (e, h) =
      rw (e, send-eq)
        (Acks-map _ sent_once (λ log. refl)
          (Acks-map _ (backed_off m) (λ log. refl)
            (unlimited-Acks (decrement a) (next_backoff m) rest h)))
  unlimited-Acks a m (datagram bytes ∷ rest) (inl (s', e)) = rw (send-eq, e) (_, refl, refl)
  unlimited-Acks a m (datagram bytes ∷ rest) (inr (e, h)) =
      rw (send-eq, e) (Acks-map _ sent_once (λ log. refl) (unlimited-Acks (decrement a) m rest h))

  -- With unlimited attempts, SendWithAck returns, acknowledged, once a datagram arrives that the callback
  -- accepts, if until then sendto accepts the message each time and no receive fails but by a timeout.
  pub send_with_ack-returns :
      (arrivals : List Arrival)
      → Answered valid_ack s arrivals
      → (log : SendLog S) × (send_with_ack client buf valid_ack unlimited_attempts s arrivals
          ≡ ok log)
        × (log.finish ≡ acked)
  unfolding send_with_ack
  send_with_ack-returns arrivals h = unlimited-Acks 0 1 arrivals h
