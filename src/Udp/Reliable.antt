-- ===== src/Udp/Reliable.antt =====
-- src/udp_conn.cc, Client::SendWithAck: the rule for its loop.
use total_order_multicast.Common.{
  ℕ, ◌+◌, ◌≡◌, refl, sym, ap, ◌∙◌, ◌⊎◌, inl, inr, Bool, true, false, ◌||◌, List, [], ◌∷◌, ltb,
  Bool-cases, Result, ok, throw, ◌>>=◌, Returns, Exception,
}
use total_order_multicast.Udp.{
  ServerAction, Client, send, Arrival, datagram, failure, unsent, receive_buffer, receive_count,
  acked, exhausted, blocked, SendLog, next_backoff, decrement, send_loop, after_ack, sent_once,
}

-- The callback's answer to a datagram.
abbrev pub answer :
    {S : Type 0} → (S → List ℕ → ℕ → S × ServerAction) → S → List ℕ → S × ServerAction
answer valid_ack s bytes = valid_ack s (receive_buffer bytes) (receive_count bytes)

-- A datagram among the arrivals.
abbrev pub Arrives : List ℕ → List Arrival → Type 0
Arrives bytes [] = ⊥
Arrives bytes (datagram b ∷ rest) = (b ≡ bytes) ⊎ Arrives bytes rest
Arrives bytes (failure t ∷ rest) = Arrives bytes rest
Arrives bytes (unsent ∷ rest) = Arrives bytes rest

module _ {S : Type 0} (client : Client) (buf : List ℕ)
    (valid_ack : S → List ℕ → ℕ → S × ServerAction) (s : S) (no_limit : Bool) where
  abbrev loop : ℕ → ℕ → List Arrival → Result (SendLog S)
  loop attempts mult arrivals = send_loop client buf valid_ack no_limit attempts mult s arrivals

  abbrev more : ℕ → Bool
  more attempts = no_limit || ltb 0 attempts

  -- The callback changes its state only with an acknowledgement that it accepts.
  abbrev pub IsQuiet : Type 0
  IsQuiet =
      (bytes : List ℕ)
      → (answer valid_ack s bytes).1 ≡ ServerAction.continue
      → (answer valid_ack s bytes).0 ≡ s

  -- What a predicate on attempts, multiplier, arrivals and log must satisfy to hold of the loop.
  pub record Rules (P : ℕ → ℕ → List Arrival → SendLog S → Type 0) : Type 0 where
    pub blocks :
        (attempts mult : ℕ)
        → more attempts ≡ true
        → P attempts mult [] (record { state = s; sends = 1; backoffs = []; finish = blocked })
    pub gives_up :
        (attempts mult : ℕ) (arrivals : List Arrival)
        → more attempts ≡ false
        → P attempts mult arrivals
            (record { state = s; sends = 0; backoffs = []; finish = exhausted })
    pub accepts :
        (attempts mult : ℕ) (s' : S) (bytes : List ℕ) (rest : List Arrival)
        → more attempts ≡ true
        → answer valid_ack s bytes ≡ (s', ServerAction.stop)
        → P attempts mult
            (datagram bytes ∷ rest)
            (record { state = s'; sends = 1; backoffs = []; finish = acked })
    pub ignores :
        (attempts mult : ℕ) (bytes : List ℕ) (rest : List Arrival) (log : SendLog S)
        → more attempts ≡ true
        → P (decrement attempts) mult rest log
        → P attempts mult (datagram bytes ∷ rest) (record log { sends = log.sends + 1 })
    pub backs_off :
        (attempts mult : ℕ) (rest : List Arrival) (log : SendLog S)
        → more attempts ≡ true
        → P (decrement attempts) (next_backoff mult) rest log
        → P attempts mult
            (failure true ∷ rest)
            (record log { sends = log.sends + 1; backoffs = mult ∷ log.backoffs })

  module _ (P : ℕ → ℕ → List Arrival → SendLog S → Type 0) (rules : Rules P) (quiet : IsQuiet) where
    -- What holds behind a send that succeeds.
    after_send :
        (R : SendLog S → Type 0) (r : Result (SendLog S))
        → Returns R r
        → Returns R (send client buf >>= (λ _. r))
    unfolding send
    after_send R r q = elim (Bool-cases (client.sendto buf)) [ inl e ↦ rw e q | inr e ↦ rw e tt ]

    Returns-map :
        (Q R : SendLog S → Type 0) (f : SendLog S → SendLog S) (r : Result (SendLog S))
        → ((log : SendLog S) → Q log → R (f log))
        → Returns Q r
        → Returns R (r >>= (λ log. ok (f log)))
    Returns-map Q R f (ok log) h q = h log q
    Returns-map Q R f (throw x) h q = tt

    -- The callback accepts the datagram, or the loop goes on in the same state.
    acknowledge :
        (attempts mult : ℕ) (bytes : List ℕ) (rest : List Arrival)
        → more attempts ≡ true
        → (r : S × ServerAction) → answer valid_ack s bytes ≡ r
        → Returns (P (decrement attempts) mult rest) (loop (decrement attempts) mult rest)
        → Returns (P attempts mult (datagram bytes ∷ rest)) (
            after_ack client buf valid_ack r
              (λ s'. send_loop client buf valid_ack no_limit (decrement attempts) mult s' rest)
            >>= (λ log. ok (record log { sends = log.sends + 1 })))
    acknowledge attempts mult bytes rest m (s', ServerAction.stop) e ih =
        rules.accepts attempts mult s' bytes rest m e
    acknowledge attempts mult bytes rest m (s', ServerAction.continue) e ih =
        let same : s' ≡ s =
          sym (ap (λ (r : S × ServerAction). r.0) e)
          ∙ quiet bytes (ap (λ (r : S × ServerAction). r.1) e) in
        rw same (
          Returns-map (P (decrement attempts) mult rest) _ _ (loop (decrement attempts) mult rest)
            (λ log q. rules.ignores attempts mult bytes rest log m q) ih)

    -- A predicate that satisfies the rules holds of the log that the loop returns.
    pub loop-Returns :
        (attempts mult : ℕ) (arrivals : List Arrival)
        → Returns (P attempts mult arrivals) (loop attempts mult arrivals)
    unfolding send_loop
    loop-Returns attempts mult [] = elim (Bool-cases (more attempts)) [
      | inl m ↦ rw m (
          after_send (P attempts mult [])
            (ok (record { state = s; sends = 1; backoffs = []; finish = blocked }))
            (rules.blocks attempts mult m))
      | inr m ↦ rw m (rules.gives_up attempts mult [] m)
    ]
    loop-Returns attempts mult (failure false ∷ rest) = elim (Bool-cases (more attempts)) [
      | inl m ↦ rw m (
          after_send (P attempts mult (failure false ∷ rest)) (throw Exception.receive_exception)
            tt)
      | inr m ↦ rw m (rules.gives_up attempts mult (failure false ∷ rest) m)
    ]
    loop-Returns attempts mult (unsent ∷ rest) = elim (Bool-cases (more attempts)) [
      | inl m ↦
          rw m (after_send (P attempts mult (unsent ∷ rest)) (throw Exception.send_exception) tt)
      | inr m ↦ rw m (rules.gives_up attempts mult (unsent ∷ rest) m)
    ]
    loop-Returns attempts mult (failure true ∷ rest) = elim (Bool-cases (more attempts)) [
      | inl m ↦ rw m (
          after_send (P attempts mult (failure true ∷ rest)) _ (
            Returns-map (λ log. P attempts mult (failure true ∷ rest) (sent_once log)) _ _
              (loop (decrement attempts) (next_backoff mult) rest
                >>= (λ log. ok (record log { backoffs = mult ∷ log.backoffs })))
              (λ log q. q)
              (Returns-map (P (decrement attempts) (next_backoff mult) rest) _ _
                (loop (decrement attempts) (next_backoff mult) rest)
                (λ log q. rules.backs_off attempts mult rest log m q)
                (loop-Returns (decrement attempts) (next_backoff mult) rest))))
      | inr m ↦ rw m (rules.gives_up attempts mult (failure true ∷ rest) m)
    ]
    loop-Returns attempts mult (datagram bytes ∷ rest) = elim (Bool-cases (more attempts)) [
      | inl m ↦ rw m (
          after_send (P attempts mult (datagram bytes ∷ rest)) _ (
            acknowledge attempts mult bytes rest m (answer valid_ack s bytes) refl
              (loop-Returns (decrement attempts) mult rest)))
      | inr m ↦ rw m (rules.gives_up attempts mult (datagram bytes ∷ rest) m)
    ]
