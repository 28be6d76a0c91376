-- ===== src/Sender/Announce.antt =====
-- src/process.cc: the last loop of a sender thread, and the acknowledgements of the SeqMessage.
use native.Mathlib.Decide.{dec_lt}
use total_order_multicast.Common.{
  ℕ, zero, suc, ◌+◌, ◌≤◌, ◌<◌, ◌≡◌, refl, ap, ◌⊎◌, inl, inr, true, List, some, Bool-cases,
  Option-cases, Returns, Returns->>=, Returns-×, Returns-mono, Returns-trivial, arith,
}
use total_order_multicast.Message.Host.{Host}
use total_order_multicast.Message.{SeqMessage, SeqAckMessage}
use total_order_multicast.Message.Valid.{valid_seq_ack_msg}
use total_order_multicast.Message.Wire.{seq_ack_msg_from_buf, seq_msg_bytes}
use total_order_multicast.Udp.{
  Client, ServerAction, Arrival, SendLog, Finish, acked, exhausted, blocked, unlimited_attempts,
  receive_buffer, receive_count,
}
use total_order_multicast.Udp.Reliable.{answer, Arrives, IsQuiet}
use total_order_multicast.Udp.Ack.{StateOf, send_with_ack-StateOf, Limited, send_with_ack-attempts}
use total_order_multicast.Sender.{
  is_valid_ack, send_seq_msg, Phase, finished, waits_for, acknowledged-blocked, acknowledged-acked,
  Sending, client_for_id, announce,
}

module _ (host : Host) (m : SeqMessage) where
  -- A datagram that acknowledges the SeqMessage.
  abbrev pub Confirms : List ℕ → Type 0
  Confirms bytes =
      (ack : SeqAckMessage) × (seq_ack_msg_from_buf host (receive_buffer bytes)
          (receive_count bytes)
        ≡ some ack)
      × (valid_seq_ack_msg ack m ≡ true)

  is_valid_ack-cases :
      (buf : List ℕ) (n : ℕ)
      → ((is_valid_ack host m tt buf n).1 ≡ ServerAction.continue)
        ⊎ ((ack : SeqAckMessage) × (seq_ack_msg_from_buf host buf n ≡ some ack)
            × (valid_seq_ack_msg ack m ≡ true))
  unfolding is_valid_ack
  is_valid_ack-cases buf n = elim (Option-cases (seq_ack_msg_from_buf host buf n)) [
    | inl e ↦ inl (rw (is_valid_ack, e))
    | inr (ack, e) ↦ elim (Bool-cases (valid_seq_ack_msg ack m)) [
      | inl v ↦ inr (ack, e, v)
      | inr v ↦ inl (rw (is_valid_ack, e, v))
    ]
  ]

  abbrev pub Confirmed : List Arrival → SendLog (Unit {0}) → Type 0
  Confirmed arrivals log =
      (log.finish ≡ blocked)
      ⊎ ((log.finish ≡ acked) × ((bytes : List ℕ) × Arrives bytes arrivals × Confirms bytes))

  module _ (client : Client) (arrivals : List Arrival) where
    abbrev wire : List ℕ
    wire = seq_msg_bytes host m

    abbrev Known : SendLog (Unit {0}) → Type 0
    Known log =
        StateOf client wire (is_valid_ack host m) tt arrivals log
        × Limited client wire (is_valid_ack host m) tt unlimited_attempts log

    Known-Confirmed : (log : SendLog (Unit {0})) → Known log → Confirmed arrivals log
    Known-Confirmed log h = cases log.finish refl
      where
        confirm :
            (bytes : List ℕ)
            → answer (is_valid_ack host m) tt bytes ≡ (log.state, ServerAction.stop)
            → Confirms bytes
        confirm bytes a = elim (is_valid_ack-cases (receive_buffer bytes) (receive_count bytes)) [
          | inl q ↦ cc (ap (λ (r : Unit {0} × ServerAction). r.1) a)
          | inr c ↦ c
        ]

        cases : (f : Finish) → log.finish ≡ f → Confirmed arrivals log
        cases blocked e = inl e
        cases exhausted e = absurd (h.1.1 refl e)
        cases acked e =
            let (bytes, arrives, a) = h.0.0 e in inr (e, (bytes, arrives, confirm bytes a))

    pub send_seq_msg-Confirmed : Returns (Confirmed arrivals) (send_seq_msg host client m arrivals)
    unfolding send_seq_msg
    send_seq_msg-Confirmed =
        let quiet : IsQuiet client wire (is_valid_ack host m) tt true = λ bytes e. refl in
        Returns-mono Known (Confirmed arrivals) Known-Confirmed _ (
          Returns-× _ _ _
            (send_with_ack-StateOf client wire (is_valid_ack host m) tt quiet unlimited_attempts
              arrivals)
            (send_with_ack-attempts client wire (is_valid_ack host m) tt quiet unlimited_attempts
              arrivals (omega arith)))

module _ (host : Host) (t : Sending) (m : SeqMessage) where
  -- The process with an index has acknowledged the SeqMessage.
  abbrev pub IsConfirmed : ℕ → Type 0
  IsConfirmed pid =
      (bytes : List ℕ) × Arrives bytes (t.seq_ack_arrivals pid) × Confirms host m bytes

  abbrev pub Announced : ℕ → ℕ → Phase SeqMessage → Type 0
  Announced rounds pid (waits_for p) = (pid ≤ p) × (p < pid + rounds)
  Announced rounds pid (finished out) =
      (out ≡ m) × ((i : ℕ) → pid ≤ i → i < pid + rounds → IsConfirmed i)

  Announced-step :
      (rounds pid : ℕ) (p : Phase SeqMessage)
      → IsConfirmed pid
      → Announced rounds (pid + 1) p
      → Announced (suc rounds) pid p
  Announced-step rounds pid (waits_for p) a h = omega arith
  Announced-step rounds pid (finished out) a (e, later) = (
    e,
    λ i b l. elim (dec_lt pid i) [
      | yes after ↦ later i (omega arith) (omega arith)
      | no here ↦ let same : i ≡ pid = omega arith in rw same a
    ],
  )

  pub announce-Announced :
      (rounds pid : ℕ) → Returns (Announced rounds pid) (announce host t rounds pid m)
  unfolding announce
  announce-Announced zero pid = (refl, λ i b l. absurd (omega arith))
  announce-Announced (suc rounds) pid =
      Returns->>= _ (Announced (suc rounds) pid) (client_for_id t.processes t.clients pid) _
        (Returns-trivial _)
        (λ client _.
          Returns->>= (Confirmed host m (t.seq_ack_arrivals pid)) (Announced (suc rounds) pid) _ _
            (send_seq_msg-Confirmed host m client (t.seq_ack_arrivals pid))
            (λ log x. elim x [
              | inl b ↦ rw (acknowledged-blocked pid log b) (omega arith, omega arith)
              | inr (a, c) ↦ rw (acknowledged-acked pid log a) (
                  Returns-mono (Announced rounds (pid + 1)) (Announced (suc rounds) pid)
                    (λ p h. Announced-step rounds pid p c h) _
                    (announce-Announced rounds (pid + 1)))
            ]))
