-- ===== src/Sender/Collect.antt =====
-- src/process.cc: the first loop of a sender thread, and the numbers that it collects.
use total_order_multicast.Common.{
  ℕ, zero, suc, ◌+◌, ◌≤◌, ◌<◌, ◌≡◌, refl, sym, ap, ◌∙◌, ◌⊎◌, inl, inr, true, List, some, length,
  get_elem?, set, Bool-cases, Option-cases, length-set, get_elem?-set_self, get_elem?-set_ne,
  Returns, Returns->>=, Returns-×, Returns-mono, Returns-trivial, arith,
}
use native.Mathlib.Decide.{dec_lt}
use total_order_multicast.Message.Host.{Host}
use total_order_multicast.Message.{DataMessage, AckMessage}
use total_order_multicast.Message.Valid.{valid_ack_msg}
use total_order_multicast.Message.Wire.{ack_msg_from_buf, data_msg_bytes}
use total_order_multicast.Udp.{
  Client, ServerAction, Arrival, SendLog, Finish, acked, exhausted, blocked, unlimited_attempts,
  receive_buffer, receive_count,
}
use total_order_multicast.Udp.Reliable.{answer, Arrives, IsQuiet}
use total_order_multicast.Udp.Ack.{StateOf, send_with_ack-StateOf, Limited, send_with_ack-attempts}
use total_order_multicast.Sender.{
  handle_ack, send_data_msg, Phase, finished, waits_for, acknowledged-blocked, acknowledged-acked,
  Sending, data_msg, client_for_id, collect,
}

module _ (host : Host) where
  -- A valid acknowledgement of the message by process `pid`, with its proposed number.
  abbrev pub Acknowledges : ℕ → ℕ → ℕ → ℕ → List ℕ → Type 0
  Acknowledges id msg_id pid seq bytes =
      (ack : AckMessage) × (ack_msg_from_buf host (receive_buffer bytes) (receive_count bytes)
        ≡ some ack)
      × (valid_ack_msg ack id msg_id pid ≡ true)
      × (ack.proposed_seq ≡ seq)

  module _ (id msg_id pid : ℕ) (seqs : List ℕ) where
    pub handle_ack-cases :
        (buf : List ℕ) (n : ℕ)
        → (handle_ack host id msg_id pid seqs buf n ≡ (seqs, ServerAction.continue))
          ⊎ ((ack : AckMessage) × (ack_msg_from_buf host buf n ≡ some ack)
              × (valid_ack_msg ack id msg_id pid ≡ true)
              × (handle_ack host id msg_id pid seqs buf n
                  ≡ (set seqs pid ack.proposed_seq, ServerAction.stop)))
    unfolding handle_ack
    handle_ack-cases buf n = elim (Option-cases (ack_msg_from_buf host buf n)) [
      | inl e ↦ inl (rw (handle_ack, e))
      | inr (ack, e) ↦ elim (Bool-cases (valid_ack_msg ack id msg_id pid)) [
        | inl v ↦ inr (ack, e, v, rw (handle_ack, e, v))
        | inr v ↦ inl (rw (handle_ack, e, v))
      ]
    ]

    pub handle_ack-IsQuiet :
        (client : Client) (buf : List ℕ)
        → IsQuiet client buf (handle_ack host id msg_id pid) seqs true
    handle_ack-IsQuiet client buf bytes e =
        elim (handle_ack-cases (receive_buffer bytes) (receive_count bytes)) [
          | inl q ↦ ap (λ (r : List ℕ × ServerAction). r.0) q
          | inr (ack, d, v, q) ↦ cc (ap (λ (r : List ℕ × ServerAction). r.1) q)
        ]

    handle_ack-stop :
        (bytes seqs' : List ℕ)
        → answer (handle_ack host id msg_id pid) seqs bytes ≡ (seqs', ServerAction.stop)
        → (seq : ℕ) × (seqs' ≡ set seqs pid seq) × Acknowledges id msg_id pid seq bytes
    handle_ack-stop bytes seqs' e =
        elim (handle_ack-cases (receive_buffer bytes) (receive_count bytes)) [
          | inl q ↦
              cc (
                ap (λ (r : List ℕ × ServerAction). r.1) q,
                ap (λ (r : List ℕ × ServerAction). r.1) e,
              )
          | inr (ack, d, v, q) ↦ (
            ack.proposed_seq,
            ap (λ (r : List ℕ × ServerAction). r.0) (sym e ∙ q),
            (ack, d, v, refl),
          )
        ]

  -- How one call of SendDataMsg leaves the thread: waiting, or with the number of a valid
  -- acknowledgement recorded.
  abbrev pub Exchanged : ℕ → ℕ → ℕ → List ℕ → List Arrival → SendLog (List ℕ) → Type 0
  Exchanged id msg_id pid seqs arrivals log =
      (log.finish ≡ blocked)
      ⊎ ((log.finish ≡ acked)
          × ((bytes : List ℕ) × (seq : ℕ) × Arrives bytes arrivals
              × (log.state ≡ set seqs pid seq)
              × Acknowledges id msg_id pid seq bytes))

  module _ (client : Client) (id pid : ℕ) (m : DataMessage) (seqs : List ℕ)
      (arrivals : List Arrival) where
    abbrev wire : List ℕ
    wire = data_msg_bytes host m

    abbrev callback : List ℕ → List ℕ → ℕ → List ℕ × ServerAction
    callback = handle_ack host id m.msg_id pid

    abbrev Known : SendLog (List ℕ) → Type 0
    Known log =
        StateOf client wire callback seqs arrivals log
        × Limited client wire callback seqs unlimited_attempts log

    Known-Exchanged :
        (log : SendLog (List ℕ)) → Known log → Exchanged id m.msg_id pid seqs arrivals log
    Known-Exchanged log h = cases log.finish refl
      where
        cases : (f : Finish) → log.finish ≡ f → Exchanged id m.msg_id pid seqs arrivals log
        cases blocked e = inl e
        cases exhausted e = absurd (h.1.1 refl e)
        cases acked e =
            let (bytes, arrives, a) = h.0.0 e in
            let (seq, q, ack) = handle_ack-stop id m.msg_id pid seqs bytes log.state a in
            inr (e, (bytes, seq, arrives, q, ack))

    pub send_data_msg-Exchanged :
        Returns
          (Exchanged id m.msg_id pid seqs arrivals)
          (send_data_msg host client id pid m seqs arrivals)
    unfolding send_data_msg
    send_data_msg-Exchanged =
        let quiet : IsQuiet client wire callback seqs true =
          handle_ack-IsQuiet id m.msg_id pid seqs client wire in
        Returns-mono Known (Exchanged id m.msg_id pid seqs arrivals) Known-Exchanged _ (
          Returns-× _ _ _
            (send_with_ack-StateOf client wire callback seqs quiet unlimited_attempts arrivals)
            (send_with_ack-attempts client wire callback seqs quiet unlimited_attempts arrivals
              (omega arith)))

module _ (host : Host) (t : Sending) where
  -- The number at an index was acknowledged by the process with that index.
  abbrev pub IsAcked : ℕ → ℕ → Type 0
  IsAcked pid seq =
      (bytes : List ℕ) × Arrives bytes (t.ack_arrivals pid)
      × Acknowledges host t.id t.msg_id pid seq bytes

  -- What the loop over `rounds` processes from `pid` on has done to the numbers.
  abbrev pub Collected : ℕ → ℕ → List ℕ → Phase (List ℕ) → Type 0
  Collected rounds pid seqs (waits_for p) = (pid ≤ p) × (p < pid + rounds)
  Collected rounds pid seqs (finished out) =
      (length out ≡ length seqs)
      × ((i : ℕ) → i < pid → get_elem? out i ≡ get_elem? seqs i)
      × ((i : ℕ)
          → pid ≤ i
          → i < pid + rounds
          → (seq : ℕ) × (get_elem? out i ≡ some seq) × IsAcked i seq)

  -- One more number recorded in front.
  Collected-step :
      (rounds pid seq : ℕ) (seqs : List ℕ) (p : Phase (List ℕ))
      → pid < length seqs
      → IsAcked pid seq
      → Collected rounds (pid + 1) (set seqs pid seq) p
      → Collected (suc rounds) pid seqs p
  Collected-step rounds pid seq seqs (waits_for p) l a h = omega arith
  Collected-step rounds pid seq seqs (finished out) l a (len, old, new) = (
    len ∙ length-set seqs pid seq,
    λ i b. old i (omega arith) ∙ get_elem?-set_ne seqs pid i seq (omega arith),
    λ i b e. elim (dec_lt pid i) [
      | yes later ↦ new i (omega arith) (omega arith)
      | no here ↦
          let same : i ≡ pid = omega arith in
          rw same (seq, old pid (omega arith) ∙ get_elem?-set_self seqs pid seq l, a)
    ],
  )

  pub collect-Collected :
      (rounds pid : ℕ) (seqs : List ℕ)
      → pid + rounds ≡ length seqs
      → Returns (Collected rounds pid seqs) (collect host t rounds pid seqs)
  unfolding collect
  collect-Collected zero pid seqs e = (refl, λ i b. refl, λ i b l. absurd (omega arith))
  collect-Collected (suc rounds) pid seqs e =
      Returns->>= _ (Collected (suc rounds) pid seqs) (client_for_id t.processes t.clients pid) _
        (Returns-trivial _)
        (λ client _.
          Returns->>= (Exchanged host t.id t.msg_id pid seqs (t.ack_arrivals pid))
            (Collected (suc rounds) pid seqs) _ _
            (send_data_msg-Exchanged host client t.id pid (data_msg host t) seqs
              (t.ack_arrivals pid))
            (λ log x. elim x [
              | inl b ↦ rw (acknowledged-blocked pid log b) (omega arith, omega arith)
              | inr (a, (bytes, seq, arrives, q, ack)) ↦
                  rw (acknowledged-acked pid log a, q)
                    (Returns-mono _ (Collected (suc rounds) pid seqs)
                      (λ p h.
                        Collected-step rounds pid seq seqs p (omega arith) (bytes, arrives, ack) h)
                      _
                      (collect-Collected rounds (pid + 1) (set seqs pid seq)
                        (omega (arith, length-set seqs pid seq))))
            ]))
