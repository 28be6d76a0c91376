-- ===== src/Udp/Mutex/Holds.antt =====
-- src/udp_conn.h and src/udp_conn.cc: what a thread with its turn finds, and its moves.
use total_order_multicast.Common.{ℕ, ◌≡◌, refl, ap, ◌∙◌, true, false, List, [], ◌∷◌, ◌++◌, All}
use total_order_multicast.Udp.{Client, Arrival, datagram, failure, unsent, send_with_ack}
use total_order_multicast.Udp.Mutex.{
  unlocked, locked, Call, Frame, Pc, outside, looping, sending, receiving, sent, received, Shared,
  Move, enter, give_up, start, transmit, refuse, refuse_now, time_out, fail, accept, ignore,
  sending_alone, enter_send, transmit_alone, refuse_alone, summary, replay, first_frame, no_limit,
  goes_on,
}
use total_order_multicast.Udp.Mutex.Threads.{rounds, past, AsAlone}
use total_order_multicast.Udp.Mutex.Loop.{
  result_from, send-ok, send-throw, loop-exhausted, loop-refused, loop-unsent, loop-timeout,
  loop-failure, loop-accepted, loop-ignored,
}
use total_order_multicast.Udp.Mutex.Lock.{lock-unlocked, lock-again, unlock-nested, unlock-last}

module _ {S : Type 0} (client : Client) where
  -- The call ends as it would on its own, with what it has seen and whatever arrives after that.
  abbrev pub IsOnCourse : Frame S → Type 0
  IsOnCourse f =
      (rest : List Arrival)
      → summary (
          send_with_ack client f.call.buf f.call.valid_ack f.call.attempts f.call.state
            (replay f.seen rest))
        ≡ result_from client f.call.buf f.call.valid_ack (no_limit f.call) f.attempts f.mult f.state
            rest

  -- What a thread finds that is the only one in the client.
  abbrev pub Holds : ℕ → Shared S → Pc S → Type 0
  Holds t m outside = (m.mutex ≡ unlocked) × (m.socket ≡ past m.returned)
  Holds t m (looping f) =
      (m.mutex ≡ locked t 1)
      × (m.socket ≡ rounds t f.call.buf f.seen ++ past m.returned)
      × IsOnCourse f
  Holds t m (sending f) =
      (m.mutex ≡ locked t 2)
      × (m.socket ≡ rounds t f.call.buf f.seen ++ past m.returned)
      × IsOnCourse f
      × (goes_on f ≡ true)
  Holds t m (receiving f) =
      (m.mutex ≡ locked t 1)
      × (m.socket ≡ (t, sent f.call.buf) ∷ rounds t f.call.buf f.seen ++ past m.returned)
      × IsOnCourse f
      × (goes_on f ≡ true)
      × (client.sendto f.call.buf ≡ true)
  Holds t m (sending_alone buf) = (m.mutex ≡ locked t 1) × (m.socket ≡ past m.returned)

  first-IsOnCourse : (c : Call S) → IsOnCourse (first_frame c)
  unfolding send_with_ack
  first-IsOnCourse c rest = refl

  pub Move-After :
      (t : ℕ) (m : Shared S) {p : Pc S} {m' : Shared S} {p' : Pc S}
      → Move client t m p m' p'
      → Holds t m p
      → All (AsAlone client) m.returned
      → Holds t m' p' × All (AsAlone client) m'.returned
  Move-After t m (enter c x l) (free, log) done =
      ((lock-unlocked t m.mutex x free l, log, first-IsOnCourse c), done)
  Move-After t m (give_up f e) (held, log, on) done = (
    (unlock-last t m.mutex held, log),
    (
      on []
          ∙ loop-exhausted client f.call.buf f.call.valid_ack (no_limit f.call) f.attempts f.mult
              f.state e,
      done,
    ),
  )
  Move-After t m (start f x e l) (held, log, on) done =
      ((lock-again t 1 m.mutex x held l, log, on, e), done)
  Move-After t m (transmit f e) (held, log, on, more) done =
      ((unlock-nested t m.mutex held, ap (λ l. (t, sent f.call.buf) ∷ l) log, on, more, e), done)
  Move-After t m (refuse f e) (held, log, on, more) done = (
    (unlock-last t _ (unlock-nested t m.mutex held), log),
    (
      on []
          ∙ loop-refused client f.call.buf f.call.valid_ack (no_limit f.call) f.attempts f.mult
              f.state more e,
      done,
    ),
  )
  Move-After t m (refuse_now f) (held, log, on, more) done = (
    (unlock-last t _ (unlock-nested t m.mutex held), log),
    (
      on (unsent ∷ [])
          ∙ loop-unsent client f.call.buf f.call.valid_ack (no_limit f.call) f.attempts f.mult
              f.state more,
      done,
    ),
  )
  Move-After t m (time_out f) (held, log, on, more, ready) done = (
    (
      held,
      ap (λ l. (t, received (failure true)) ∷ l) log,
      λ rest.
          on (failure true ∷ rest)
          ∙ loop-timeout client f.call.buf f.call.valid_ack (no_limit f.call) f.attempts f.mult
              f.state more ready rest,
    ),
    done,
  )
  Move-After t m (fail f) (held, log, on, more, ready) done = (
    (unlock-last t m.mutex held, ap (λ l. (t, received (failure false)) ∷ l) log),
    (
      on (failure false ∷ [])
          ∙ loop-failure client f.call.buf f.call.valid_ack (no_limit f.call) f.attempts f.mult
              f.state more ready [],
      done,
    ),
  )
  Move-After t m (accept f bytes s e) (held, log, on, more, ready) done = (
    (unlock-last t m.mutex held, ap (λ l. (t, received (datagram bytes)) ∷ l) log),
    (
      on (datagram bytes ∷ [])
          ∙ loop-accepted client f.call.buf f.call.valid_ack (no_limit f.call) f.attempts f.mult
              f.state more ready [] bytes s e,
      done,
    ),
  )
  Move-After t m (ignore f bytes s e) (held, log, on, more, ready) done = (
    (
      held,
      ap (λ l. (t, received (datagram bytes)) ∷ l) log,
      λ rest.
          on (datagram bytes ∷ rest)
          ∙ loop-ignored client f.call.buf f.call.valid_ack (no_limit f.call) f.attempts f.mult
              f.state more ready rest bytes s e,
    ),
    done,
  )
  Move-After t m (enter_send buf x l) (free, log) done =
      ((lock-unlocked t m.mutex x free l, log), done)
  Move-After t m (transmit_alone buf e) (held, log) done =
      ((unlock-last t m.mutex held, ap (λ l. (t, sent buf) ∷ l) log), (send-ok client buf e, done))
  Move-After t m (refuse_alone buf e) (held, log) done =
      ((unlock-last t m.mutex held, log), (send-throw client buf e, done))
