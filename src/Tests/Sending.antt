-- ===== src/Tests/Sending.antt =====
-- SendWithAck and a sender thread at concrete clients and arrivals.
use total_order_multicast.Common.{
  ℕ, zero, suc, ◌+◌, ◌≤◌, ◌<◌, ◌≡◌, refl, ◌⊎◌, inl, inr, true, List, [], ◌∷◌, All, ok, Returns,
  arith,
}
use total_order_multicast.Message.Host.{load_u32, store_u32, htonl, ntohl}
use total_order_multicast.Message.{SeqMessage, AckMessage}
use total_order_multicast.Message.Valid.{valid_ack_msg, valid_seq_ack_msg}
use total_order_multicast.Message.Wire.{
  field_at, field_bytes, data_msg_bytes, ack_msg_bytes, seq_ack_msg_bytes, ack_msg_from_buf,
  seq_ack_msg_from_buf,
}
use total_order_multicast.Net.{str_eq, address_eq}
use total_order_multicast.Udp.{
  ServerAction, Arrival, datagram, failure, acked, SendLog, receive_buffer, receive_count,
  send_with_ack, unlimited_attempts,
}
use total_order_multicast.Udp.Ack.{
  StateOf, send_with_ack-StateOf, BacksOff, send_with_ack-backoffs, Limited, send_with_ack-attempts,
}
use total_order_multicast.Udp.Return.{Answered, send_with_ack-returns}
use total_order_multicast.Sender.{
  finished, client_for_id, find_client, Sending, handle_ack, select_final, multicast,
}
use total_order_multicast.Sender.Collect.{handle_ack-IsQuiet}
use total_order_multicast.Sender.Selection.{IsFirst, select_final-Selects}
use total_order_multicast.Sender.Announce.{Confirms}
use total_order_multicast.Sender.Termination.{Answers, Comes, multicast-Finishes}
use total_order_multicast.Sender.Multicast.{Decided, Multicasts, multicast-Multicasts}
use total_order_multicast.Tests.Sites.{pc, mainframe, two_processes, open_client, data_of}

abbrev ack_of : ℕ → ℕ → AckMessage
ack_of seq proposer = record {
  type = 0;
  sender = 0;
  msg_id = 7;
  proposed_seq = seq;
  proposer = proposer;
}

-- A timeout, an acknowledgement by the wrong process, and the right one.
abbrev some_arrivals : List Arrival
some_arrivals =
    failure true
    ∷ datagram (ack_msg_bytes mainframe (ack_of 5 0))
    ∷ datagram (ack_msg_bytes mainframe (ack_of 4 1))
    ∷ []

abbrev callback : List ℕ → List ℕ → ℕ → List ℕ × ServerAction
callback = handle_ack pc 0 7 1

abbrev wire : List ℕ
wire = data_msg_bytes pc (data_of 0 7)

abbrev two_zeros : List ℕ
two_zeros = 0 ∷ 0 ∷ []

send_with_ack-StateOf_example :
    Returns
      (StateOf open_client wire callback two_zeros some_arrivals)
      (send_with_ack open_client wire callback unlimited_attempts two_zeros some_arrivals)
send_with_ack-StateOf_example =
    send_with_ack-StateOf open_client wire callback two_zeros
      (handle_ack-IsQuiet pc 0 7 1 two_zeros open_client wire) unlimited_attempts some_arrivals

send_with_ack-backoffs_example :
    Returns
      (BacksOff open_client wire callback two_zeros 0)
      (send_with_ack open_client wire callback unlimited_attempts two_zeros some_arrivals)
send_with_ack-backoffs_example =
    send_with_ack-backoffs open_client wire callback two_zeros
      (handle_ack-IsQuiet pc 0 7 1 two_zeros open_client wire) unlimited_attempts some_arrivals

send_with_ack-attempts_example :
    Returns
      (Limited open_client wire callback two_zeros 2)
      (send_with_ack open_client wire callback 2 two_zeros some_arrivals)
send_with_ack-attempts_example =
    send_with_ack-attempts open_client wire callback two_zeros
      (handle_ack-IsQuiet pc 0 7 1 two_zeros open_client wire) 2 some_arrivals (omega arith)

-- The right acknowledgement is among the arrivals.
some_arrivals-Answered : Answered callback two_zeros some_arrivals
unfolding handle_ack ack_msg_from_buf ack_msg_bytes field_at field_bytes load_u32 store_u32 htonl
    ntohl receive_buffer receive_count valid_ack_msg
some_arrivals-Answered = (refl, inr (refl, inl (_, refl)))

send_with_ack-returns_example :
    (log : SendLog (List ℕ)) × (send_with_ack open_client wire callback unlimited_attempts two_zeros
        some_arrivals
      ≡ ok log)
    × (log.finish ≡ acked)
send_with_ack-returns_example =
    send_with_ack-returns open_client wire callback two_zeros refl some_arrivals
      some_arrivals-Answered

select_final-Selects_example :
    let (f, p) = select_final (3 ∷ 5 ∷ 5 ∷ []) 0 0 0 in
    All (λ s. s ≤ f) (3 ∷ 5 ∷ 5 ∷ [])
    × (((f ≡ 0) × (p ≡ 0)) ⊎ ((0 < f) × IsFirst (3 ∷ 5 ∷ 5 ∷ []) p f))
select_final-Selects_example = select_final-Selects (3 ∷ 5 ∷ 5 ∷ [])

-- The thread of message 7 of process 0, with the acknowledgements of both processes.
abbrev some_sending : Sending
some_sending = record {
  processes = two_processes;
  clients =
      record { address = record { hostname = []; port = 1234 }; client = open_client }
      ∷ record { address = record { hostname = []; port = 1235 }; client = open_client }
      ∷ [];
  id = 0;
  msg_id = 7;
  payload = 5;
  ack_arrivals = λ pid. datagram (ack_msg_bytes mainframe (ack_of (4 + pid) pid)) ∷ [];
  seq_ack_arrivals = λ pid.
      datagram (seq_ack_msg_bytes mainframe (record { type = 0; sender = 0; msg_id = 7 })) ∷ [];
}

multicast-Multicasts_example : Returns (Multicasts pc some_sending) (multicast pc some_sending)
multicast-Multicasts_example = multicast-Multicasts pc some_sending

some_sending-Answers : (pid : ℕ) → pid < 2 → Answers pc some_sending pid
unfolding client_for_id find_client address_eq str_eq ack_msg_from_buf ack_msg_bytes field_at
    field_bytes load_u32 store_u32 htonl ntohl receive_buffer receive_count valid_ack_msg
some_sending-Answers zero h = (
  (open_client, refl, λ buf. refl),
  inl (4, (record (ack_of 4 0) { type = 2 }, refl, refl, refl)),
)
some_sending-Answers (suc zero) h = (
  (open_client, refl, λ buf. refl),
  inl (5, (record (ack_of 5 1) { type = 2 }, refl, refl, refl)),
)
some_sending-Answers (suc (suc pid)) h = absurd (omega arith)

some_sending-Confirms :
    (m : SeqMessage) (pid : ℕ)
    → m.sender ≡ 0
    → m.msg_id ≡ 7
    → pid < 2
    → Comes (Confirms pc m) (some_sending.seq_ack_arrivals pid)
unfolding seq_ack_msg_from_buf seq_ack_msg_bytes field_at field_bytes load_u32 store_u32 htonl ntohl
    receive_buffer receive_count valid_seq_ack_msg
some_sending-Confirms m pid e f h =
    inl (record { type = 4; sender = 0; msg_id = 7 }, refl, ground arith)

multicast-Finishes_example :
    (m : SeqMessage) × (multicast pc some_sending ≡ ok (finished m)) × Decided pc some_sending m
multicast-Finishes_example =
    multicast-Finishes pc some_sending some_sending-Answers some_sending-Confirms
