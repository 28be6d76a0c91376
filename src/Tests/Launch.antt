-- ===== src/Tests/Launch.antt =====
-- The sender threads of a process: both answered, and refused by sendto.
use total_order_multicast.Common.{
  ℕ, zero, suc, ◌<◌, ◌≡◌, refl, false, tabulate, List, [], ◌∷◌, inl, arith, ◌+◌,
}
use total_order_multicast.Message.Host.{load_u32, store_u32, htonl, ntohl}
use total_order_multicast.Message.{SeqMessage}
use total_order_multicast.Message.Valid.{valid_ack_msg, valid_seq_ack_msg}
use total_order_multicast.Message.Wire.{
  field_at, field_bytes, ack_msg_bytes, seq_ack_msg_bytes, ack_msg_from_buf, seq_ack_msg_from_buf,
}
use total_order_multicast.Net.{str_eq, address_eq}
use total_order_multicast.Udp.{Client, datagram, receive_buffer, receive_count}
use total_order_multicast.Thread.{joined, join_all}
use total_order_multicast.Process.{Process, new_process}
use total_order_multicast.Sender.{ClientEntry, client_for_id, find_client}
use total_order_multicast.Sender.Announce.{Confirms}
use total_order_multicast.Sender.Termination.{Answers, Comes}
use total_order_multicast.Sender.Launch.{
  Draws, unique_id, sending_of, total_order, sender_thread, total_order-senders, total_order-joined,
}
use total_order_multicast.Tests.Sites.{pc, mainframe, two_processes, open_client}
use total_order_multicast.Tests.Threads.{ack_of}

abbrev sender : Process
sender = new_process two_processes 0 1234 false

abbrev entries : Client → List ClientEntry
entries client =
    record { address = record { hostname = []; port = 1234 }; client = client }
    ∷ record { address = record { hostname = []; port = 1235 }; client = client }
    ∷ []

-- Thread `i` draws message id `7 + i`, and each process answers it.
abbrev answered : ℕ → Draws
answered i = record {
  id_draw = 7 + i;
  data_draw = 5;
  ack_arrivals = λ pid. datagram (ack_msg_bytes mainframe (ack_of 0 (7 + i) 4 pid)) ∷ [];
  seq_ack_arrivals = λ pid.
      datagram (seq_ack_msg_bytes mainframe (record { type = 0; sender = 0; msg_id = 7 + i })) ∷ [];
}

total_order-senders_example :
    (total_order pc sender (entries open_client) answered 2 []).senders.threads
    ≡ tabulate (sender_thread pc sender (entries open_client) answered) 0 2
total_order-senders_example = total_order-senders pc sender (entries open_client) answered 2 []

answered-Answers :
    (i pid : ℕ)
    → i < 2
    → pid < 2
    → Answers pc (sending_of sender (entries open_client) (answered i)) pid
unfolding sending_of client_for_id find_client address_eq str_eq ack_msg_from_buf ack_msg_bytes
    field_at field_bytes load_u32 store_u32 htonl ntohl receive_buffer receive_count valid_ack_msg
answered-Answers zero zero h l = (
  (open_client, refl, λ buf. refl),
  inl (4, (record (ack_of 0 7 4 0) { type = 2 }, refl, refl, refl)),
)
answered-Answers zero (suc zero) h l = (
  (open_client, refl, λ buf. refl),
  inl (4, (record (ack_of 0 7 4 1) { type = 2 }, refl, refl, refl)),
)
answered-Answers (suc zero) zero h l = (
  (open_client, refl, λ buf. refl),
  inl (4, (record (ack_of 0 8 4 0) { type = 2 }, refl, refl, refl)),
)
answered-Answers (suc zero) (suc zero) h l = (
  (open_client, refl, λ buf. refl),
  inl (4, (record (ack_of 0 8 4 1) { type = 2 }, refl, refl, refl)),
)
answered-Answers (suc (suc i)) pid h l = absurd (omega arith)
answered-Answers i (suc (suc pid)) h l = absurd (omega arith)

answered-Confirms :
    (i pid : ℕ) (m : SeqMessage)
    → i < 2
    → pid < 2
    → m.sender ≡ 0
    → m.msg_id ≡ unique_id (answered i)
    → Comes (Confirms pc m) ((answered i).seq_ack_arrivals pid)
unfolding seq_ack_msg_from_buf seq_ack_msg_bytes field_at field_bytes load_u32 store_u32 htonl ntohl
    receive_buffer receive_count valid_seq_ack_msg
answered-Confirms zero pid m h l e f =
    inl (record { type = 4; sender = 0; msg_id = 7 }, refl, ground arith)
answered-Confirms (suc zero) pid m h l e f =
    inl (record { type = 4; sender = 0; msg_id = 8 }, refl, ground arith)
answered-Confirms (suc (suc i)) pid m h l e f = absurd (omega arith)

total_order-joined_example :
    join_all (total_order pc sender (entries open_client) answered 2 []).senders
    ≡ joined (record { threads = [] })
total_order-joined_example =
    total_order-joined pc sender (entries open_client) answered 2 [] answered-Answers
      answered-Confirms
