-- ===== src/Tests/Threads.antt =====
-- A run of a group of two processes on hosts of different byte order: each sends a message, the two
-- DataMessages arrive in different orders, and the last SeqMessage has not reached one of them.
use total_order_multicast.Common.{ℕ, zero, suc, ◌+◌, ◌≡◌, refl, false, List, [], ◌∷◌, ◌++◌}
use total_order_multicast.Common.OrderedSet
use total_order_multicast.Message.Host.{Host, load_u32, store_u32, htonl, ntohl}
use total_order_multicast.Message.{DataMessage, AckMessage, SeqMessage}
use total_order_multicast.Message.Valid.{valid_data_msg, valid_ack_msg, valid_seq_msg}
use total_order_multicast.Message.Wire.{
  message_type_from_buf, data_msg_from_buf, ack_msg_from_buf, seq_msg_from_buf, field_at,
  field_bytes, data_msg_bytes, seq_msg_bytes, ack_msg_bytes, seq_ack_msg_bytes,
}
use total_order_multicast.HoldBack.{
  PendingMessageKey, lookup, insert_undeliverable, set_deliverable, reorder, deliver_ready,
  to_deliver, before, find, assign, remove,
}
use total_order_multicast.Net.{str_eq, address_eq}
use total_order_multicast.Udp.{
  Arrival, datagram, receive_buffer, receive_count, send, send_loop, send_with_ack, decrement,
  next_backoff,
}
use total_order_multicast.Process.{
  on_receive, dispatch, handle_data_msg, handle_seq_msg, accept_data, accept_seq, propose, reply,
  finalize, forward_seq_num, next_seq_num,
}
use total_order_multicast.Sender.{
  Sending, client_for_id, find_client, select_final, handle_ack, send_data_msg, acknowledged,
  collect,
}
use total_order_multicast.Network.{
  Network, Group, Action, send_data, send_seq, receive_data, receive_seq, collected, perform,
}
use total_order_multicast.Network.Order.{terminal, log}
use total_order_multicast.Tests.Sites.{pc, mainframe, two_processes, open_client, data_of, seq_of}

abbrev pub host_of : ℕ → Host
host_of zero = pc
host_of (suc i) = mainframe

abbrev pub pair : Group
pair = record {
  hosts = host_of;
  processes = two_processes;
  ports = λ i. 1234 + i;
  delays = λ i. false;
}

abbrev pub ack_of : ℕ → ℕ → ℕ → ℕ → AckMessage
ack_of sender msg_id seq proposer = record {
  type = 0;
  sender = sender;
  msg_id = msg_id;
  proposed_seq = seq;
  proposer = proposer;
}

-- The acknowledgement that each process sends for the message.
abbrev pub acks : ℕ → ℕ → ℕ → ℕ → ℕ → List Arrival
acks sender msg_id seq_0 seq_1 zero =
    datagram (ack_msg_bytes pc (ack_of sender msg_id seq_0 0)) ∷ []
acks sender msg_id seq_0 seq_1 (suc zero) =
    datagram (ack_msg_bytes mainframe (ack_of sender msg_id seq_1 1)) ∷ []
acks sender msg_id seq_0 seq_1 (suc (suc pid)) = []

abbrev pub thread_of : ℕ → ℕ → ℕ → ℕ → Sending
thread_of sender msg_id seq_0 seq_1 = record {
  processes = two_processes;
  clients =
      record { address = record { hostname = []; port = 1234 }; client = open_client }
      ∷ record { address = record { hostname = []; port = 1235 }; client = open_client }
      ∷ [];
  id = sender;
  msg_id = msg_id;
  payload = 5;
  ack_arrivals = acks sender msg_id seq_0 seq_1;
  seq_ack_arrivals = λ pid. [];
}

abbrev pub thread_7 : Sending
thread_7 = thread_of 0 7 1 2

abbrev pub thread_9 : Sending
thread_9 = thread_of 1 9 2 1

abbrev pub data_7 : DataMessage
data_7 = record (data_of 0 7) { type = 77 }

abbrev pub data_9 : DataMessage
data_9 = data_of 1 9

abbrev pub seq_7 : SeqMessage
seq_7 = record (seq_of 0 7 2 1) { type = 77 }

abbrev pub seq_9 : SeqMessage
seq_9 = seq_of 1 9 2 0

-- Up to the point where both SeqMessages have been sent.
abbrev pub first_actions : List Action
first_actions =
    send_data thread_7
    ∷ send_data thread_9
    ∷ receive_data 0 open_client data_7
    ∷ receive_data 1 open_client data_9
    ∷ receive_data 0 open_client data_9
    ∷ receive_data 1 open_client data_7
    ∷ send_seq thread_7
    ∷ send_seq thread_9
    ∷ receive_seq 0 open_client seq_9
    ∷ receive_seq 0 open_client seq_7
    ∷ receive_seq 1 open_client seq_7
    ∷ []

unfoldable pub run_of : List Action → Network
unfolding perform collected collect client_for_id find_client address_eq str_eq send_data_msg
    send_with_ack send_loop send decrement next_backoff handle_ack acknowledged select_final
    on_receive dispatch handle_data_msg handle_seq_msg accept_data accept_seq propose reply finalize
    forward_seq_num next_seq_num receive_buffer receive_count message_type_from_buf
    data_msg_from_buf ack_msg_from_buf seq_msg_from_buf field_at data_msg_bytes seq_msg_bytes
    ack_msg_bytes seq_ack_msg_bytes field_bytes load_u32 store_u32 htonl ntohl valid_data_msg
    valid_ack_msg valid_seq_msg lookup insert_undeliverable set_deliverable reorder deliver_ready
    to_deliver before find assign remove OrderedSet.count OrderedSet.insert OrderedSet.erase
run_of actions = terminal pair actions

abbrev pub key_7 : PendingMessageKey
key_7 = record { sender = 0; msg_id = 7 }

abbrev pub key_9 : PendingMessageKey
key_9 = record { sender = 1; msg_id = 9 }

log_0 : log pair first_actions 0 ≡ key_7 ∷ key_9 ∷ []
unfolding run_of
log_0 = refl

log_1 : log pair first_actions 1 ≡ []
unfolding run_of
log_1 = refl

-- The last SeqMessage arrives, one that was handled before comes once more, and both processes are at
-- rest.
abbrev pub last_actions : List Action
last_actions = receive_seq 1 open_client seq_9 ∷ receive_seq 0 open_client seq_9 ∷ []

abbrev pub all_actions : List Action
all_actions = first_actions ++ last_actions
