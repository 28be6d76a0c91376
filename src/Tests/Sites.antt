-- ===== src/Tests/Sites.antt =====
-- Two processes that receive two messages and their final numbers, in different orders.
use total_order_multicast.Common.{
  ℕ, ◌≡◌, refl, true, false, none, some, List, [], ◌∷◌, Result, ok, throw, arith,
}
use total_order_multicast.Message.Host.{Host, Endian, load_u32, store_u32, htonl, ntohl}
use total_order_multicast.Message.{DataMessage, SeqMessage}
use total_order_multicast.Message.Wire.{
  message_type_from_buf, data_msg_from_buf, seq_msg_from_buf, field_at, field_bytes, data_msg_bytes,
  seq_msg_bytes, ack_msg_bytes, seq_ack_msg_bytes,
}
use total_order_multicast.Message.Valid.{valid_data_msg, valid_seq_msg}
use total_order_multicast.HoldBack.{
  PendingMessageKey, lookup, insert_undeliverable, set_deliverable, reorder, deliver_ready,
  to_deliver, before, find, assign, remove,
}
use total_order_multicast.Net.{Address}
use total_order_multicast.Udp.{
  Client, Incoming, packet, no_packet, ServerAction, receive_buffer, receive_count, Serving,
  waiting, listen, send,
}
use total_order_multicast.Common.OrderedSet
use total_order_multicast.Process.{
  Node, serve, on_receive, dispatch, handle_data_msg, handle_seq_msg, accept_data, accept_seq,
  propose, reply, finalize, forward_seq_num, next_seq_num,
}
use total_order_multicast.Process.Final.{IsAgreed}
use total_order_multicast.Process.Server.{Site, initial, outcome, receive, AllSafe, AllSafe-step}

abbrev pub pc : Host
pc = record { endian = Endian.little; uninit = 77 }

abbrev pub mainframe : Host
mainframe = record { endian = Endian.big; uninit = 0 }

abbrev pub two_processes : List Address
two_processes = record { hostname = []; port = 1234 } ∷ record { hostname = []; port = 1235 } ∷ []

abbrev pub open_client : Client
open_client = record {
  timeout = none;
  remote_address = record { ip = 0; sin_port = 0 };
  sendto = λ _. true;
}

abbrev pub data_of : ℕ → ℕ → DataMessage
data_of sender msg_id = record { type = 0; sender = sender; msg_id = msg_id; payload = 5 }

abbrev pub seq_of : ℕ → ℕ → ℕ → ℕ → SeqMessage
seq_of sender msg_id seq proposer = record {
  type = 0;
  sender = sender;
  msg_id = msg_id;
  final_seq = seq;
  final_seq_proposer = proposer;
}

abbrev pub data_packet : Host → ℕ → ℕ → Incoming
data_packet host sender msg_id =
    packet (some open_client) (data_msg_bytes host (data_of sender msg_id))

abbrev pub seq_packet : Host → ℕ → ℕ → ℕ → ℕ → Incoming
seq_packet host sender msg_id seq proposer =
    packet (some open_client) (seq_msg_bytes host (seq_of sender msg_id seq proposer))

abbrev pub site_of : Host → ℕ → List Incoming → Site
site_of host id incoming = record {
  host = host;
  processes = two_processes;
  id = id;
  server_port = 1234;
  delays = false;
  incoming = incoming;
}

-- Process 0 sends message 7 and process 1 sends message 9.
abbrev pub site_0 : Site
site_0 = site_of pc 0 (
    data_packet pc 0 7
    ∷ data_packet mainframe 1 9
    ∷ seq_packet mainframe 1 9 2 0
    ∷ seq_packet pc 0 7 2 1
    ∷ [])

abbrev pub site_1 : Site
site_1 = site_of mainframe 1 (
    data_packet mainframe 1 9
    ∷ data_packet pc 0 7
    ∷ seq_packet pc 0 7 2 1
    ∷ seq_packet mainframe 1 9 2 0
    ∷ [])

-- The outcome with every definition of the program open.
unfoldable pub run : Site → Result (Serving Node)
unfolding serve listen on_receive dispatch handle_data_msg handle_seq_msg accept_data accept_seq
    propose reply finalize forward_seq_num next_seq_num send receive_buffer receive_count
    message_type_from_buf data_msg_from_buf seq_msg_from_buf field_at data_msg_bytes seq_msg_bytes
    ack_msg_bytes seq_ack_msg_bytes field_bytes load_u32 store_u32 htonl ntohl valid_data_msg
    valid_seq_msg lookup insert_undeliverable set_deliverable reorder deliver_ready to_deliver
    before find assign remove OrderedSet.count OrderedSet.insert OrderedSet.erase
run s = outcome s

-- The state after one datagram.
abbrev pub next : Host → Node → Client → List ℕ → Node
next host node client bytes = elim (receive host node client bytes) [
  | ok (after, action) ↦ after
  | throw x ↦ node
]

-- The state after a list of them.
abbrev pub after_all : Host → Node → List Incoming → Node
after_all host node [] = node
after_all host node (packet (some client) bytes ∷ rest) =
    after_all host (next host node client bytes) rest
after_all host node (i ∷ rest) = after_all host node rest

abbrev pub node_0 : Node
node_0 = after_all pc (initial site_0) site_0.incoming

abbrev pub node_1 : Node
node_1 = after_all mainframe (initial site_1) site_1.incoming

pub outcome_0 : outcome site_0 ≡ ok (waiting node_0)
unfolding run
outcome_0 = refl

pub outcome_1 : outcome site_1 ≡ ok (waiting node_1)
unfolding run
outcome_1 = refl

-- The number that each of the two messages got.
abbrev pub final_of : PendingMessageKey → ℕ
final_of k = 2

-- Safety along the states of `next`.
abbrev pub SafeRun : Host → (Node → Client → List ℕ → Type 0) → Node → List Incoming → Type 0
SafeRun host Safe node [] = Unit
SafeRun host Safe node (packet (some client) bytes ∷ rest) =
    Safe node client bytes
    × (receive host node client bytes ≡ ok (next host node client bytes, ServerAction.continue))
    × SafeRun host Safe (next host node client bytes) rest
SafeRun host Safe node (packet none bytes ∷ rest) = Unit
SafeRun host Safe node (no_packet t ∷ rest) = Unit

pub SafeRun-AllSafe :
    (host : Host) (Safe : Node → Client → List ℕ → Type 0) (node : Node) (incoming : List Incoming)
    → SafeRun host Safe node incoming
    → AllSafe host Safe node incoming
SafeRun-AllSafe host Safe node [] h = tt
SafeRun-AllSafe host Safe node (packet (some client) bytes ∷ rest) h =
    AllSafe-step host Safe node _ client bytes rest h.0 h.1
      (SafeRun-AllSafe host Safe (next host node client bytes) rest h.2)
SafeRun-AllSafe host Safe node (packet none bytes ∷ rest) h = tt
SafeRun-AllSafe host Safe node (no_packet t ∷ rest) h = tt

pub safe_0 : AllSafe pc (IsAgreed final_of pc) (initial site_0) site_0.incoming
unfolding run
safe_0 = SafeRun-AllSafe pc (IsAgreed final_of pc) (initial site_0) site_0.incoming (
  ((omega arith, λ m e v f. cc), λ m e. cc),
  refl,
  (
    ((omega arith, λ m e v f. cc), λ m e. cc),
    refl,
    (
      ((omega arith, λ m e v f. ground arith), λ m e. cc),
      refl,
      (((omega arith, λ m e v f. ground arith), λ m e. cc), refl, tt),
    ),
  ),
)

pub safe_1 : AllSafe mainframe (IsAgreed final_of mainframe) (initial site_1) site_1.incoming
unfolding run
safe_1 = SafeRun-AllSafe mainframe (IsAgreed final_of mainframe) (initial site_1) site_1.incoming (
  ((omega arith, λ m e v f. cc), λ m e. cc),
  refl,
  (
    ((omega arith, λ m e v f. cc), λ m e. cc),
    refl,
    (
      ((omega arith, λ m e v f. ground arith), λ m e. cc),
      refl,
      (((omega arith, λ m e v f. ground arith), λ m e. cc), refl, tt),
    ),
  ),
)
