-- ===== src/Sender.antt =====
-- src/process.cc: the UDP clients of a process, SendDataMsg, SendSeqMsg, and the sender thread of
-- LaunchMulticastSender. The arrivals at each client's socket are a parameter, as are the random
-- numbers, and how a client is made for an address, which `make_client` gives over a name service.
pub mod Selection
pub mod Collect
pub mod Announce
pub mod Multicast
pub mod Termination
pub mod Launch
pub mod Clients
use total_order_multicast.Common.{
  ℕ, Bool, ◌==◌, zero, suc, ◌+◌, not, List, [], ◌∷◌, Option, none, some, length, get_elem?, set,
  replicate, ltb, if◌then◌else◌, Result, ok, throw, ◌>>=◌, Exception, ◌≡◌, arith,
}
use total_order_multicast.Message.Host.{Host}
use total_order_multicast.Message.{DataMessage, SeqMessage}
use total_order_multicast.Message.Valid.{valid_ack_msg, valid_seq_ack_msg}
use total_order_multicast.Message.Wire.{
  ack_msg_from_buf, seq_ack_msg_from_buf, data_msg_bytes, seq_msg_bytes,
}
use total_order_multicast.Net.{Address, address_eq}
use total_order_multicast.Udp.{
  Client, SocketCalls, ServerAction, Arrival, SendLog, acked, exhausted, blocked,
  unlimited_attempts, send_with_ack,
}
use total_order_multicast.Udp.Socket.{NameService, client_to}

-- An entry of UdpClientMap.
pub record ClientEntry : Type 0 where
  pub address : Address
  pub client : Client

unfoldable pub find_client : Address → List ClientEntry → Option Client
find_client a [] = none
find_client a (e ∷ es) = if address_eq e.address a then some e.client else find_client a es

-- `clients.emplace`: an entry that is there is kept.
unfoldable pub emplace : Address → Client → List ClientEntry → List ClientEntry
emplace a c [] = record { address = a; client = c } ∷ []
emplace a c (e ∷ es) = if address_eq e.address a then e ∷ es else e ∷ emplace a c es

-- The loop of ClientsForProcessList. `connect` makes the client for an address, or throws.
unfoldable pub add_clients :
    (Address → Result Client) → List Address → List ClientEntry → Result (List ClientEntry)
add_clients connect [] clients = ok clients
add_clients connect (a ∷ rest) clients =
    connect a >>= (λ c. add_clients connect rest (emplace a c clients))

abbrev pub ack_timeout : ℕ
ack_timeout = 250000

-- The client that ClientsForProcessList makes for an address; `sendto` tells what its socket accepts.
abbrev pub make_client :
    Host → NameService → SocketCalls → (Address → List ℕ → Bool) → Address → Result Client
make_client host names os sendto addr = client_to host names os (sendto addr) addr ack_timeout

unfoldable pub clients_for_process_list :
    (Address → Result Client) → List Address → Result (List ClientEntry)
clients_for_process_list connect processes = add_clients connect processes []

-- `at` on a vector and on a map.
abbrev pub or_out_of_range {ℓ} : {A : Type ℓ} → Option A → Result A
or_out_of_range none = throw Exception.out_of_range
or_out_of_range (some a) = ok a

unfoldable pub client_for_id : List Address → List ClientEntry → ℕ → Result Client
client_for_id processes clients pid =
    or_out_of_range (get_elem? processes pid) >>= (λ a. or_out_of_range (find_client a clients))

-- The loop that picks the final sequence number: the largest proposal, by its first proposer.
unfoldable pub select_final : List ℕ → ℕ → ℕ → ℕ → ℕ × ℕ
select_final [] pid final_seq final_seq_proposer = (final_seq, final_seq_proposer)
select_final (seq ∷ seqs) pid final_seq final_seq_proposer =
    select_final seqs (pid + 1) (if ltb final_seq seq then seq else final_seq)
      (if ltb final_seq seq then pid else final_seq_proposer)

module _ (host : Host) where
  -- The callback `handle_ack`: record the number of a valid acknowledgement.
  unfoldable pub handle_ack : ℕ → ℕ → ℕ → List ℕ → List ℕ → ℕ → List ℕ × ServerAction
  handle_ack id msg_id pid seqs buf n = elim (ack_msg_from_buf host buf n) [
    | none ↦ (seqs, ServerAction.continue)
    | some ack ↦
        if not (valid_ack_msg ack id msg_id pid)
        then (seqs, ServerAction.continue)
        else (set seqs pid ack.proposed_seq, ServerAction.stop)
  ]

  -- SendDataMsg with that callback.
  unfoldable pub send_data_msg :
      Client → ℕ → ℕ → DataMessage → List ℕ → List Arrival → Result (SendLog (List ℕ))
  send_data_msg client id pid m seqs arrivals =
      send_with_ack client (data_msg_bytes host m) (handle_ack id m.msg_id pid) unlimited_attempts
        seqs arrivals

  -- The callback `isValidAck` of SendSeqMsg, which keeps no state.
  unfoldable pub is_valid_ack : SeqMessage → Unit {0} → List ℕ → ℕ → Unit {0} × ServerAction
  is_valid_ack orig u buf n = elim (seq_ack_msg_from_buf host buf n) [
    | none ↦ (u, ServerAction.continue)
    | some ack ↦
        if not (valid_seq_ack_msg ack orig)
        then (u, ServerAction.continue)
        else (u, ServerAction.stop)
  ]

  unfoldable pub send_seq_msg : Client → SeqMessage → List Arrival → Result (SendLog (Unit {0}))
  send_seq_msg client m arrivals =
      send_with_ack client (seq_msg_bytes host m) (is_valid_ack m) unlimited_attempts tt arrivals

-- A phase of the thread has finished, or waits forever for the process with an index.
pub data Phase (A : Type 0) : Type 0 where
  finished : A → Phase A
  waits_for : ℕ → Phase A

-- The state after a call of SendWithAck: without an acknowledgement the thread is still in it.
unfoldable pub acknowledged : {S : Type 0} → ℕ → SendLog S → Phase S
acknowledged pid log = elim log.finish [
  | acked ↦ finished log.state
  | exhausted ↦ finished log.state
  | blocked ↦ waits_for pid
]

pub acknowledged-blocked :
    {S : Type 0} (pid : ℕ) (log : SendLog S)
    → log.finish ≡ blocked
    → acknowledged pid log ≡ waits_for pid
unfolding acknowledged
acknowledged-blocked pid log e = ground arith

pub acknowledged-acked :
    {S : Type 0} (pid : ℕ) (log : SendLog S)
    → log.finish ≡ acked
    → acknowledged pid log ≡ finished log.state
unfolding acknowledged
acknowledged-acked pid log e = ground arith

abbrev pub then_phase : {A B : Type 0} → Phase A → (A → Result (Phase B)) → Result (Phase B)
then_phase (finished a) f = f a
then_phase (waits_for pid) f = ok (waits_for pid)

-- The tenths of a second that MaybeDelaySend sleeps, on a draw of the coin that skips the delay and
-- of the duration.
unfoldable pub maybe_delay_send : Bool → Bool → ℕ → ℕ
maybe_delay_send delays skips draw =
    if not delays then 0 else if skips then 0 else if draw == 0 then 0 else draw

-- What the sender thread of one message works with.
pub record Sending : Type 0 where
  pub processes : List Address
  pub clients : List ClientEntry
  pub id : ℕ
  pub msg_id : ℕ
  pub payload : ℕ
  -- What arrives at the client of each process, while it waits for the two acknowledgements.
  pub ack_arrivals : ℕ → List Arrival
  pub seq_ack_arrivals : ℕ → List Arrival

module _ (host : Host) (t : Sending) where
  abbrev pub data_msg : DataMessage
  data_msg = record { type = host.uninit; sender = t.id; msg_id = t.msg_id; payload = t.payload }

  -- The first loop, with `rounds` processes left from `pid` on.
  unfoldable pub collect : ℕ → ℕ → List ℕ → Result (Phase (List ℕ))
  collect zero pid seqs = ok (finished seqs)
  collect (suc rounds) pid seqs = client_for_id t.processes t.clients pid >>= (λ client.
      send_data_msg host client t.id pid data_msg seqs (t.ack_arrivals pid)
      >>= (λ log. then_phase (acknowledged pid log) (λ seqs'. collect rounds (pid + 1) seqs')))

  abbrev pub seq_msg : List ℕ → SeqMessage
  seq_msg seqs =
      let final = select_final seqs 0 0 0 in
      record {
        type = host.uninit;
        sender = t.id;
        msg_id = t.msg_id;
        final_seq = final.0;
        final_seq_proposer = final.1;
      }

  -- The last loop.
  unfoldable pub announce : ℕ → ℕ → SeqMessage → Result (Phase SeqMessage)
  announce zero pid m = ok (finished m)
  announce (suc rounds) pid m = client_for_id t.processes t.clients pid >>= (λ client.
      send_seq_msg host client m (t.seq_ack_arrivals pid)
      >>= (λ log. then_phase (acknowledged pid log) (λ _. announce rounds (pid + 1) m)))

  -- The body of the thread.
  unfoldable pub multicast : Result (Phase SeqMessage)
  multicast =
      collect (length t.processes) 0 (replicate (length t.processes) 0)
      >>= (λ p. then_phase p (λ seqs. announce (length t.processes) 0 (seq_msg seqs)))
