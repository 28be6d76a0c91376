-- ===== src/Process.antt =====
-- src/process.h and src/process.cc, class Process: its state, its sequence counter, and the server
-- side of the algorithm, HandleDataMsg, HandleSeqMsg and the callback of TotalOrder.
pub mod Invariant
pub mod Seq
pub mod Server
pub mod Final
pub mod Agreement
pub mod Order
pub mod Data
pub mod Progress
pub mod Replay
pub mod Integrity
pub mod Retention
pub mod Acceptance
pub mod Counter
pub mod Completion
pub mod Reception
pub mod Robust
use total_order_multicast.Common.{
  ℕ, ◌+◌, ◌%◌, Bool, List, [], ◌∷◌, ◌++◌, none, some, length, ltb, ◌==◌, if◌then◌else◌, Result, ok,
  ◌>>=◌,
}
use total_order_multicast.Message.{
  DataMessage, AckMessage, SeqMessage, SeqAckMessage, data_message_type, seq_message_type,
}
use total_order_multicast.Message.Host.{Host, u32_mod}
use total_order_multicast.Message.Valid.{valid_data_msg, valid_seq_msg}
use total_order_multicast.Message.Wire.{
  message_type_from_buf, data_msg_from_buf, seq_msg_from_buf, ack_msg_bytes, seq_ack_msg_bytes,
}
use total_order_multicast.HoldBack.{
  HoldBackQueue, empty, lookup, insert_undeliverable, set_deliverable,
}
use total_order_multicast.Net.{Address}
use total_order_multicast.Udp.{Client, send, ServerAction, Incoming, Serving, listen}

pub record Process : Type 0 where
  pub processes : List Address
  pub id : ℕ
  pub server_port : ℕ
  pub delays : Bool
  pub hold_back_queue : HoldBackQueue
  pub seq_counter : ℕ

-- The constructor. (The UDP clients that it makes are in `Sender`.)
abbrev pub new_process : List Address → ℕ → ℕ → Bool → Process
new_process processes id server_port delays = record {
  processes = processes;
  id = id;
  server_port = server_port;
  delays = delays;
  hold_back_queue = empty;
  seq_counter = 0;
}

-- `++seq_counter_` on a uint32_t.
unfoldable pub next_seq_num : Process → ℕ
next_seq_num p = (p.seq_counter + 1) % u32_mod

unfoldable pub forward_seq_num : Process → ℕ → Process
forward_seq_num p seen = if ltb p.seq_counter seen then record p { seq_counter = seen } else p

-- A process, the datagrams that its server has sent and the messages that it has delivered, both in
-- order.
pub record Node : Type 0 where
  pub process : Process
  pub sent : List (List ℕ)
  pub delivered : List SeqMessage

abbrev pub start : Process → Node
start p = record { process = p; sent = []; delivered = [] }

module _ (host : Host) where
  -- SendAckMsg and SendSeqAckMsg to the client.
  unfoldable pub reply : Node → Client → List ℕ → Result Node
  unfolding send
  reply node client buf = send client buf >>= λ b. ok (record node { sent = node.sent ++ b ∷ [] })

  -- The acknowledgement of a message that is not in the queue.
  abbrev pub new_ack : Process → DataMessage → AckMessage
  new_ack p m = record {
    type = host.uninit;
    sender = m.sender;
    msg_id = m.msg_id;
    proposed_seq = next_seq_num p;
    proposer = p.id;
  }

  -- HandleDataMsg on a message that is not in the queue: a new number, and the insertion.
  unfoldable pub propose : Process → DataMessage → Result Process
  propose p m = insert_undeliverable p.hold_back_queue (new_ack p m) m.payload >>= λ q.
      ok (record p { hold_back_queue = q; seq_counter = next_seq_num p })

  -- HandleDataMsg, behind the validation.
  unfoldable pub accept_data : Node → Client → DataMessage → Result Node
  unfolding propose
  accept_data node client m = elim (lookup host node.process.hold_back_queue m) [
    | some ack ↦ reply node client (ack_msg_bytes host ack)
    | none ↦ propose node.process m >>= λ p.
        reply (record node { process = p }) client (ack_msg_bytes host (new_ack node.process m))
  ]

  unfoldable pub handle_data_msg : Node → Client → List ℕ → ℕ → Result Node
  handle_data_msg node client buf n = elim (data_msg_from_buf host buf n) [
    | none ↦ ok node
    | some m ↦
        if valid_data_msg m (length node.process.processes)
        then accept_data node client m
        else ok node
  ]

  abbrev pub seq_ack : SeqMessage → SeqAckMessage
  seq_ack m = record { type = host.uninit; sender = m.sender; msg_id = m.msg_id }

  -- The call of SetDeliverable.
  unfoldable pub finalize : Node → SeqMessage → Node
  finalize node m =
      let u = set_deliverable host node.process.hold_back_queue m in
      record node {
        process = record node.process { hold_back_queue = u.queue };
        delivered = node.delivered ++ u.calls;
      }

  -- HandleSeqMsg, behind the validation.
  unfoldable pub accept_seq : Node → Client → SeqMessage → Result Node
  unfolding finalize
  accept_seq node client m =
      reply (record node { process = forward_seq_num node.process m.final_seq }) client
        (seq_ack_msg_bytes host (seq_ack m))
      >>= λ replied. ok (finalize replied m)

  unfoldable pub handle_seq_msg : Node → Client → List ℕ → ℕ → Result Node
  handle_seq_msg node client buf n = elim (seq_msg_from_buf host buf n) [
    | none ↦ ok node
    | some m ↦
        if valid_seq_msg m (length node.process.processes)
        then accept_seq node client m
        else ok node
  ]

  -- The switch on the message type. Acknowledgements and unknown types are only logged.
  unfoldable pub dispatch : ℕ → Node → Client → List ℕ → ℕ → Result Node
  dispatch type node client buf n =
      if type == data_message_type
      then handle_data_msg node client buf n
      else if type == seq_message_type
      then handle_seq_msg node client buf n
      else ok node

  -- The callback that TotalOrder hands to Listen.
  unfoldable pub on_receive : Node → Client → List ℕ → ℕ → Result (Node × ServerAction)
  on_receive node client buf n = elim (message_type_from_buf host buf n) [
    | none ↦ ok (node, ServerAction.continue)
    | some type ↦ dispatch type node client buf n >>= λ after. ok (after, ServerAction.continue)
  ]

  -- The server of TotalOrder, which has no timeout callback. The sender threads share no mutable
  -- state with it (`Sender`).
  unfoldable pub serve : Node → List Incoming → Result (Serving Node)
  serve = listen on_receive none
