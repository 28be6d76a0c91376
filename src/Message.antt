-- ===== src/Message.antt =====
-- src/message.h: the four messages of the algorithm and their type codes.
-- The field `data` of the source is `payload` here, since `data` is a reserved word.
pub mod Host
pub mod Valid
pub mod Wire
pub mod Print
use total_order_multicast.Common.{ℕ}

abbrev pub data_message_type : ℕ
data_message_type = 1

abbrev pub ack_message_type : ℕ
ack_message_type = 2

abbrev pub seq_message_type : ℕ
seq_message_type = 3

abbrev pub seq_ack_message_type : ℕ
seq_ack_message_type = 4

pub record DataMessage : Type 0 where
  pub type : ℕ
  pub sender : ℕ
  pub msg_id : ℕ
  pub payload : ℕ

pub record AckMessage : Type 0 where
  pub type : ℕ
  pub sender : ℕ
  pub msg_id : ℕ
  pub proposed_seq : ℕ
  pub proposer : ℕ

pub record SeqMessage : Type 0 where
  pub type : ℕ
  pub sender : ℕ
  pub msg_id : ℕ
  pub final_seq : ℕ
  pub final_seq_proposer : ℕ

pub record SeqAckMessage : Type 0 where
  pub type : ℕ
  pub sender : ℕ
  pub msg_id : ℕ
