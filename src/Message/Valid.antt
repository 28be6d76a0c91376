-- ===== src/Message/Valid.antt =====
-- src/process.cc: ValidDataMsg, ValidAckMsg, ValidSeqMsg and ValidSeqAckMsg.
use total_order_multicast.Common.{ℕ, Bool, true, false, leb, ◌!=◌, if◌then◌else◌}
use total_order_multicast.Message.{
  DataMessage, AckMessage, SeqMessage, SeqAckMessage, data_message_type, ack_message_type,
  seq_message_type, seq_ack_message_type,
}

unfoldable pub valid_data_msg : DataMessage → ℕ → Bool
valid_data_msg m process_count =
    if m.type != data_message_type
    then false
    else if leb process_count m.sender
    then false
    else true

unfoldable pub valid_ack_msg : AckMessage → ℕ → ℕ → ℕ → Bool
valid_ack_msg m exp_sender exp_msg_id exp_proposer =
    if m.type != ack_message_type
    then false
    else if m.sender != exp_sender
    then false
    else if m.msg_id != exp_msg_id
    then false
    else if m.proposer != exp_proposer
    then false
    else true

unfoldable pub valid_seq_msg : SeqMessage → ℕ → Bool
valid_seq_msg m process_count =
    if m.type != seq_message_type
    then false
    else if leb process_count m.sender
    then false
    else if leb process_count m.final_seq_proposer
    then false
    else true

unfoldable pub valid_seq_ack_msg : SeqAckMessage → SeqMessage → Bool
valid_seq_ack_msg ack m =
    if ack.type != seq_ack_message_type
    then false
    else if ack.sender != m.sender
    then false
    else if ack.msg_id != m.msg_id
    then false
    else true
