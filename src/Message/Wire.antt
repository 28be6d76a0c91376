-- ===== src/Message/Wire.antt =====
-- src/process.cc: MessageTypeFromBuf, the four decoders, and the bytes that SendDataMsg, SendAckMsg,
-- SendSeqMsg and SendSeqAckMsg hand to the UDP client.
-- A buffer is the list of its bytes; `n` is the count that recvfrom returned.
pub mod RoundTrip
pub mod Recovery
use total_order_multicast.Common.{
  ℕ, ◌+◌, List, ◌++◌, Option, none, some, get_or, ltb, ◌!=◌, if◌then◌else◌,
}
use total_order_multicast.Message.Host.{Host, load_u32, store_u32, htonl, ntohl}
use total_order_multicast.Message.{
  DataMessage, AckMessage, SeqMessage, SeqAckMessage, data_message_type, ack_message_type,
  seq_message_type, seq_ack_message_type,
}

-- sizeof of the four structs: fields of four bytes, with no padding.
abbrev pub sizeof_u32 : ℕ
sizeof_u32 = 4

abbrev pub sizeof_data_message : ℕ
sizeof_data_message = 16

abbrev pub sizeof_ack_message : ℕ
sizeof_ack_message = 20

abbrev pub sizeof_seq_message : ℕ
sizeof_seq_message = 20

abbrev pub sizeof_seq_ack_message : ℕ
sizeof_seq_ack_message = 12

module _ (host : Host) where
  -- The uint32_t at an offset, converted by ntohl.
  unfoldable pub field_at : List ℕ → ℕ → ℕ
  field_at buf i = ntohl host (
      load_u32 host (get_or buf i 0) (get_or buf (i + 1) 0) (get_or buf (i + 2) 0)
        (get_or buf (i + 3) 0))

  unfoldable pub message_type_from_buf : List ℕ → ℕ → Option ℕ
  message_type_from_buf buf n = if ltb n sizeof_u32 then none else some (field_at buf 0)

  unfoldable pub data_msg_from_buf : List ℕ → ℕ → Option DataMessage
  data_msg_from_buf buf n =
      if n != sizeof_data_message
      then none
      else some (record {
        type = field_at buf 0;
        sender = field_at buf 4;
        msg_id = field_at buf 8;
        payload = field_at buf 12;
      })

  unfoldable pub ack_msg_from_buf : List ℕ → ℕ → Option AckMessage
  ack_msg_from_buf buf n =
      if n != sizeof_ack_message
      then none
      else some (record {
        type = field_at buf 0;
        sender = field_at buf 4;
        msg_id = field_at buf 8;
        proposed_seq = field_at buf 12;
        proposer = field_at buf 16;
      })

  unfoldable pub seq_msg_from_buf : List ℕ → ℕ → Option SeqMessage
  seq_msg_from_buf buf n =
      if n != sizeof_seq_message
      then none
      else some (record {
        type = field_at buf 0;
        sender = field_at buf 4;
        msg_id = field_at buf 8;
        final_seq = field_at buf 12;
        final_seq_proposer = field_at buf 16;
      })

  unfoldable pub seq_ack_msg_from_buf : List ℕ → ℕ → Option SeqAckMessage
  seq_ack_msg_from_buf buf n =
      if n != sizeof_seq_ack_message
      then none
      else some (record { type = field_at buf 0; sender = field_at buf 4; msg_id = field_at buf 8 })

  -- A field of the struct that is sent: htonl, then four bytes of memory.
  unfoldable pub field_bytes : ℕ → List ℕ
  field_bytes x = store_u32 host (htonl host x)

  unfoldable pub data_msg_bytes : DataMessage → List ℕ
  data_msg_bytes m =
      field_bytes data_message_type
      ++ (field_bytes m.sender ++ (field_bytes m.msg_id ++ field_bytes m.payload))

  unfoldable pub ack_msg_bytes : AckMessage → List ℕ
  ack_msg_bytes m =
      field_bytes ack_message_type
      ++ (field_bytes m.sender
          ++ (field_bytes m.msg_id ++ (field_bytes m.proposed_seq ++ field_bytes m.proposer)))

  unfoldable pub seq_msg_bytes : SeqMessage → List ℕ
  seq_msg_bytes m =
      field_bytes seq_message_type
      ++ (field_bytes m.sender
          ++ (field_bytes m.msg_id
              ++ (field_bytes m.final_seq ++ field_bytes m.final_seq_proposer)))

  unfoldable pub seq_ack_msg_bytes : SeqAckMessage → List ℕ
  seq_ack_msg_bytes m =
      field_bytes seq_ack_message_type ++ (field_bytes m.sender ++ field_bytes m.msg_id)
