-- ===== src/Message/Wire/RoundTrip.antt =====
-- src/process.cc: the four encoders against the four decoders, on hosts of any byte order.
use total_order_multicast.Common.{ℕ, ◌<◌, ◌≡◌, List, ◌++◌, some, arith}
use total_order_multicast.Message.Host.{Host, u32_mod, network_bytes, store-htonl, ntohl-load}
use total_order_multicast.Message.{
  DataMessage, AckMessage, SeqMessage, SeqAckMessage, data_message_type, ack_message_type,
  seq_message_type, seq_ack_message_type,
}
use total_order_multicast.Message.Wire.{
  field_at, field_bytes, message_type_from_buf, data_msg_from_buf, ack_msg_from_buf,
  seq_msg_from_buf, seq_ack_msg_from_buf, data_msg_bytes, ack_msg_bytes, seq_msg_bytes,
  seq_ack_msg_bytes,
}

-- Every field fits a uint32_t.
abbrev pub DataMessageFits : DataMessage → Type 0
DataMessageFits m = (m.sender < u32_mod) × (m.msg_id < u32_mod) × (m.payload < u32_mod)

abbrev pub AckMessageFits : AckMessage → Type 0
AckMessageFits m =
    (m.sender < u32_mod)
    × (m.msg_id < u32_mod)
    × (m.proposed_seq < u32_mod)
    × (m.proposer < u32_mod)

abbrev pub SeqMessageFits : SeqMessage → Type 0
SeqMessageFits m =
    (m.sender < u32_mod)
    × (m.msg_id < u32_mod)
    × (m.final_seq < u32_mod)
    × (m.final_seq_proposer < u32_mod)

abbrev pub SeqAckMessageFits : SeqAckMessage → Type 0
SeqAckMessageFits m = (m.sender < u32_mod) × (m.msg_id < u32_mod)

pub field_bytes-network : (host : Host) (x : ℕ) → field_bytes host x ≡ network_bytes x
unfolding field_bytes
field_bytes-network = store-htonl

module _ (sender receiver : Host) (rest : List ℕ) where
  pub data_msg_from_buf-bytes :
      (m : DataMessage)
      → DataMessageFits m
      → data_msg_from_buf receiver (data_msg_bytes sender m ++ rest) 16
        ≡ some (record m { type = data_message_type })
  unfolding data_msg_from_buf data_msg_bytes field_at
  data_msg_from_buf-bytes m h = simp (field_bytes-network sender) (
      cc (
        ntohl-load receiver data_message_type (omega arith),
        ntohl-load receiver m.sender h.0,
        ntohl-load receiver m.msg_id h.1,
        ntohl-load receiver m.payload h.2,
      ))

  pub ack_msg_from_buf-bytes :
      (m : AckMessage)
      → AckMessageFits m
      → ack_msg_from_buf receiver (ack_msg_bytes sender m ++ rest) 20
        ≡ some (record m { type = ack_message_type })
  unfolding ack_msg_from_buf ack_msg_bytes field_at
  ack_msg_from_buf-bytes m h = simp (field_bytes-network sender) (
      cc (
        ntohl-load receiver ack_message_type (omega arith),
        ntohl-load receiver m.sender h.0,
        ntohl-load receiver m.msg_id h.1,
        ntohl-load receiver m.proposed_seq h.2,
        ntohl-load receiver m.proposer h.3,
      ))

  pub seq_msg_from_buf-bytes :
      (m : SeqMessage)
      → SeqMessageFits m
      → seq_msg_from_buf receiver (seq_msg_bytes sender m ++ rest) 20
        ≡ some (record m { type = seq_message_type })
  unfolding seq_msg_from_buf seq_msg_bytes field_at
  seq_msg_from_buf-bytes m h = simp (field_bytes-network sender) (
      cc (
        ntohl-load receiver seq_message_type (omega arith),
        ntohl-load receiver m.sender h.0,
        ntohl-load receiver m.msg_id h.1,
        ntohl-load receiver m.final_seq h.2,
        ntohl-load receiver m.final_seq_proposer h.3,
      ))

  pub seq_ack_msg_from_buf-bytes :
      (m : SeqAckMessage)
      → SeqAckMessageFits m
      → seq_ack_msg_from_buf receiver (seq_ack_msg_bytes sender m ++ rest) 12
        ≡ some (record m { type = seq_ack_message_type })
  unfolding seq_ack_msg_from_buf seq_ack_msg_bytes field_at
  seq_ack_msg_from_buf-bytes m h = simp (field_bytes-network sender) (
      cc (
        ntohl-load receiver seq_ack_message_type (omega arith),
        ntohl-load receiver m.sender h.0,
        ntohl-load receiver m.msg_id h.1,
      ))

  -- Each of the four kinds of messages is recognised by its type code, whatever its fields hold.
  pub message_type_from_buf-bytes :
      (d : DataMessage) (a : AckMessage) (s : SeqMessage) (q : SeqAckMessage)
      → (message_type_from_buf receiver (data_msg_bytes sender d ++ rest) 16
          ≡ some data_message_type)
        × (message_type_from_buf receiver (ack_msg_bytes sender a ++ rest) 20
            ≡ some ack_message_type)
        × (message_type_from_buf receiver (seq_msg_bytes sender s ++ rest) 20
            ≡ some seq_message_type)
        × (message_type_from_buf receiver (seq_ack_msg_bytes sender q ++ rest) 12
            ≡ some seq_ack_message_type)
  unfolding message_type_from_buf field_at data_msg_bytes ack_msg_bytes seq_msg_bytes
      seq_ack_msg_bytes
  message_type_from_buf-bytes d a s q = (
    simp (field_bytes-network sender) (cc (ntohl-load receiver data_message_type (omega arith))),
    simp (field_bytes-network sender) (cc (ntohl-load receiver ack_message_type (omega arith))),
    simp (field_bytes-network sender) (cc (ntohl-load receiver seq_message_type (omega arith))),
    simp (field_bytes-network sender) (cc (ntohl-load receiver seq_ack_message_type (omega arith))),
  )

-- The four round trips together: a host decodes each message that another host encodes, whatever
-- the byte orders of the two and whatever follows the message in the receive buffer, provided that
-- the fields fit a uint32_t; the type field then holds the type code.
pub decode-encode :
    (sender receiver : Host) (rest : List ℕ) (d : DataMessage) (a : AckMessage) (s : SeqMessage)
    (q : SeqAckMessage)
    → DataMessageFits d
    → AckMessageFits a
    → SeqMessageFits s
    → SeqAckMessageFits q
    → (data_msg_from_buf receiver (data_msg_bytes sender d ++ rest) 16
        ≡ some (record d { type = data_message_type }))
      × (ack_msg_from_buf receiver (ack_msg_bytes sender a ++ rest) 20
          ≡ some (record a { type = ack_message_type }))
      × (seq_msg_from_buf receiver (seq_msg_bytes sender s ++ rest) 20
          ≡ some (record s { type = seq_message_type }))
      × (seq_ack_msg_from_buf receiver (seq_ack_msg_bytes sender q ++ rest) 12
          ≡ some (record q { type = seq_ack_message_type }))
decode-encode sender receiver rest d a s q hd ha hs hq = (
  data_msg_from_buf-bytes sender receiver rest d hd,
  ack_msg_from_buf-bytes sender receiver rest a ha,
  seq_msg_from_buf-bytes sender receiver rest s hs,
  seq_ack_msg_from_buf-bytes sender receiver rest q hq,
)
