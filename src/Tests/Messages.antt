-- ===== src/Tests/Messages.antt =====
-- The wire format at concrete messages and hosts.
use total_order_multicast.Common.{◌≡◌, refl, [], ◌∷◌, ◌++◌, some, arith}
use total_order_multicast.Message.Host.{store_u32, htonl}
use total_order_multicast.Message.{AckMessage, SeqAckMessage}
use total_order_multicast.Message.Wire.{
  field_bytes, data_msg_bytes, ack_msg_bytes, seq_msg_bytes, seq_ack_msg_bytes, data_msg_from_buf,
  ack_msg_from_buf, seq_msg_from_buf, seq_ack_msg_from_buf,
}
use total_order_multicast.Message.Wire.RoundTrip.{decode-encode}
use total_order_multicast.Tests.Sites.{pc, mainframe, data_of, seq_of}

abbrev some_ack : AckMessage
some_ack = record { type = 0; sender = 1; msg_id = 9; proposed_seq = 70000; proposer = 2 }

abbrev some_seq_ack : SeqAckMessage
some_seq_ack = record { type = 0; sender = 1; msg_id = 9 }

-- 0x01020304 goes out most significant byte first, from a little-endian host too.
wire_bytes : field_bytes pc 0x01020304 ≡ 1 ∷ 2 ∷ 3 ∷ 4 ∷ []
unfolding field_bytes htonl store_u32
wire_bytes = refl

decode-encode_example :
    (data_msg_from_buf mainframe (data_msg_bytes pc (data_of 0 7) ++ 0 ∷ []) 16
      ≡ some (record (data_of 0 7) { type = 1 }))
    × (ack_msg_from_buf mainframe (ack_msg_bytes pc some_ack ++ 0 ∷ []) 20
        ≡ some (record some_ack { type = 2 }))
    × (seq_msg_from_buf mainframe (seq_msg_bytes pc (seq_of 0 7 2 1) ++ 0 ∷ []) 20
        ≡ some (record (seq_of 0 7 2 1) { type = 3 }))
    × (seq_ack_msg_from_buf mainframe (seq_ack_msg_bytes pc some_seq_ack ++ 0 ∷ []) 12
        ≡ some (record some_seq_ack { type = 4 }))
decode-encode_example =
    decode-encode pc mainframe (0 ∷ []) (data_of 0 7) some_ack (seq_of 0 7 2 1) some_seq_ack
      (omega arith) (omega arith) (omega arith) (omega arith)
