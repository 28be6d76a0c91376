-- ===== src/Tests/Hostile.antt =====
-- A server that receives malformed and hostile datagrams.
use total_order_multicast.Common.{ℕ, List, [], ◌∷◌, some, arith}
use total_order_multicast.Message.{
  data_message_type, ack_message_type, seq_message_type, seq_ack_message_type,
}
use total_order_multicast.Message.Wire.{
  sizeof_data_message, sizeof_ack_message, sizeof_seq_message, sizeof_seq_ack_message,
  data_msg_from_buf, ack_msg_from_buf, seq_msg_from_buf, seq_ack_msg_from_buf, data_msg_bytes,
  ack_msg_bytes, seq_msg_bytes, seq_ack_msg_bytes,
}
use total_order_multicast.Message.Wire.Recovery.{IsBytes, Reencodes, decoded-Reencodes}
use total_order_multicast.Udp.{packet}
use total_order_multicast.Process.Server.{Site, Served, outcome}
use total_order_multicast.Process.Robust.{HasShape, outcome-HasShape}
use total_order_multicast.Tests.Sites.{pc, mainframe, open_client, site_of}

-- A SeqMessage with the largest number, a DataMessage twice with its SeqMessage in between, noise, and
-- an empty datagram.
abbrev largest_seq : List ℕ
largest_seq =
    0 ∷ 0 ∷ 0 ∷ 3 ∷ 0 ∷ 0 ∷ 0 ∷ 0 ∷ 0 ∷ 0 ∷ 0 ∷ 7 ∷ 255 ∷ 255 ∷ 255 ∷ 255 ∷ 0 ∷ 0 ∷ 0 ∷ 1 ∷ []

abbrev data_bytes : List ℕ
data_bytes = 0 ∷ 0 ∷ 0 ∷ 1 ∷ 0 ∷ 0 ∷ 0 ∷ 0 ∷ 0 ∷ 0 ∷ 0 ∷ 7 ∷ 0 ∷ 0 ∷ 0 ∷ 5 ∷ []

abbrev hostile : Site
hostile = site_of pc 0 (
    packet (some open_client) data_bytes
    ∷ packet (some open_client) largest_seq
    ∷ packet (some open_client) data_bytes
    ∷ packet (some open_client) (9 ∷ 9 ∷ [])
    ∷ packet (some open_client) []
    ∷ [])

outcome-HasShape_example : Served HasShape (outcome hostile)
outcome-HasShape_example = outcome-HasShape hostile

largest_seq-IsBytes : IsBytes largest_seq
largest_seq-IsBytes = ground arith

decoded-Reencodes_example :
    Reencodes sizeof_data_message data_message_type largest_seq
      (data_msg_bytes mainframe)
      (data_msg_from_buf pc largest_seq 20)
    × Reencodes sizeof_ack_message ack_message_type largest_seq
        (ack_msg_bytes mainframe)
        (ack_msg_from_buf pc largest_seq 20)
    × Reencodes sizeof_seq_message seq_message_type largest_seq
        (seq_msg_bytes mainframe)
        (seq_msg_from_buf pc largest_seq 20)
    × Reencodes sizeof_seq_ack_message seq_ack_message_type largest_seq
        (seq_ack_msg_bytes mainframe)
        (seq_ack_msg_from_buf pc largest_seq 20)
decoded-Reencodes_example = decoded-Reencodes pc mainframe largest_seq largest_seq-IsBytes
