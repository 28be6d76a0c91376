-- ===== src/Message/Print.antt =====
-- src/message.cc: the text of each message.
use total_order_multicast.Common.{ℕ, List, ◌++◌}
use total_order_multicast.Common.Text.{codes, decimal}
use total_order_multicast.Message.{DataMessage, AckMessage, SeqMessage, SeqAckMessage}

unfoldable pub show_data_message : DataMessage → List ℕ
show_data_message m =
    codes "{type: "
    ++ decimal m.type
    ++ codes ", sender: "
    ++ decimal m.sender
    ++ codes ", msg_id: "
    ++ decimal m.msg_id
    ++ codes ", data: "
    ++ decimal m.payload
    ++ codes "}"

unfoldable pub show_ack_message : AckMessage → List ℕ
show_ack_message m =
    codes "{type: "
    ++ decimal m.type
    ++ codes ", sender: "
    ++ decimal m.sender
    ++ codes ", msg_id: "
    ++ decimal m.msg_id
    ++ codes ", proposed_seq: "
    ++ decimal m.proposed_seq
    ++ codes ", proposer: "
    ++ decimal m.proposer
    ++ codes "}"

unfoldable pub show_seq_message : SeqMessage → List ℕ
show_seq_message m =
    codes "{type: "
    ++ decimal m.type
    ++ codes ", sender: "
    ++ decimal m.sender
    ++ codes ", msg_id: "
    ++ decimal m.msg_id
    ++ codes ", final_seq: "
    ++ decimal m.final_seq
    ++ codes ", final_seq_proposer: "
    ++ decimal m.final_seq_proposer
    ++ codes "}"

unfoldable pub show_seq_ack_message : SeqAckMessage → List ℕ
show_seq_ack_message m =
    codes "{type: "
    ++ decimal m.type
    ++ codes ", sender: "
    ++ decimal m.sender
    ++ codes ", msg_id: "
    ++ decimal m.msg_id
    ++ codes "}"
