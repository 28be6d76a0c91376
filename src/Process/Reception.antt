-- ===== src/Process/Reception.antt =====
-- src/process.cc: the datagrams of a sender at the server of a process.
use total_order_multicast.Common.{
  ℕ, ◌-◌, ◌<◌, ◌≤◌, take-eq_self, ◌≡◌, refl, ap, ◌∙◌, true, some, List, ◌++◌, length, replicate, ok,
  ◌>>=◌, arith,
}
use total_order_multicast.Message.Host.{Host}
use total_order_multicast.Message.{DataMessage, SeqMessage, data_message_type, seq_message_type}
use total_order_multicast.Message.Valid.{valid_data_msg, valid_seq_msg}
use total_order_multicast.Message.Wire.{
  data_msg_bytes, seq_msg_bytes, message_type_from_buf, data_msg_from_buf, seq_msg_from_buf,
}
use total_order_multicast.Message.Wire.RoundTrip.{
  DataMessageFits, SeqMessageFits, data_msg_from_buf-bytes, seq_msg_from_buf-bytes,
  field_bytes-network,
}
use total_order_multicast.Udp.{Client, ServerAction, bufsize, receive_buffer, receive_count}
use total_order_multicast.Process.{
  Node, accept_data, accept_seq, on_receive, dispatch, handle_seq_msg,
}
use total_order_multicast.Process.Server.{receive}
use total_order_multicast.Process.Acceptance.{on_receive-eq}

module _ (host : Host) (buf : List ℕ) (n : ℕ) (m : SeqMessage)
    (decoded : seq_msg_from_buf host buf n ≡ some m) where
  type-seq_msg : message_type_from_buf host buf n ≡ some m.type
  unfolding message_type_from_buf seq_msg_from_buf
  type-seq_msg = ground arith

  module _ (node : Node) (client : Client)
      (valid : valid_seq_msg m (length node.process.processes) ≡ true) where
    is_seq : m.type ≡ seq_message_type
    unfolding valid_seq_msg
    is_seq = ground arith

    handle_seq_msg-eq : handle_seq_msg host node client buf n ≡ accept_seq host node client m
    unfolding handle_seq_msg
    handle_seq_msg-eq = rw (handle_seq_msg, decoded, valid) refl

    -- A valid SeqMessage is dispatched to HandleSeqMsg.
    on_receive-seq :
        on_receive host node client buf n
        ≡ (accept_seq host node client m >>= (λ after. ok (after, ServerAction.continue)))
    unfolding on_receive dispatch
    on_receive-seq =
        let type : message_type_from_buf host buf n ≡ some seq_message_type =
          type-seq_msg ∙ ap some is_seq in
        rw (on_receive, type, handle_seq_msg-eq) refl

-- A short datagram is received whole, with zeros behind it.
pub receive-short :
    (bytes : List ℕ) (n : ℕ)
    → length bytes ≡ n
    → n ≤ bufsize
    → (receive_buffer bytes ≡ bytes ++ replicate (bufsize - length bytes) 0)
      × (receive_count bytes ≡ n)
unfolding receive_buffer receive_count
receive-short bytes n e h = (
  ap (λ xs. xs ++ replicate (bufsize - length bytes) 0) (take-eq_self bufsize bytes (omega arith)),
  omega arith,
)

module _ (sender host : Host) (node : Node) (client : Client) where
  data_msg-length : (m : DataMessage) → length (data_msg_bytes sender m) ≡ 16
  unfolding data_msg_bytes
  data_msg-length m = simp (field_bytes-network sender) refl

  seq_msg-length : (m : SeqMessage) → length (seq_msg_bytes sender m) ≡ 20
  unfolding seq_msg_bytes
  seq_msg-length m = simp (field_bytes-network sender) refl

  data_decoded :
      (d : DataMessage)
      → DataMessageFits d
      → data_msg_from_buf host
          (receive_buffer (data_msg_bytes sender d))
          (receive_count (data_msg_bytes sender d))
        ≡ some (record d { type = data_message_type })
  data_decoded d fits =
      let (b, c) = receive-short (data_msg_bytes sender d) 16 (data_msg-length d) (omega arith) in
      rw (b, c) (data_msg_from_buf-bytes sender host _ d fits)

  seq_decoded :
      (m : SeqMessage)
      → SeqMessageFits m
      → seq_msg_from_buf host
          (receive_buffer (seq_msg_bytes sender m))
          (receive_count (seq_msg_bytes sender m))
        ≡ some (record m { type = seq_message_type })
  seq_decoded m fits =
      let (b, c) = receive-short (seq_msg_bytes sender m) 20 (seq_msg-length m) (omega arith) in
      rw (b, c) (seq_msg_from_buf-bytes sender host _ m fits)

  data_valid :
      (d : DataMessage)
      → d.sender < length node.process.processes
      → valid_data_msg (record d { type = data_message_type }) (length node.process.processes)
        ≡ true
  data_valid d h = unfold valid_data_msg in (ground arith)

  seq_valid :
      (m : SeqMessage)
      → m.sender < length node.process.processes
      → m.final_seq_proposer < length node.process.processes
      → valid_seq_msg (record m { type = seq_message_type }) (length node.process.processes) ≡ true
  seq_valid m h p = unfold valid_seq_msg in (ground arith)

  pub receive-data_msg :
      (d : DataMessage)
      → DataMessageFits d
      → d.sender < length node.process.processes
      → receive host node client (data_msg_bytes sender d) ≡ (
          accept_data host node client (record d { type = data_message_type })
          >>= (λ after. ok (after, ServerAction.continue)))
  receive-data_msg d fits h =
      on_receive-eq host _ _ _ (data_decoded d fits) node client (data_valid d h)

  pub receive-seq_msg :
      (m : SeqMessage)
      → SeqMessageFits m
      → m.sender < length node.process.processes
      → m.final_seq_proposer < length node.process.processes
      → receive host node client (seq_msg_bytes sender m) ≡ (
          accept_seq host node client (record m { type = seq_message_type })
          >>= (λ after. ok (after, ServerAction.continue)))
  receive-seq_msg m fits h p =
      on_receive-seq host _ _ _ (seq_decoded m fits) node client (seq_valid m h p)

  -- Whatever host has sent them, the bytes of a DataMessage and of a SeqMessage, received by the
  -- server of a process, are handled by HandleDataMsg and HandleSeqMsg behind their validation, with
  -- the fields that were sent, and the server goes on.
  -- Conditions: the fields fit a uint32_t, and the process ids in them are those of processes.
  pub receive-bytes :
      (d : DataMessage) (m : SeqMessage)
      → DataMessageFits d
      → SeqMessageFits m
      → d.sender < length node.process.processes
      → m.sender < length node.process.processes
      → m.final_seq_proposer < length node.process.processes
      → (receive host node client (data_msg_bytes sender d) ≡ (
          accept_data host node client (record d { type = data_message_type })
          >>= (λ after. ok (after, ServerAction.continue))))
        × (receive host node client (seq_msg_bytes sender m) ≡ (
            accept_seq host node client (record m { type = seq_message_type })
            >>= (λ after. ok (after, ServerAction.continue))))
  receive-bytes d m fd fm hd hm hp = (receive-data_msg d fd hd, receive-seq_msg m fm hm hp)
