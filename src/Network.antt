-- ===== src/Network.antt =====
-- src/process.cc: the processes of a group together, and the network between them. The sender
-- threads, the servers and the datagrams in flight are interleaved as a list of actions.
pub mod Invariant
pub mod Data
pub mod Seq
pub mod Decision
pub mod Global
pub mod Reachable
pub mod Prefix
pub mod Decided
pub mod Order
use total_order_multicast.Common.{
  ℕ, ◌+◌, ◌<◌, ◌≡◌, List, [], ◌∷◌, length, replicate, Among, update, Bool, Result, ok, throw,
}
use total_order_multicast.Message.Host.{Host, u32_mod}
use total_order_multicast.Message.{DataMessage, SeqMessage}
use total_order_multicast.Message.Wire.{data_msg_bytes, seq_msg_bytes}
use total_order_multicast.HoldBack.{PendingMessageKey, data_key, seq_key}
use total_order_multicast.Net.{Address}
use total_order_multicast.Udp.{Client, ServerAction}
use total_order_multicast.Udp.Reliable.{Arrives}
use total_order_multicast.Process.{Node, new_process, start}
use total_order_multicast.Process.Server.{receive}
use total_order_multicast.Sender.{Sending, Phase, finished, waits_for, data_msg, seq_msg, collect}

-- A process, and the keys of the SeqMessages that its server has handled.
pub record Member : Type 0 where
  pub node : Node
  pub heard : List PendingMessageKey

-- The processes by their ids, and the messages that their sender threads have sent. A message stays
-- in the network: a datagram may arrive late, more than once, out of order, or never.
pub record Network : Type 0 where
  pub members : ℕ → Member
  pub datas : List DataMessage
  pub seqs : List SeqMessage

-- The parts of a step: a sender thread starts to send its DataMessage; having collected the
-- acknowledgements, it starts to send its SeqMessage; the server of a process receives one of these
-- messages, with a client for its reply.
pub data Action : Type 0 where
  send_data send_seq : Sending → Action
  receive_data : ℕ → Client → DataMessage → Action
  receive_seq : ℕ → Client → SeqMessage → Action

-- The key of the message of a sender thread.
abbrev pub thread_key : Sending → PendingMessageKey
thread_key t = record { sender = t.id; msg_id = t.msg_id }

-- The group: the host that runs each process, the list of processes that all of them are given, and
-- the port and the choice of delays of each.
pub record Group : Type 0 where
  pub hosts : ℕ → Host
  pub processes : List Address
  pub ports : ℕ → ℕ
  pub delays : ℕ → Bool

module _ (g : Group) where
  abbrev pub launched : Network
  launched = record {
    members = λ i. record {
      node = start (new_process g.processes i (g.ports i) (g.delays i));
      heard = [];
    };
    datas = [];
    seqs = [];
  }

  -- The acknowledgements that a sender thread has collected.
  unfoldable pub collected : Sending → Result (Phase (List ℕ))
  collected t = collect (g.hosts t.id) t (length t.processes) 0 (replicate (length t.processes) 0)

  abbrev pub announced : Network → Sending → Result (Phase (List ℕ)) → Network
  announced net t (throw x) = net
  announced net t (ok (waits_for pid)) = net
  announced net t (ok (finished numbers)) = record net {
    seqs = seq_msg (g.hosts t.id) t numbers ∷ net.seqs;
  }

  abbrev pub received :
      Network → ℕ → List PendingMessageKey → Result (Node × ServerAction) → Network
  received net i heard (throw x) = net
  received net i heard (ok (after, action)) = record net {
    members = update net.members i (record { node = after; heard = heard });
  }

  unfoldable pub perform : Network → Action → Network
  unfolding collected
  perform net (send_data t) = record net { datas = data_msg (g.hosts t.id) t ∷ net.datas }
  perform net (send_seq t) = announced net t (collected t)
  perform net (receive_data i client d) =
      received net i (net.members i).heard
        (receive (g.hosts i) (net.members i).node client (data_msg_bytes (g.hosts d.sender) d))
  perform net (receive_seq i client m) =
      received net i (seq_key m ∷ (net.members i).heard)
        (receive (g.hosts i) (net.members i).node client (seq_msg_bytes (g.hosts m.sender) m))

  abbrev pub perform_all : Network → List Action → Network
  perform_all net [] = net
  perform_all net (a ∷ rest) = perform_all (perform net a) rest

  -- A sender thread of one of the processes, with numbers drawn as uint32_t.
  abbrev pub IsSender : Sending → Type 0
  IsSender t =
      (t.processes ≡ g.processes)
      × (t.id < length g.processes)
      × (t.msg_id < u32_mod)
      × (t.payload < u32_mod)

  -- The datagram was sent by the server of some process.
  abbrev pub WasSent : Network → List ℕ → Type 0
  WasSent net bytes = (j : ℕ) × (j < length g.processes) × Among bytes (net.members j).node.sent

  -- The network makes up no datagram: what arrives at a client was sent by one of the servers, to
  -- whomever, and what arrives at a server was sent by one of the sender threads.
  abbrev pub IsPossible : Network → Action → Type 0
  IsPossible net (send_data t) = IsSender t
  IsPossible net (send_seq t) =
      IsSender t
      × ((pid : ℕ) (bytes : List ℕ) → Arrives bytes (t.ack_arrivals pid) → WasSent net bytes)
  IsPossible net (receive_data i client d) = (i < length g.processes) × Among d net.datas
  IsPossible net (receive_seq i client m) = (i < length g.processes) × Among m net.seqs

  -- The keys of two messages are not the same, no DataMessage is handled after the SeqMessage for it,
  -- and the sequence counters do not wrap.
  abbrev pub IsCalm : Network → Action → Type 0
  IsCalm net (send_data t) = Unit
  IsCalm net (send_seq t) = (m : SeqMessage) → Among m net.seqs → ¬ (seq_key m ≡ thread_key t)
  IsCalm net (receive_data i client d) =
      (¬ Among (data_key d) (net.members i).heard)
      × ((net.members i).node.process.seq_counter + 1 < u32_mod)
  IsCalm net (receive_seq i client m) = Unit

  -- What holds of every action, in the network that it meets.
  abbrev pub Always : (Network → Action → Type 0) → Network → List Action → Type 0
  Always P net [] = Unit
  Always P net (a ∷ rest) = P net a × Always P (perform net a) rest
