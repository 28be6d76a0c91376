-- ===== src/Process/Order.antt =====
-- src/process.cc: the order in which one process delivers.
use total_order_multicast.Common.{ℕ, ◌+◌, ◌<◌, ◌≡◌, some, List}
use total_order_multicast.Message.Host.{Host, u32_mod}
use total_order_multicast.Message.{SeqMessage}
use total_order_multicast.Message.Wire.{seq_msg_from_buf}
use total_order_multicast.HoldBack.Loop.{IsIncreasing}
use total_order_multicast.Udp.{Client, receive_buffer, receive_count}
use total_order_multicast.Process.{Node}
use total_order_multicast.Process.Invariant.{NodeInv}
use total_order_multicast.Process.Data.{accept_data-Settles}
use total_order_multicast.Process.Seq.{Dominates, accept_seq-Settles}
use total_order_multicast.Process.Server.{
  Keeps, Served, AllSafe, serve-Served, Served-mono, Site, initial, outcome,
}

-- The sequence counter does not wrap, and a SeqMessage carries a number that is no smaller than the
-- one that this process proposed for a message that is pending.
abbrev pub IsOrderly : Host → Node → Client → List ℕ → Type 0
IsOrderly host node client bytes =
    (node.process.seq_counter + 1 < u32_mod)
    × ((m : SeqMessage)
        → seq_msg_from_buf host (receive_buffer bytes) (receive_count bytes) ≡ some m
        → Dominates m node.process.hold_back_queue)

pub start-NodeInv : (s : Site) → NodeInv (initial s)
unfolding total_order_multicast.HoldBack.find
start-NodeInv s = record {
  queue = record {
    shape = record {
      sorted = tt;
      distinct = tt;
      recorded = tt;
      queued = λ k v u e. cc;
      waits = tt;
    };
    bounded = tt;
  };
  increasing = tt;
  follows = tt;
  seen = tt;
}

pub IsOrderly-Keeps :
    (host : Host) (node : Node) (client : Client) (bytes : List ℕ)
    → NodeInv node
    → IsOrderly host node client bytes
    → Keeps host NodeInv node client (receive_buffer bytes) (receive_count bytes)
IsOrderly-Keeps host node client bytes inv safe = record {
  data_msg = λ m e v. accept_data-Settles host node client m inv safe.0;
  seq_msg = λ m e v. accept_seq-Settles host node client m inv (safe.1 m e);
}

-- A process that has received any datagrams has delivered in the order of the final sequence
-- numbers, ties broken by sender and message id, and each delivery is strictly later than the ones
-- before it. Its server is still waiting, or sendto, recvfrom or socket has failed.
-- Conditions: at each datagram the sequence counter is below its last value, and a SeqMessage for
-- a pending message carries no smaller number than the one that this process proposed.
pub outcome-IsIncreasing :
    (s : Site)
    → AllSafe s.host (IsOrderly s.host) (initial s) s.incoming
    → Served (λ node. IsIncreasing node.delivered) (outcome s)
outcome-IsIncreasing s safe =
    Served-mono {P = NodeInv} (λ node inv. inv.increasing) _
      (serve-Served s.host (IsOrderly s.host) NodeInv (IsOrderly-Keeps s.host) _ s.incoming
        (start-NodeInv s) safe)
