-- ===== src/Sender/Launch.antt =====
-- src/process.cc: UniqueID, RandomData, LaunchMulticastSender, and TotalOrder as a whole, with the
-- destructor of Process that joins its threads.
use mathlib.Core.List.{append-nil, append_assoc}
use total_order_multicast.Common.{
  ℕ, zero, suc, ◌+◌, ◌<◌, ◌≡◌, refl, sym, ◌∙◌, tabulate, All-tabulate, length, arith, List, [], ◌∷◌,
  ◌++◌, false, replicate, Exception, Result, ok, throw, ◌%◌,
}
use total_order_multicast.Message.Host.{Host, u32_mod}
use total_order_multicast.Message.{DataMessage, SeqMessage}
use total_order_multicast.Udp.{Client, send, send_loop, send_with_ack, Arrival, Incoming, Serving}
use total_order_multicast.Thread.{
  Thread, ends, blocks, throws, ThreadGroup, add_thread, joined, join_all, join_all_iff,
}
use total_order_multicast.Sender.Announce.{Confirms}
use total_order_multicast.Sender.Termination.{Answers, Comes, multicast-Finishes}
use total_order_multicast.Process.{Process, Node, start, serve}
use total_order_multicast.Sender.{
  ClientEntry, Sending, Phase, finished, waits_for, multicast, client_for_id, data_msg, collect,
  send_data_msg,
}

-- What a sender thread meets: the two numbers that it draws, and what arrives at its clients.
pub record Draws : Type 0 where
  pub id_draw : ℕ
  pub data_draw : ℕ
  pub ack_arrivals : ℕ → List Arrival
  pub seq_ack_arrivals : ℕ → List Arrival

-- A draw of the distribution from 0 to UINT32_MAX.
abbrev pub random_uint32 : ℕ → ℕ
random_uint32 draw = draw % u32_mod

abbrev pub unique_id : Draws → ℕ
unique_id d = random_uint32 d.id_draw

abbrev pub random_data : Draws → ℕ
random_data d = random_uint32 d.data_draw

-- What the thread works with.
unfoldable pub sending_of : Process → List ClientEntry → Draws → Sending
sending_of p clients d = record {
  processes = p.processes;
  clients = clients;
  id = p.id;
  msg_id = unique_id d;
  payload = random_data d;
  ack_arrivals = d.ack_arrivals;
  seq_ack_arrivals = d.seq_ack_arrivals;
}

-- How the function of the thread ends.
unfoldable pub thread_of : Result (Phase SeqMessage) → Thread
thread_of (ok (finished m)) = ends
thread_of (ok (waits_for pid)) = blocks
thread_of (throw x) = throws

-- What TotalOrder has made: the threads that it has started, and how its server ended.
pub record TotalOrder : Type 0 where
  pub senders : ThreadGroup
  pub served : Result (Serving Node)

-- A first send that is refused ends SendDataMsg with a SendException.
send_data_msg-refused :
    (host : Host) (client : Client) (id pid : ℕ) (m : DataMessage) (seqs : List ℕ)
    (arrivals : List Arrival)
    → ((buf : List ℕ) → client.sendto buf ≡ false)
    → send_data_msg host client id pid m seqs arrivals ≡ throw Exception.send_exception
unfolding send_data_msg send_with_ack send_loop send
send_data_msg-refused host client id pid m seqs [] refuses = rw (refuses _) refl
send_data_msg-refused host client id pid m seqs (a ∷ rest) refuses = rw (refuses _) refl

collect-refused :
    (host : Host) (t : Sending) (rounds : ℕ) (seqs : List ℕ) (first : Client)
    → 0 < rounds
    → client_for_id t.processes t.clients 0 ≡ ok first
    → ((buf : List ℕ) → first.sendto buf ≡ false)
    → collect host t rounds 0 seqs ≡ throw Exception.send_exception
unfolding collect
collect-refused host t zero seqs first some_process here refuses = absurd (omega arith)
collect-refused host t (suc rounds) seqs first some_process here refuses =
    rw
      (
        here,
        send_data_msg-refused host first t.id 0 (data_msg host t) seqs (t.ack_arrivals 0) refuses,
      )
      refl

module _ (host : Host) (p : Process) (clients : List ClientEntry) (draws : ℕ → Draws) where
  unfoldable pub launch_multicast_sender : ThreadGroup → ℕ → ThreadGroup
  launch_multicast_sender g i =
      add_thread g (thread_of (multicast host (sending_of p clients (draws i))))

  -- The loop of TotalOrder from thread `i` on, with `rounds` threads left.
  unfoldable pub launch_senders : ℕ → ℕ → ThreadGroup → ThreadGroup
  launch_senders zero i g = g
  launch_senders (suc rounds) i g = launch_senders rounds (i + 1) (launch_multicast_sender g i)

  -- TotalOrder.
  unfoldable pub total_order : ℕ → List Incoming → TotalOrder
  total_order send_count incoming = record {
    senders = launch_senders send_count 0 (record { threads = [] });
    served = serve host (start p) incoming;
  }

  abbrev pub sender_thread : ℕ → Thread
  sender_thread i = thread_of (multicast host (sending_of p clients (draws i)))

  launched-tabulate :
      (rounds i : ℕ) (g : ThreadGroup)
      → (launch_senders rounds i g).threads ≡ g.threads ++ tabulate sender_thread i rounds
  unfolding launch_senders launch_multicast_sender add_thread
  launched-tabulate zero i g = sym (append-nil g.threads)
  launched-tabulate (suc rounds) i g =
      launched-tabulate rounds (i + 1) (launch_multicast_sender g i)
      ∙ append_assoc g.threads (sender_thread i ∷ []) (tabulate sender_thread (i + 1) rounds)

  -- TotalOrder starts exactly as many sender threads as it is told, one for each pair of numbers that
  -- are drawn in turn: the i-th runs the multicast of the message with the i-th numbers.
  pub total_order-senders :
      (send_count : ℕ) (incoming : List Incoming)
      → (total_order send_count incoming).senders.threads ≡ tabulate sender_thread 0 send_count
  unfolding total_order
  total_order-senders send_count incoming = launched-tabulate send_count 0 (record { threads = [] })

  -- The destructor of a process whose senders all get their answers returns, with every thread joined:
  -- for each message that was started, every process has a client whose socket takes every datagram, an
  -- acknowledgement of the message comes from every process, and one of its SeqMessage, and before
  -- these no sendto fails, and no receive but by a timeout.
  pub total_order-joined :
      (send_count : ℕ) (incoming : List Incoming)
      → ((i pid : ℕ)
          → i < send_count
          → pid < length p.processes
          → Answers host (sending_of p clients (draws i)) pid)
      → ((i pid : ℕ) (m : SeqMessage)
          → i < send_count
          → pid < length p.processes
          → m.sender ≡ p.id
          → m.msg_id ≡ unique_id (draws i)
          → Comes (Confirms host m) ((draws i).seq_ack_arrivals pid))
      → join_all (total_order send_count incoming).senders ≡ joined (record { threads = [] })
  unfolding sending_of thread_of
  total_order-joined send_count incoming answers confirms =
      (join_all_iff (total_order send_count incoming).senders).1 (
        rw (total_order-senders send_count incoming) (
          All-tabulate (λ t. t ≡ ends) sender_thread 0 send_count
            (λ j a b.
              let (m, e, _) =
                multicast-Finishes host (sending_of p clients (draws j))
                  (λ pid h. answers j pid (omega arith) h)
                  (λ m pid s d h. confirms j pid m (omega arith) h s d) in
              rw e refl)))

  -- A sender thread whose first send is refused lets the exception out of its function.
  sender_thread-throws :
      (i : ℕ) (first : Client)
      → 0 < length p.processes
      → client_for_id p.processes clients 0 ≡ ok first
      → ((buf : List ℕ) → first.sendto buf ≡ false)
      → sender_thread i ≡ throws
  unfolding sending_of thread_of multicast
  sender_thread-throws i first some_process here refuses =
      rw
        (collect-refused host (sending_of p clients (draws i)) (length p.processes)
          (replicate (length p.processes) 0) first some_process here refuses)
        refl
