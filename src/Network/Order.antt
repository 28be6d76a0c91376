-- ===== src/Network/Order.antt =====
-- src/process.cc: the logs of the processes of a group.
use total_order_multicast.Common.{
  ℕ, ◌≤◌, ◌<◌, ◌≡◌, ◌⊎◌, List, [], length, Among, Among-All, All, All-mono,
}
use total_order_multicast.Message.Host.{u32_mod}
use total_order_multicast.Message.{SeqMessage}
use total_order_multicast.HoldBack.{PendingMessageKey, seq_key}
use total_order_multicast.HoldBack.Keys.{Logged}
use total_order_multicast.Process.Agreement.{In, InOrder, log_keys, KeyEarlier}
use total_order_multicast.Network.{
  Network, Group, Action, launched, perform_all, IsPossible, IsCalm, Always,
}
use total_order_multicast.Network.Invariant.{Backed}
use total_order_multicast.Network.Global.{NetInv}
use total_order_multicast.Network.Reachable.{run-NetInv}
use total_order_multicast.Network.Prefix.{
  IsPrefix, Covers, Covers-IsPrefix, KeyEarlier-InOrder, Logged→In, In→Logged,
}
use total_order_multicast.Network.Decided.{
  final_number, member-KeysIncrease, decided-Logged, delivered-sent,
}
use total_order_multicast.Process.Progress.{HasShape-WaitsForSender}
use total_order_multicast.Process.Completion.{drained-Logged}
use total_order_multicast.Process.Agreement.{same_members-eq}

-- Nothing is pending, and every SeqMessage that was sent has been handled.
abbrev pub IsAtRest : Network → ℕ → Type 0
IsAtRest net i =
    ((net.members i).node.process.hold_back_queue.pending_seqs ≡ [])
    × ((m : SeqMessage) → Among m net.seqs → Among (seq_key m) (net.members i).heard)

module _ (g : Group) (net : Network) (w : NetInv g net) where
  abbrev final : PendingMessageKey → ℕ
  final = final_number net.seqs

  member-Covers :
      (i j : ℕ)
      → i < length g.processes
      → j < length g.processes
      → Covers final (log_keys (net.members i).node) (log_keys (net.members j).node)
  member-Covers i j hi hj k l at_j at_i early = Logged→In k _ (
      decided-Logged g net w i hi k l (delivered-sent g net w j hj k (In→Logged k _ at_j))
        (In→Logged l _ at_i) early)

  member-IsPrefix :
      (i j : ℕ)
      → i < length g.processes
      → j < length g.processes
      → IsPrefix (log_keys (net.members i).node) (log_keys (net.members j).node)
        ⊎ IsPrefix (log_keys (net.members j).node) (log_keys (net.members i).node)
  member-IsPrefix i j hi hj =
      Covers-IsPrefix final _ _ (member-KeysIncrease g net w i hi)
        (member-KeysIncrease g net w j hj) (member-Covers j i hj hi) (member-Covers i j hi hj)

  -- A process that has handled every SeqMessage and has no other message pending has delivered them all.
  heard-Logged :
      (i : ℕ)
      → i < length g.processes
      → IsAtRest net i
      → (m : SeqMessage) → Among m net.seqs
      → Logged (seq_key m) (net.members i).node.delivered
  heard-Logged i h (drained, heard) m sent =
      drained-Logged (seq_key m) (net.members i).node
        (HasShape-WaitsForSender (net.members i).node (w.local i h).inv.queue.shape) drained
        ((w.local i h).held (seq_key m) (heard m sent))

  rest-In :
      (i j : ℕ)
      → i < length g.processes
      → j < length g.processes
      → IsAtRest net j
      → (k : PendingMessageKey) → In k (log_keys (net.members i).node)
      → In k (log_keys (net.members j).node)
  rest-In i j hi hj rest k at_i =
      let (m, sent, e) = delivered-sent g net w i hi k (In→Logged k _ at_i) in
      Logged→In k _ (rw (← e) (heard-Logged j hj rest m sent))

module _ (g : Group) (actions : List Action) where
  -- The network after the actions.
  abbrev pub terminal : Network
  terminal = perform_all g (launched g) actions

  -- The network makes up no datagram, and the run is calm.
  abbrev pub IsRun : Type 0
  IsRun =
      (length g.processes ≤ u32_mod)
      × Always g (IsPossible g) (launched g) actions
      × Always g (IsCalm g) (launched g) actions

  abbrev pub log : ℕ → List PendingMessageKey
  log i = log_keys (terminal.members i).node

  terminal-NetInv : IsRun → NetInv g terminal
  terminal-NetInv (small, possible, calm) = run-NetInv g actions small possible calm

  -- Total order of a group: whatever the interleaving of the sender threads, the servers and the
  -- network has been, with messages that were lost, repeated or came out of order, of the logs of any
  -- two processes one is an initial part of the other.
  -- Conditions: the datagrams that arrive were sent by servers and sender threads of the group, no two
  -- messages have one key, no process handles a DataMessage after the SeqMessage for it, and no
  -- sequence counter wraps.
  pub log-IsPrefix :
      (i j : ℕ)
      → i < length g.processes
      → j < length g.processes
      → IsRun
      → IsPrefix (log i) (log j) ⊎ IsPrefix (log j) (log i)
  log-IsPrefix i j hi hj run = member-IsPrefix g terminal (terminal-NetInv run) i j hi hj

  -- No gaps: a process that has delivered a message has delivered every message that comes earlier
  -- in the agreed order and whose final number has been sent by then, even to others only.
  -- Conditions: the datagrams that arrive were sent by servers and sender threads of the group, no two
  -- messages have one key, no process handles a DataMessage after the SeqMessage for it, and no
  -- sequence counter wraps.
  pub log_no_gaps :
      (i : ℕ) (k l : PendingMessageKey)
      → i < length g.processes
      → IsRun
      → ((m : SeqMessage) × Among m terminal.seqs × (seq_key m ≡ k))
      → In l (log i)
      → KeyEarlier (final_number terminal.seqs) k l
      → InOrder k l (log i)
  log_no_gaps i k l h run sent later early =
      let w = terminal-NetInv run in
      KeyEarlier-InOrder (final_number terminal.seqs) k l (log i)
        (member-KeysIncrease g terminal w i h)
        (Logged→In k _ (decided-Logged g terminal w i h k l sent (In→Logged l _ later) early)) later
        early

  -- Integrity of a group: a message that a process has delivered, with its final number, is one that
  -- a sender thread has decided on, and the server of every process has sent an acknowledgement for it,
  -- with its own id and a number that is no larger.
  -- Conditions: the datagrams that arrive were sent by servers and sender threads of the group, no two
  -- messages have one key, no process handles a DataMessage after the SeqMessage for it, and no
  -- sequence counter wraps.
  pub delivered-Backed :
      (i : ℕ)
      → i < length g.processes
      → IsRun
      → All
          (λ d.
            (m : SeqMessage) × Among m terminal.seqs
            × (seq_key m ≡ seq_key d)
            × (m.final_seq ≡ d.final_seq)
            × ((j : ℕ) → j < length g.processes → Backed (g.hosts j) j (terminal.members j) m))
          (terminal.members i).node.delivered
  delivered-Backed i h run =
      let w = terminal-NetInv run in
      All-mono _ _
        (λ d (m, sent, e, same). (m, sent, e, same, λ j l. (w.settled j l).backed m sent)) _
        (w.settled i h).final.logged

  -- Agreement of a group: two processes that have handled every SeqMessage that was sent, and have no
  -- other message pending, have the same log, and every message whose SeqMessage was sent is in it.
  -- Conditions: the datagrams that arrive were sent by servers and sender threads of the group, no two
  -- messages have one key, no process handles a DataMessage after the SeqMessage for it, and no
  -- sequence counter wraps.
  pub rest-same_log :
      (i j : ℕ)
      → i < length g.processes
      → j < length g.processes
      → IsRun
      → IsAtRest terminal i
      → IsAtRest terminal j
      → (log i ≡ log j) × All (λ m. In (seq_key m) (log i)) terminal.seqs
  rest-same_log i j hi hj run rest_i rest_j =
      let w = terminal-NetInv run in
      (
        same_members-eq (final_number terminal.seqs) (log i) (log j)
            (member-KeysIncrease g terminal w i hi) (member-KeysIncrease g terminal w j hj)
            (rest-In g terminal w i j hi hj rest_j) (rest-In g terminal w j i hj hi rest_i),
        Among-All _ terminal.seqs
            (λ m sent. Logged→In (seq_key m) _ (heard-Logged g terminal w i hi rest_i m sent)),
      )
