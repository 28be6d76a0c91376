-- ===== src/Network/Reachable.antt =====
-- src/process.cc: what holds of a group and its network after any actions.
use total_order_multicast.Common.{
  ℕ, ◌≤◌, ◌≡◌, refl, List, [], ◌∷◌, ◌++◌, length, Result, ok, throw, ◌>>=◌, arith,
}
use total_order_multicast.Message.Host.{u32_mod}
use total_order_multicast.Message.{DataMessage, SeqMessage, data_message_type, seq_message_type}
use total_order_multicast.HoldBack.{PendingMessageKey, seq_key}
use total_order_multicast.Udp.{Client, ServerAction}
use total_order_multicast.Process.{Node}
use total_order_multicast.Process.Reception.{receive-data_msg, receive-seq_msg}
use total_order_multicast.Sender.{Sending, Phase, finished, waits_for, seq_msg}
use total_order_multicast.Network.{
  Network, Group, Action, send_data, send_seq, receive_data, receive_seq, launched, collected,
  announced, received, perform, perform_all, IsPossible, IsCalm, Always,
}
use total_order_multicast.Network.Invariant.{Local, Settled}
use total_order_multicast.Network.Data.{accept_data-Local}
use total_order_multicast.Network.Seq.{accept_seq-Local}
use total_order_multicast.Network.Decision.{seq_msg-IsFounded}
use total_order_multicast.Network.Global.{
  NetInv, launched-NetInv, member-NetInv, send_data-NetInv, decided-NetInv,
}

module _ (g : Group) where
  abbrev n : ℕ
  n = length g.processes

  module _ (small : n ≤ u32_mod) (net : Network) (w : NetInv g net) where
    -- A sender thread that has its acknowledgements, or has not, or has failed.
    announced-NetInv :
        (t : Sending) (r : Result (Phase (List ℕ)))
        → IsPossible g net (send_seq t)
        → IsCalm g net (send_seq t)
        → collected g t ≡ r
        → NetInv g (announced g net t r)
    announced-NetInv t (throw x) possible calm e = w
    announced-NetInv t (ok (waits_for pid)) possible calm e = w
    announced-NetInv t (ok (finished numbers)) (sender, genuine) calm e =
        decided-NetInv g net w (seq_msg (g.hosts t.id) t numbers)
          (seq_msg-IsFounded g net small w.local t sender genuine numbers e) calm

    received-NetInv :
        (i : ℕ) (heard : List PendingMessageKey) (handled : Result Node)
        → ((after : Node)
            → handled ≡ ok after
            → let mem = record (net.members i) { node = after; heard = heard } in
              Local (g.hosts i) n i mem × Settled (g.hosts i) i net.seqs mem)
        → NetInv g
            (received g net i heard (handled >>= (λ after. ok (after, ServerAction.continue))))
    received-NetInv i heard (throw x) step = w
    received-NetInv i heard (ok after) step =
        member-NetInv g net w i (record { node = after; heard = heard }) (step after refl)

    receive_data-NetInv :
        (i : ℕ) (client : Client) (d : DataMessage)
        → IsPossible g net (receive_data i client d)
        → IsCalm g net (receive_data i client d)
        → NetInv g (perform g net (receive_data i client d))
    unfolding perform
    receive_data-NetInv i client d (h, sent) (timely, room) =
        let l = w.local i h in
        let (fits, sender) = w.datas d sent in
        rw
          (receive-data_msg (g.hosts d.sender) (g.hosts i) (net.members i).node client d fits
            (rw l.count sender))
          (received-NetInv i (net.members i).heard _ (λ after done.
            accept_data-Local (g.hosts i) n i (net.members i) l client
              (record d { type = data_message_type }) (omega arith) fits room timely after net.seqs
              done (w.settled i h)))

    receive_seq-NetInv :
        (i : ℕ) (client : Client) (m : SeqMessage)
        → IsPossible g net (receive_seq i client m)
        → NetInv g (perform g net (receive_seq i client m))
    unfolding perform
    receive_seq-NetInv i client m (h, sent) =
        let l = w.local i h in
        let (fits, sender, proposer) = w.seqs m sent in
        rw
          (receive-seq_msg (g.hosts m.sender) (g.hosts i) (net.members i).node client m fits
            (rw l.count sender) (rw l.count proposer))
          (received-NetInv i (seq_key m ∷ (net.members i).heard) _ (λ after done.
            accept_seq-Local (g.hosts i) n i (net.members i) l client
              (record m { type = seq_message_type }) ((w.settled i h).backed m sent) after net.seqs
              done (m, sent, refl, refl) (w.settled i h)))

    perform-NetInv : (a : Action) → IsPossible g net a → IsCalm g net a → NetInv g (perform g net a)
    unfolding perform
    perform-NetInv (send_data t) possible calm = send_data-NetInv g net w t small possible
    perform-NetInv (send_seq t) possible calm =
        announced-NetInv t (collected g t) possible calm refl
    perform-NetInv (receive_data i client d) possible calm =
        receive_data-NetInv i client d possible calm
    perform-NetInv (receive_seq i client m) possible calm = receive_seq-NetInv i client m possible

  reachable-NetInv :
      (small : n ≤ u32_mod) (net : Network) (actions : List Action)
      → NetInv g net
      → Always g (IsPossible g) net actions
      → Always g (IsCalm g) net actions
      → NetInv g (perform_all g net actions)
  reachable-NetInv small net [] w possible calm = w
  reachable-NetInv small net (a ∷ rest) w possible calm =
      reachable-NetInv small (perform g net a) rest (perform-NetInv small net w a possible.0 calm.0)
        possible.1 calm.1

  -- What holds after any actions of a group that has been launched.
  pub run-NetInv :
      (actions : List Action)
      → n ≤ u32_mod
      → Always g (IsPossible g) (launched g) actions
      → Always g (IsCalm g) (launched g) actions
      → NetInv g (perform_all g (launched g) actions)
  run-NetInv actions small possible calm =
      reachable-NetInv small (launched g) actions (launched-NetInv g) possible calm

  -- What holds of every action of one list and then of every action of another.
  pub Always-append :
      (P : Network → Action → Type 0) (net : Network) (first last : List Action)
      → Always g P net first
      → Always g P (perform_all g net first) last
      → Always g P net (first ++ last)
  Always-append P net [] last h k = k
  Always-append P net (a ∷ rest) last h k = (h.0, Always-append P (perform g net a) rest last h.1 k)
