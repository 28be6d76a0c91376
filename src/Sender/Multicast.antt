-- ===== src/Sender/Multicast.antt =====
-- src/process.cc: a whole sender thread, and the SeqMessage that it multicasts.
use total_order_multicast.Common.{
  ℕ, ◌≤◌, ◌<◌, ◌≡◌, refl, ◌∙◌, ◌⊎◌, List, some, length, get_elem?, replicate, All, length-replicate,
  Returns, Returns->>=, Returns-mono, arith,
}
use total_order_multicast.Message.Host.{Host}
use total_order_multicast.Message.{SeqMessage}
use total_order_multicast.Sender.{
  Phase, finished, waits_for, then_phase, Sending, seq_msg, announce, multicast,
}
use total_order_multicast.Sender.Selection.{IsFirst, select_final-Selects}
use total_order_multicast.Sender.Collect.{IsAcked, Collected, collect-Collected}
use total_order_multicast.Sender.Announce.{IsConfirmed, Announced, announce-Announced}

module _ (host : Host) (t : Sending) where
  -- Every process has acknowledged the message with a number that is at most the final one, which
  -- is the number of the first process that proposed the largest; and every process has acknowledged
  -- the SeqMessage.
  abbrev pub Decided : SeqMessage → Type 0
  Decided m =
      (m.sender ≡ t.id)
      × (m.msg_id ≡ t.msg_id)
      × ((seqs : List ℕ) × (length seqs ≡ length t.processes)
          × ((pid : ℕ)
              → pid < length t.processes
              → (seq : ℕ) × (get_elem? seqs pid ≡ some seq) × IsAcked host t pid seq)
          × All (λ s. s ≤ m.final_seq) seqs
          × (((m.final_seq ≡ 0) × (m.final_seq_proposer ≡ 0))
              ⊎ ((0 < m.final_seq) × IsFirst seqs m.final_seq_proposer m.final_seq)))
      × ((pid : ℕ) → pid < length t.processes → IsConfirmed host t m pid)

  abbrev pub Multicasts : Phase SeqMessage → Type 0
  Multicasts (waits_for pid) = pid < length t.processes
  Multicasts (finished m) = Decided m

  announce-Multicasts :
      (seqs : List ℕ)
      → Collected host t (length t.processes) 0 (replicate (length t.processes) 0) (finished seqs)
      → Returns Multicasts (announce host t (length t.processes) 0 (seq_msg host t seqs))
  announce-Multicasts seqs (len, _, new) =
      Returns-mono (Announced host t (seq_msg host t seqs) (length t.processes) 0) Multicasts decide
        _ (announce-Announced host t (seq_msg host t seqs) (length t.processes) 0)
    where
      decide :
          (p : Phase SeqMessage)
          → Announced host t (seq_msg host t seqs) (length t.processes) 0 p
          → Multicasts p
      decide (waits_for pid) h = omega arith
      decide (finished m) (e, confirmed) = rw e (
        refl,
        refl,
        (
          seqs,
          len ∙ length-replicate {A = ℕ} (length t.processes) 0,
          (λ pid l. new pid (omega arith) (omega arith)),
          (select_final-Selects seqs).0,
          (select_final-Selects seqs).1,
        ),
        λ pid l. confirmed pid (omega arith) (omega arith),
      )

  -- Where no exception is thrown, a sender thread that ends has had an acknowledgement of its message
  -- from every process, which arrived at the client of that process and names it as the proposer; the
  -- final number of its SeqMessage is the largest of the acknowledged numbers, its proposer the first
  -- process that proposed that number (0 by process 0 if all are 0); and every process has acknowledged
  -- the SeqMessage. A thread that has not ended waits for one of the processes.
  pub multicast-Multicasts : Returns Multicasts (multicast host t)
  unfolding multicast
  multicast-Multicasts =
      Returns->>= (Collected host t (length t.processes) 0 (replicate (length t.processes) 0))
        Multicasts _ _
        (collect-Collected host t (length t.processes) 0 (replicate (length t.processes) 0)
          (omega (arith, length-replicate {A = ℕ} (length t.processes) 0)))
        next
    where
      next :
          (p : Phase (List ℕ))
          → Collected host t (length t.processes) 0 (replicate (length t.processes) 0) p
          → Returns Multicasts
              (then_phase p (λ seqs. announce host t (length t.processes) 0 (seq_msg host t seqs)))
      next (waits_for pid) h = omega arith
      next (finished seqs) h = announce-Multicasts seqs h
