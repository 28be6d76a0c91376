-- ===== src/Network/Invariant.antt =====
-- src/process.cc: what holds of a process in a group, between two actions.
use total_order_multicast.Common.{
  ℕ, ◌≤◌, ◌<◌, ◌≡◌, ◌⊎◌, inl, inr, some, List, [], ◌∷◌, ◌++◌, length, Among, Among-append,
}
use total_order_multicast.Message.Host.{Host, u32_mod}
use total_order_multicast.Message.{AckMessage, SeqMessage, SeqAckMessage}
use total_order_multicast.Message.Wire.{ack_msg_bytes, seq_ack_msg_bytes}
use total_order_multicast.Message.Wire.RoundTrip.{AckMessageFits}
use total_order_multicast.HoldBack.{
  PendingMessageKey, PendingMessageSeq, find, ack_key, ack_seq, seq_key,
}
use total_order_multicast.Process.Invariant.{NodeInv}
use total_order_multicast.Process.Final.{FinalInv}
use total_order_multicast.Process.Retention.{Holds}
use total_order_multicast.Process.Seq.{Dominates}
use total_order_multicast.Network.{Member}

-- This number is recorded for the message, as long as no SeqMessage for it has been handled.
abbrev pub Recorded : Member → PendingMessageKey → PendingMessageSeq → Type 0
Recorded mem k v =
    (find k mem.node.process.hold_back_queue.pending_seqs ≡ some v) ⊎ Among k mem.heard

-- The process with id `i` has sent an acknowledgement with this number for the message.
abbrev pub HasProposed : Host → ℕ → Member → PendingMessageKey → PendingMessageSeq → Type 0
HasProposed host i mem k v =
    (a : AckMessage) × Among (ack_msg_bytes host a) mem.node.sent
    × (ack_key a ≡ k)
    × (ack_seq a ≡ v)
    × (a.proposer ≡ i)

-- What a process sends: an acknowledgement with its own id and a recorded number, or the
-- acknowledgement of a SeqMessage.
abbrev pub IsReply : Host → ℕ → Member → List ℕ → Type 0
IsReply host i mem bytes =
    ((a : AckMessage) × (bytes ≡ ack_msg_bytes host a)
      × AckMessageFits a
      × (a.proposer ≡ i)
      × Recorded mem (ack_key a) (ack_seq a))
    ⊎ ((q : SeqAckMessage) × (bytes ≡ seq_ack_msg_bytes host q))

-- The process with id `i` has sent an acknowledgement for the message of the SeqMessage, with a number
-- that is no larger than the final one, and still has it recorded where it has not handled the
-- SeqMessage.
abbrev pub Backed : Host → ℕ → Member → SeqMessage → Type 0
Backed host i mem m =
    (v : PendingMessageSeq) × (v.seq ≤ m.final_seq)
    × HasProposed host i mem (seq_key m) v
    × Recorded mem (seq_key m) v

-- One of the SeqMessages has this number for the message.
abbrev pub DecidedBy : List SeqMessage → PendingMessageKey → ℕ → Type 0
DecidedBy seqs k f = (m : SeqMessage) × Among m seqs × (seq_key m ≡ k) × (m.final_seq ≡ f)

-- Of a pending message: the recorded number fits, is the process's own, and no SeqMessage for it was
-- handled.
abbrev pub IsOpen : ℕ → List PendingMessageKey → PendingMessageKey → PendingMessageSeq → Type 0
IsOpen i heard k v = (v.seq < u32_mod) × (v.seq_proposer ≡ i) × (¬ Among k heard)

-- What holds of the process with id `i` among `n`, whatever was decided.
pub record Local (host : Host) (n i : ℕ) (mem : Member) : Type 0 where
  pub inv : NodeInv mem.node
  pub count : length mem.node.process.processes ≡ n
  pub identity : mem.node.process.id ≡ i
  pub pending :
      (k : PendingMessageKey) (v : PendingMessageSeq)
      → find k mem.node.process.hold_back_queue.pending_seqs ≡ some v
      → IsOpen i mem.heard k v
  pub replies : (bytes : List ℕ) → Among bytes mem.node.sent → IsReply host i mem bytes
  -- A message whose SeqMessage was handled waits in the queue or has been delivered.
  pub held : (k : PendingMessageKey) → Among k mem.heard → Holds k mem.node

-- What holds of it with regard to the SeqMessages that were sent.
pub record Settled (host : Host) (i : ℕ) (seqs : List SeqMessage) (mem : Member) : Type 0 where
  pub final : FinalInv (DecidedBy seqs) mem.node
  pub backed : (m : SeqMessage) → Among m seqs → Backed host i mem m

-- Numbers stay recorded, and what was sent was sent.
abbrev pub Grows : Member → Member → Type 0
Grows mem mem' =
    ((k : PendingMessageKey) (v : PendingMessageSeq) → Recorded mem k v → Recorded mem' k v)
    × ((bytes : List ℕ) → Among bytes mem.node.sent → Among bytes mem'.node.sent)

module _ (host : Host) (n i : ℕ) (mem mem' : Member) (grows : Grows mem mem') where
  pub Backed-Grows : (m : SeqMessage) → Backed host i mem m → Backed host i mem' m
  Backed-Grows m (v, le, (a, sent, key, number, own), b) =
      (v, le, (a, grows.1 _ sent, key, number, own), grows.0 (seq_key m) v b)

  IsReply-Grows : (bytes : List ℕ) → IsReply host i mem bytes → IsReply host i mem' bytes
  IsReply-Grows bytes (inl (a, e, fits, own, b)) =
      inl (a, e, fits, own, grows.0 (ack_key a) (ack_seq a) b)
  IsReply-Grows bytes (inr r) = inr r

  -- One more datagram was sent.
  pub replies-Grows :
      (sent : List (List ℕ)) (bytes : List ℕ)
      → ((b : List ℕ) → Among b sent → IsReply host i mem b)
      → IsReply host i mem' bytes
      → (b : List ℕ) → Among b (sent ++ bytes ∷ [])
      → IsReply host i mem' b
  replies-Grows sent bytes old new b h = elim (Among-append b sent bytes h) [
    | inl before ↦ IsReply-Grows b (old b before)
    | inr same ↦ rw (← same) new
  ]

-- A SeqMessage that is backed carries no smaller number than is recorded for its message.
pub Backed-Dominates :
    (host : Host) (n i : ℕ) (mem : Member) (m : SeqMessage)
    → Local host n i mem
    → Backed host i mem m
    → Dominates m mem.node.process.hold_back_queue
Backed-Dominates host n i mem m l (v, le, _, inl e) w f =
    let same : v ≡ w = cc (e, f) in rw (← same) le
Backed-Dominates host n i mem m l (v, le, _, inr heard) w f =
    absurd ((l.pending (seq_key m) w f).2 heard)
