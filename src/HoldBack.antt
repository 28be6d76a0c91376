-- ===== src/HoldBack.antt =====
-- src/process.h and src/process.cc: PendingMessage and its comparator, and the HoldBackQueue.
-- `pending_seqs_` is an association list, `ordering_` a std::set in its iteration order.
-- The field `data` of the source is `payload`; a `deliver` callback is the list of its calls.
pub mod Order
pub mod Invariant
pub mod Insertion
pub mod Finalization
pub mod Loop
pub mod Pending
pub mod Keys
pub mod Contents
pub mod Split
pub mod Refinement
use total_order_multicast.Common.{
  ℕ, Bool, true, false, not, ◌&&◌, Option, none, some, List, [], ◌∷◌, ltb, ◌==◌, ◌!=◌,
  if◌then◌else◌, Result, ok, throw, Exception,
}
use total_order_multicast.Common.OrderedSet
use total_order_multicast.Message.Host.{Host}
use total_order_multicast.Message.{DataMessage, AckMessage, SeqMessage}

pub record PendingMessageKey : Type 0 where
  pub sender : ℕ
  pub msg_id : ℕ

abbrev pub key_eq : PendingMessageKey → PendingMessageKey → Bool
key_eq k other = k.sender == other.sender && k.msg_id == other.msg_id

pub record PendingMessageSeq : Type 0 where
  pub seq : ℕ
  pub seq_proposer : ℕ

pub record PendingMessage : Type 0 where
  pub pmk : PendingMessageKey
  pub pms : PendingMessageSeq
  pub payload : ℕ
  pub deliverable : Bool

-- `!=` on bool.
abbrev pub differ : Bool → Bool → Bool
differ true b = not b
differ false b = b

-- `operator<`: by sequence number, undeliverable first, by sender, by message id.
unfoldable pub before : PendingMessage → PendingMessage → Bool
before lhs rhs =
    if lhs.pms.seq != rhs.pms.seq
    then ltb lhs.pms.seq rhs.pms.seq
    else if differ lhs.deliverable rhs.deliverable
    then not lhs.deliverable
    else if lhs.pmk.sender != rhs.pmk.sender
    then ltb lhs.pmk.sender rhs.pmk.sender
    else if lhs.pmk.msg_id != rhs.pmk.msg_id
    then ltb lhs.pmk.msg_id rhs.pmk.msg_id
    else false

-- The entries of `pending_seqs_`.
pub record PendingSeq : Type 0 where
  pub key : PendingMessageKey
  pub value : PendingMessageSeq

-- `pending_seqs_.find`, `pending_seqs_[pmk] = pms` and `pending_seqs_.erase`.
unfoldable pub find : PendingMessageKey → List PendingSeq → Option PendingMessageSeq
find k [] = none
find k (p ∷ ps) = if key_eq p.key k then some p.value else find k ps

unfoldable pub assign : PendingMessageKey → PendingMessageSeq → List PendingSeq → List PendingSeq
assign k v [] = record { key = k; value = v } ∷ []
assign k v (p ∷ ps) =
    if key_eq p.key k then record { key = p.key; value = v } ∷ ps else p ∷ assign k v ps

unfoldable pub remove : PendingMessageKey → List PendingSeq → List PendingSeq
remove k [] = []
remove k (p ∷ ps) = if key_eq p.key k then ps else p ∷ remove k ps

pub record HoldBackQueue : Type 0 where
  pub pending_seqs : List PendingSeq
  pub ordering : List PendingMessage

abbrev pub empty : HoldBackQueue
empty = record { pending_seqs = []; ordering = [] }

abbrev pub data_key : DataMessage → PendingMessageKey
data_key m = record { sender = m.sender; msg_id = m.msg_id }

abbrev pub ack_key : AckMessage → PendingMessageKey
ack_key m = record { sender = m.sender; msg_id = m.msg_id }

abbrev pub seq_key : SeqMessage → PendingMessageKey
seq_key m = record { sender = m.sender; msg_id = m.msg_id }

-- The acknowledgement for what is recorded; its type field is not written.
abbrev pub old_ack : Host → DataMessage → PendingMessageSeq → AckMessage
old_ack host m pms = record {
  type = host.uninit;
  sender = m.sender;
  msg_id = m.msg_id;
  proposed_seq = pms.seq;
  proposer = pms.seq_proposer;
}

unfoldable pub lookup : Host → HoldBackQueue → DataMessage → Option AckMessage
lookup host q m = elim (find (data_key m) q.pending_seqs) [
  | none ↦ none
  | some pms ↦ some (old_ack host m pms)
]

abbrev pub ack_seq : AckMessage → PendingMessageSeq
ack_seq ack = record { seq = ack.proposed_seq; seq_proposer = ack.proposer }

abbrev pub undeliverable : PendingMessageKey → PendingMessageSeq → ℕ → PendingMessage
undeliverable pmk pms payload = record {
  pmk = pmk;
  pms = pms;
  payload = payload;
  deliverable = false;
}

-- The insertion into `ordering_`, behind the first check.
insert_ordered : HoldBackQueue → PendingMessage → Result HoldBackQueue
insert_ordered q pm =
    if OrderedSet.count before pm q.ordering
    then throw Exception.invalid_argument
    else ok (record q { ordering = OrderedSet.insert before pm q.ordering })

abbrev is_pending : PendingMessageKey → List PendingSeq → Bool
is_pending k ps = elim (find k ps) [ none ↦ false | some _ ↦ true ]

unfoldable pub insert_undeliverable : HoldBackQueue → AckMessage → ℕ → Result HoldBackQueue
unfolding insert_ordered
insert_undeliverable q ack payload =
    if is_pending (ack_key ack) q.pending_seqs
    then throw Exception.invalid_argument
    else insert_ordered
        (record q { pending_seqs = assign (ack_key ack) (ack_seq ack) q.pending_seqs })
        (undeliverable (ack_key ack) (ack_seq ack) payload)

-- The message handed to `deliver`; its type field is not written.
unfoldable pub to_deliver : Host → PendingMessage → SeqMessage
to_deliver host pm = record {
  type = host.uninit;
  sender = pm.pmk.sender;
  msg_id = pm.pmk.msg_id;
  final_seq = pm.pms.seq;
  final_seq_proposer = pm.pms.seq_proposer;
}

-- What a call leaves in the queue, and the calls of `deliver` that it made, in order.
pub record Delivery : Type 0 where
  pub rest : List PendingMessage
  pub calls : List SeqMessage

-- The loop over `ordering_`: deliver and erase while the head is deliverable.
unfoldable pub deliver_ready : Host → List PendingMessage → Delivery
deliver_ready host [] = record { rest = []; calls = [] }
deliver_ready host (pm ∷ pms) =
    let later = deliver_ready host pms in
    if not pm.deliverable
    then record { rest = pm ∷ pms; calls = [] }
    else record { rest = later.rest; calls = to_deliver host pm ∷ later.calls }

-- The pending message with its final sequence number. Its payload is that of a local variable that
-- was never written: the payload of the erased element is lost.
abbrev pub finalized : Host → SeqMessage → PendingMessage
finalized host m = record {
  pmk = seq_key m;
  pms = record { seq = m.final_seq; seq_proposer = m.final_seq_proposer };
  payload = host.uninit;
  deliverable = true;
}

-- `ordering_` after the pending message was erased and inserted again.
unfoldable pub reorder :
    Host → SeqMessage → PendingMessageSeq → List PendingMessage → List PendingMessage
reorder host m old_pms ordering =
    OrderedSet.insert before (finalized host m)
      (OrderedSet.erase before (undeliverable (seq_key m) old_pms host.uninit) ordering)

pub record Update : Type 0 where
  pub queue : HoldBackQueue
  pub calls : List SeqMessage

unfoldable pub set_deliverable : Host → HoldBackQueue → SeqMessage → Update
set_deliverable host q m = elim (find (seq_key m) q.pending_seqs) [
  | none ↦ record { queue = q; calls = [] }
  | some old_pms ↦
      let d = deliver_ready host (reorder host m old_pms q.ordering) in
      record {
        queue = record { pending_seqs = remove (seq_key m) q.pending_seqs; ordering = d.rest };
        calls = d.calls;
      }
]
