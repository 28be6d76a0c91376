-- ===== src/Network/Decided.antt =====
-- src/process.cc: the log of one process of a group, and the SeqMessages that were sent.
use total_order_multicast.Common.{
  ℕ, ◌<◌, ◌≡◌, refl, sym, ap, subst, ◌∙◌, inl, inr, true, List, [], ◌∷◌, length, Among, All,
  All-mono, All-mono₂, if◌then◌else◌, Bool-cases, arith,
}
use total_order_multicast.Common.OrderedSet
use total_order_multicast.Common.OrderedSet.Laws.{count-All}
use total_order_multicast.Message.{SeqMessage}
use total_order_multicast.HoldBack.{
  PendingMessageKey, PendingMessageSeq, PendingMessage, before, key_eq, seq_key, undeliverable,
}
use total_order_multicast.HoldBack.Order.{before_total}
use total_order_multicast.HoldBack.Loop.{Follows}
use total_order_multicast.HoldBack.Keys.{Queued, Logged}
use total_order_multicast.HoldBack.Invariant.{IsRecorded}
use total_order_multicast.HoldBack.Pending.{key_eq→eq, key_eq_refl}
use total_order_multicast.Process.{Node}
use total_order_multicast.Process.Final.{Given, HasFinal, IsFinal}
use total_order_multicast.Process.Agreement.{log_keys, KeyEarlier, KeysIncrease, log-KeysIncrease}
use total_order_multicast.Network.{Network, Group}
use total_order_multicast.Network.Invariant.{DecidedBy}
use total_order_multicast.Network.Global.{NetInv}

-- The final number of a message: that of the SeqMessage for it.
abbrev pub final_number : List SeqMessage → PendingMessageKey → ℕ
final_number [] k = 0
final_number (m ∷ ms) k = if key_eq (seq_key m) k then m.final_seq else final_number ms k

Logged-All :
    (P : SeqMessage → Type 0) (k : PendingMessageKey) (ms : List SeqMessage)
    → Logged k ms
    → All P ms
    → (m : SeqMessage) × (seq_key m ≡ k) × P m
Logged-All P k [] h a = absurd h
Logged-All P k (m ∷ ms) (inl e) a = (m, e, a.0)
Logged-All P k (m ∷ ms) (inr h) a = Logged-All P k ms h a.1

Queued-All :
    (P : PendingMessage → Type 0) (k : PendingMessageKey) (pms : List PendingMessage)
    → Queued k pms
    → All P pms
    → (pm : PendingMessage) × (pm.pmk ≡ k) × P pm
Queued-All P k [] h a = absurd h
Queued-All P k (pm ∷ pms) (inl e) a = (pm, e, a.0)
Queued-All P k (pm ∷ pms) (inr h) a = Queued-All P k pms h a.1

-- A number that was decided is found, where a message has one number.
Decided-number :
    (m : SeqMessage) (seqs : List SeqMessage)
    → Among m seqs
    → ((q : SeqMessage) → Among q seqs → seq_key q ≡ seq_key m → q.final_seq ≡ m.final_seq)
    → final_number seqs (seq_key m) ≡ m.final_seq
Decided-number m [] h one = absurd h
Decided-number m (q ∷ qs) h one = elim (Bool-cases (key_eq (seq_key q) (seq_key m))) [
  | inl same ↦ rw same (one q (inl refl) (key_eq→eq (seq_key q) (seq_key m) same))
  | inr other ↦ rw other (elim h [
    | inl e ↦ absurd (cc (e, other, key_eq_refl (seq_key m)))
    | inr later ↦ Decided-number m qs later (λ p a same. one p (inr a) same)
  ])
]

-- A delivered message has a smaller number than what is pending.
pending-later :
    (d : SeqMessage) (k : PendingMessageKey) (v : PendingMessageSeq) (pms : List PendingMessage)
    → OrderedSet.count before (undeliverable k v 0) pms ≡ true
    → All (Follows d) pms
    → d.final_seq < v.seq
pending-later d k v pms here follows =
    let (pm, a, b, after) = count-All before (Follows d) (undeliverable k v 0) pms here follows in
    let same = before_total (undeliverable k v 0) pm a b in ground (arith, same.seq, same.state)

module _ (g : Group) (net : Network) (w : NetInv g net) where
  abbrev final : PendingMessageKey → ℕ
  final = final_number net.seqs

  DecidedBy-Given : (k : PendingMessageKey) (f : ℕ) → DecidedBy net.seqs k f → Given final k f
  DecidedBy-Given k f (m, sent, e, same) =
      let found = Decided-number m net.seqs sent (λ q h eq. w.unique q m h sent eq) in
      sym same ∙ (sym found ∙ ap final e)

  module _ (i : ℕ) (h : i < length g.processes) where
    abbrev node : Node
    node = (net.members i).node

    logged-Given : All (HasFinal (Given final)) node.delivered
    logged-Given =
        All-mono _ _ (λ d f. DecidedBy-Given (seq_key d) d.final_seq f) node.delivered
          (w.settled i h).final.logged

    pub member-KeysIncrease : KeysIncrease final (log_keys node)
    member-KeysIncrease =
        log-KeysIncrease final node.delivered (w.local i h).inv.increasing logged-Given

    -- A queued message for which a SeqMessage was handled carries its final number.
    heard-number :
        (k : PendingMessageKey)
        → Among k (net.members i).heard
        → (pm : PendingMessage) → pm.pmk ≡ k
        → IsRecorded node.process.hold_back_queue.pending_seqs pm
        → IsFinal (DecidedBy net.seqs) pm
        → (pm.deliverable ≡ true) × (pm.pms.seq ≡ final k)
    heard-number k heard pm e recorded decided = elim (Bool-cases pm.deliverable) [
      | inl d ↦ (d, DecidedBy-Given pm.pmk pm.pms.seq (decided d) ∙ ap final e)
      | inr u ↦ absurd (((w.local i h).pending pm.pmk pm.pms (recorded u)).2 (rw e heard))
    ]

    -- No message waits in the queue that comes before a delivered one and is decided.
    Queued-not_decided :
        (d m : SeqMessage)
        → HasFinal (Given final) d
        → All (Follows d) node.process.hold_back_queue.ordering
        → Among (seq_key m) (net.members i).heard
        → Queued (seq_key m) node.process.hold_back_queue.ordering
        → KeyEarlier final (seq_key m) (seq_key d)
        → ⊥
    Queued-not_decided d m number follows heard queued early =
        let inv = (w.local i h).inv in
        let placed : All Placed node.process.hold_back_queue.ordering =
          All-mono₂ (Follows d) (λ pm. Recorded pm × IsFinal (DecidedBy net.seqs) pm) Placed
            (λ pm a b. (a, b.0, b.1)) node.process.hold_back_queue.ordering follows
            (All-mono₂ Recorded (IsFinal (DecidedBy net.seqs)) _ (λ pm a b. (a, b))
              node.process.hold_back_queue.ordering inv.queue.shape.recorded
              (w.settled i h).final.queued) in
        let (pm, e, (after, recorded, decided)) = Queued-All Placed (seq_key m) _ queued placed in
        let (_, same) = heard-number (seq_key m) heard pm e recorded decided in
        ground (arith, e, same, number, after, early)
      where
        Recorded : PendingMessage → Type 0
        Recorded = IsRecorded node.process.hold_back_queue.pending_seqs

        Placed : PendingMessage → Type 0
        Placed pm = Follows d pm × Recorded pm × IsFinal (DecidedBy net.seqs) pm

    -- A message whose SeqMessage was sent has been delivered before any message that comes later.
    sent-Logged :
        (d m : SeqMessage)
        → HasFinal (Given final) d
        → All (Follows d) node.process.hold_back_queue.ordering
        → Among m net.seqs
        → KeyEarlier final (seq_key m) (seq_key d)
        → Logged (seq_key m) node.delivered
    sent-Logged d m number follows sent early =
        let (v, le, _, bound) = (w.settled i h).backed m sent in
        elim bound [
          | inl pending ↦
              let later =
                pending-later d (seq_key m) v _
                  ((w.local i h).inv.queue.shape.queued (seq_key m) v 0 pending) follows in
              let found = DecidedBy-Given (seq_key m) m.final_seq (m, sent, refl, refl) in
              absurd (omega (arith, later, le, found, number, early))
          | inr heard ↦ elim ((w.local i h).held (seq_key m) heard) [
            | inr logged ↦ logged
            | inl queued ↦ absurd (Queued-not_decided d m number follows heard queued early)
          ]
        ]

    pub decided-Logged :
        (k l : PendingMessageKey)
        → ((m : SeqMessage) × Among m net.seqs × (seq_key m ≡ k))
        → Logged l node.delivered
        → KeyEarlier final k l
        → Logged k node.delivered
    decided-Logged k l (m, sent, e) logged early =
        let (d, key, (number, follows)) =
          Logged-All
            (λ d. HasFinal (Given final) d × All (Follows d) node.process.hold_back_queue.ordering)
            l node.delivered logged
            (All-mono₂ _ _ _ (λ d a b. (a, b)) node.delivered logged-Given
              (w.local i h).inv.follows) in
        rw (← e) (
          sent-Logged d m number follows sent (
            subst (λ j. KeyEarlier final j (seq_key d)) (sym e)
              (subst (KeyEarlier final k) (sym key) early)))

    pub delivered-sent :
        (k : PendingMessageKey)
        → Logged k node.delivered
        → (m : SeqMessage) × Among m net.seqs × (seq_key m ≡ k)
    delivered-sent k logged =
        let (d, key, (m, sent, e, _)) =
          Logged-All (HasFinal (DecidedBy net.seqs)) k node.delivered logged
            (w.settled i h).final.logged in
        (m, sent, e ∙ key)
