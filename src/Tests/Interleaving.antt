-- ===== src/Tests/Interleaving.antt =====
-- The logs of the two processes of `Runs`.
use total_order_multicast.Common.{ℕ, ◌<◌, ◌≡◌, refl, ap, ◌⊎◌, inl, inr, length, Among, All, arith}
use total_order_multicast.Message.{SeqMessage}
use total_order_multicast.HoldBack.{seq_key}
use total_order_multicast.Process.Agreement.{In, InOrder, KeyEarlier}
use total_order_multicast.Network.Invariant.{Backed}
use total_order_multicast.Network.Decided.{final_number}
use total_order_multicast.Network.Prefix.{IsPrefix}
use total_order_multicast.Network.Order.{
  terminal, log, IsAtRest, log-IsPrefix, log_no_gaps, delivered-Backed, rest-same_log,
}
use total_order_multicast.Tests.Threads.{
  pair, first_actions, all_actions, run_of, key_7, key_9, seq_7,
}
use total_order_multicast.Tests.Runs.{IsRun-first, IsRun-all}

log-IsPrefix_example :
    IsPrefix (log pair first_actions 0) (log pair first_actions 1)
    ⊎ IsPrefix (log pair first_actions 1) (log pair first_actions 0)
log-IsPrefix_example = log-IsPrefix pair first_actions 0 1 (omega arith) (omega arith) IsRun-first

seq_7-sent : (m : SeqMessage) × Among m (terminal pair first_actions).seqs × (seq_key m ≡ key_7)
unfolding run_of
seq_7-sent = (seq_7, inr (inl refl), refl)

key_9-In : In key_9 (log pair first_actions 0)
unfolding run_of
key_9-In = inr (inl refl)

key_7-early : KeyEarlier (final_number (terminal pair first_actions).seqs) key_7 key_9
unfolding run_of
key_7-early = inr (inl (refl, omega arith))

log_no_gaps_example : InOrder key_7 key_9 (log pair first_actions 0)
log_no_gaps_example =
    log_no_gaps pair first_actions 0 key_7 key_9 (omega arith) IsRun-first seq_7-sent key_9-In
      key_7-early

delivered-Backed_example :
    All
      (λ d.
        (m : SeqMessage) × Among m (terminal pair first_actions).seqs
        × (seq_key m ≡ seq_key d)
        × (m.final_seq ≡ d.final_seq)
        × ((j : ℕ)
            → j < length pair.processes
            → Backed (pair.hosts j) j ((terminal pair first_actions).members j) m))
      ((terminal pair first_actions).members 0).node.delivered
delivered-Backed_example = delivered-Backed pair first_actions 0 (omega arith) IsRun-first

rest_0 : IsAtRest (terminal pair all_actions) 0
unfolding run_of
rest_0 = (
  refl,
  λ m h. elim h [
    | inl e ↦ inl (ap seq_key e)
    | inr (inl e) ↦ inr (inl (ap seq_key e))
    | inr (inr x) ↦ absurd x
  ],
)

rest_1 : IsAtRest (terminal pair all_actions) 1
unfolding run_of
rest_1 = (
  refl,
  λ m h. elim h [
    | inl e ↦ inl (ap seq_key e)
    | inr (inl e) ↦ inr (inl (ap seq_key e))
    | inr (inr x) ↦ absurd x
  ],
)

rest-same_log_example :
    (log pair all_actions 0 ≡ log pair all_actions 1)
    × All (λ m. In (seq_key m) (log pair all_actions 0)) (terminal pair all_actions).seqs
rest-same_log_example =
    rest-same_log pair all_actions 0 1 (omega arith) (omega arith) IsRun-all rest_0 rest_1
