-- ===== src/Tests/Agreement.antt =====
-- Total order and agreement at the two processes of `Sites`.
use total_order_multicast.Common.{◌≡◌, refl, inl, [], ◌∷◌}
use total_order_multicast.HoldBack.{PendingMessageKey}
use total_order_multicast.HoldBack.Loop.{IsIncreasing}
use total_order_multicast.Process.Server.{Served, AllSafe, AllSafe-mono, outcome, initial}
use total_order_multicast.Process.Final.{IsAgreed}
use total_order_multicast.Process.Order.{IsOrderly, outcome-IsIncreasing}
use total_order_multicast.Process.Agreement.{InOrder, log_keys, no_inversion, same_log}
use total_order_multicast.Tests.Sites.{
  pc, run, site_0, site_1, node_0, node_1, outcome_0, outcome_1, final_of, safe_0, safe_1,
}

abbrev pub key_7 : PendingMessageKey
key_7 = record { sender = 0; msg_id = 7 }

abbrev key_9 : PendingMessageKey
key_9 = record { sender = 1; msg_id = 9 }

log_0 : log_keys node_0 ≡ key_7 ∷ key_9 ∷ []
unfolding run
log_0 = refl

log_1 : log_keys node_1 ≡ key_7 ∷ key_9 ∷ []
unfolding run
log_1 = refl

pub IsOrderly-0 : AllSafe pc (IsOrderly pc) (initial site_0) site_0.incoming
unfolding run
IsOrderly-0 =
    AllSafe-mono pc (IsAgreed final_of pc) (IsOrderly pc) (λ n c b s. s.0) (initial site_0)
      site_0.incoming safe_0

outcome-IsIncreasing_example : Served (λ node. IsIncreasing node.delivered) (outcome site_0)
outcome-IsIncreasing_example = outcome-IsIncreasing site_0 IsOrderly-0

in_order : InOrder key_7 key_9 (log_keys node_0)
unfolding run
in_order = inl (refl, inl refl)

no_inversion_example : ¬ InOrder key_9 key_7 (log_keys node_1)
no_inversion_example =
    no_inversion final_of site_0 site_1 safe_0 safe_1 node_0 node_1 outcome_0 outcome_1 key_7 key_9
      in_order

same_log_example : log_keys node_0 ≡ log_keys node_1
same_log_example =
    same_log final_of site_0 site_1 safe_0 safe_1 node_0 node_1 outcome_0 outcome_1
      (λ k. rw (log_0, log_1) (λ h. h, λ h. h))
