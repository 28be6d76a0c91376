-- ===== src/Process/Completion.antt =====
-- src/process.cc: the deliveries of a process for which no SeqMessage is missing.
use total_order_multicast.Common.{◌≡◌, subst, inl, inr, some, [], length, ok}
use total_order_multicast.HoldBack.{PendingMessageKey, find}
use total_order_multicast.HoldBack.Keys.{Queued, Logged}
use total_order_multicast.Udp.{waiting}
use total_order_multicast.Process.{Node}
use total_order_multicast.Process.Server.{Served, Site, outcome}
use total_order_multicast.Process.Progress.{WaitsForSender, outcome-WaitsForSender}
use total_order_multicast.Process.Retention.{Holds}
use total_order_multicast.Process.Acceptance.{AcceptedIn, outcome-Holds}

-- Nothing is pending, so nothing is queued.
pub drained-Logged :
    (k : PendingMessageKey) (node : Node)
    → WaitsForSender node.process.hold_back_queue
    → node.process.hold_back_queue.pending_seqs ≡ []
    → Holds k node
    → Logged k node.delivered
unfolding find
drained-Logged k node w e (inr l) = l
drained-Logged k node (inl empty) e (inl q) = absurd (subst (λ pms. Queued k pms) empty q)
drained-Logged k node (inr (pm, rest, _, _, recorded)) e (inl q) =
    absurd (cc (subst (λ ps. find pm.pmk ps ≡ some pm.pms) e recorded))

-- Liveness: a process that waits for datagrams and has had the SeqMessage of every message that it
-- has recorded, so that `pending_seqs_` is empty, has delivered every message of which it has received
-- a valid DataMessage.
pub outcome-Logged :
    (s : Site) (node : Node) (k : PendingMessageKey)
    → outcome s ≡ ok (waiting node)
    → node.process.hold_back_queue.pending_seqs ≡ []
    → AcceptedIn s.host (length s.processes) s.incoming k
    → Logged k node.delivered
outcome-Logged s node k e drained a =
    drained-Logged k node
      (subst (Served (λ n. WaitsForSender n.process.hold_back_queue)) e (outcome-WaitsForSender s))
      drained (subst (Served (Holds k)) e (outcome-Holds s k a))
