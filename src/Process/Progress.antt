-- ===== src/Process/Progress.antt =====
-- src/process.cc: what may hold up the deliveries of a process.
use total_order_multicast.Common.{◌≡◌, refl, ◌⊎◌, inl, inr, false, some, List, [], ◌∷◌, All}
use total_order_multicast.HoldBack.{PendingMessage, HoldBackQueue, find}
use total_order_multicast.HoldBack.Loop.{HeadWaits}
use total_order_multicast.HoldBack.Invariant.{IsRecorded}
use total_order_multicast.Process.{Node}
use total_order_multicast.Process.Server.{Served, Served-mono, Site, outcome}
use total_order_multicast.Process.Robust.{HasShape, outcome-HasShape}

-- The queue is empty, or its first message is recorded as still waiting for a SeqMessage.
abbrev pub WaitsForSender : HoldBackQueue → Type 0
WaitsForSender q =
    (q.ordering ≡ [])
    ⊎ ((pm : PendingMessage) × (rest : List PendingMessage) × (q.ordering ≡ pm ∷ rest)
        × (pm.deliverable ≡ false)
        × (find pm.pmk q.pending_seqs ≡ some pm.pms))

head-WaitsForSender :
    (q : HoldBackQueue) (pms : List PendingMessage)
    → q.ordering ≡ pms
    → HeadWaits pms
    → All (IsRecorded q.pending_seqs) pms
    → WaitsForSender q
head-WaitsForSender q [] e w r = inl e
head-WaitsForSender q (pm ∷ pms) e w r = inr (pm, pms, e, w, r.0 w)

pub HasShape-WaitsForSender :
    (node : Node) → HasShape node → WaitsForSender node.process.hold_back_queue
HasShape-WaitsForSender node shape =
    head-WaitsForSender node.process.hold_back_queue _ refl shape.waits shape.recorded

-- Whatever datagrams a process has received, everything that may be delivered is: if a message is
-- left in its queue, the first one is undeliverable, and `pending_seqs_` records the number that it
-- has proposed for that message.
pub outcome-WaitsForSender :
    (s : Site) → Served (λ node. WaitsForSender node.process.hold_back_queue) (outcome s)
outcome-WaitsForSender s = Served-mono HasShape-WaitsForSender _ (outcome-HasShape s)
