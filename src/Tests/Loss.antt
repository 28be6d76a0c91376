-- ===== src/Tests/Loss.antt =====
-- No loss, no duplicates, and a late replay at process 0 of `Sites`.
use total_order_multicast.Common.{◌+◌, ◌<◌, ◌≡◌, refl, subst, [], inl, none, some, ok, arith}
use total_order_multicast.HoldBack.{find}
use total_order_multicast.HoldBack.Keys.{Queued, Logged}
use total_order_multicast.Message.Host.{load_u32, store_u32, htonl, ntohl}
use total_order_multicast.Message.Valid.{valid_data_msg}
use total_order_multicast.Message.Wire.{data_msg_from_buf, data_msg_bytes, field_at, field_bytes}
use total_order_multicast.Udp.{waiting, receive_buffer, receive_count}
use total_order_multicast.Process.{Node, accept_data}
use total_order_multicast.Process.Invariant.{NodeInv}
use total_order_multicast.Process.Server.{Served, outcome}
use total_order_multicast.Process.Final.{Given, FinalInv, outcome-FinalInv}
use total_order_multicast.Process.Retention.{Holds}
use total_order_multicast.Process.Completion.{outcome-Logged}
use total_order_multicast.Process.Acceptance.{AcceptedIn, outcome-Holds}
use total_order_multicast.Process.Agreement.{InOrder, log_keys, no_duplicates}
use total_order_multicast.Process.Replay.{accept_data-late}
use total_order_multicast.Tests.Sites.{
  pc, run, site_0, node_0, outcome_0, final_of, safe_0, open_client, data_of,
}
use total_order_multicast.Tests.Agreement.{key_7}
use total_order_multicast.Tests.Node.{state_of}

message_7-AcceptedIn : AcceptedIn pc 2 site_0.incoming key_7
unfolding data_msg_from_buf data_msg_bytes field_at field_bytes load_u32 store_u32 htonl ntohl
    receive_buffer receive_count valid_data_msg
message_7-AcceptedIn = inl (record (data_of 0 7) { type = 1 }, refl, refl, refl)

outcome-Holds_example : Served (Holds key_7) (outcome site_0)
outcome-Holds_example = outcome-Holds site_0 key_7 message_7-AcceptedIn

no_duplicates_example : ¬ InOrder key_7 key_7 (log_keys node_0)
no_duplicates_example = no_duplicates final_of site_0 safe_0 node_0 outcome_0 key_7

node_0-NodeInv : NodeInv node_0
node_0-NodeInv =
    let h : Served (λ n. NodeInv n × FinalInv (Given final_of) n) (ok (waiting node_0)) =
      subst (Served (λ n. NodeInv n × FinalInv (Given final_of) n)) outcome_0
        (outcome-FinalInv final_of site_0 safe_0) in
    h.0

-- Process 0 after a late copy of message 7.
abbrev late : Node
late = state_of (accept_data pc node_0 open_client (data_of 0 7))

late-ok : accept_data pc node_0 open_client (data_of 0 7) ≡ ok late
unfolding run
late-ok = refl

below_last : node_0.process.seq_counter + 1 < 4294967296
unfolding run
below_last = omega arith

message_7-Logged : Logged key_7 node_0.delivered
unfolding run
message_7-Logged = inl refl

no_record : find key_7 node_0.process.hold_back_queue.pending_seqs ≡ none
unfolding run
no_record = refl

accept_data-late_example :
    (find key_7 late.process.hold_back_queue.pending_seqs
      ≡ some (record { seq = node_0.process.seq_counter + 1; seq_proposer = node_0.process.id }))
    × Queued key_7 late.process.hold_back_queue.ordering
    × Logged key_7 late.delivered
accept_data-late_example =
    accept_data-late pc node_0 late open_client (data_of 0 7) node_0-NodeInv.queue.shape below_last
      message_7-Logged no_record late-ok

drained : node_0.process.hold_back_queue.pending_seqs ≡ []
unfolding run
drained = refl

outcome-Logged_example : Logged key_7 node_0.delivered
outcome-Logged_example = outcome-Logged site_0 node_0 key_7 outcome_0 drained message_7-AcceptedIn
