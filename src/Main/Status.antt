-- ===== src/Main/Status.antt =====
-- src/main.cc: the exit status of main.
use total_order_multicast.Common.{
  ℕ, ◌≡◌, ◌≢◌, refl, inl, inr, Bool, true, false, none, some, List, [], ◌∷◌, Option-cases, Result,
  ok, throw, Returns, Returns-then, ◌>>=◌, Exception, if◌then◌else◌,
}
use total_order_multicast.Message.Host.{Host}
use total_order_multicast.Message.Wire.{message_type_from_buf}
use total_order_multicast.Net.{Address}
use total_order_multicast.Udp.{
  Client, ServerAction, Incoming, packet, no_packet, Serving, waiting, returned, listen,
  receive_buffer, receive_count, SocketCalls, SocketAddress,
}
use total_order_multicast.Udp.Socket.{NameService, new_server}
use total_order_multicast.Process.{Node, on_receive, dispatch, serve, start}
use total_order_multicast.Thread.{
  ThreadGroup, has_thrown, Joining, joined, waits_at, terminated, join_all,
}
use total_order_multicast.Sender.{make_client, clients_for_process_list}
use total_order_multicast.Sender.Launch.{Draws, TotalOrder, total_order}
use total_order_multicast.Main.{
  Computer, CommandLine, parsed, asks_help, refused, runs, exited, aborted, caught, leave, exit_of,
  exit_main, configure, main,
}

module _ (host : Host) where
  -- The callback asks to go on after every datagram.
  on_receive-continues :
      (node : Node) (client : Client) (buf : List ℕ) (n : ℕ)
      → Returns (λ r. r.1 ≡ ServerAction.continue) (on_receive host node client buf n)
  unfolding on_receive
  on_receive-continues node client buf n = elim (Option-cases (message_type_from_buf host buf n)) [
    | inl e ↦ rw (on_receive, e) refl
    | inr (type, e) ↦
        rw (on_receive, e)
          (Returns-then (λ (r : Node × ServerAction). r.1 ≡ ServerAction.continue)
            (dispatch host type node client buf n) _ (λ a. refl))
  ]

  abbrev KeepsOn : Result (Serving Node) → Type 0
  KeepsOn (ok (waiting node)) = Unit
  KeepsOn (ok (returned node)) = ⊥
  KeepsOn (throw x) = Unit

  serve-KeepsOn : (node : Node) (incoming : List Incoming) → KeepsOn (serve host node incoming)
  unfolding serve listen
  serve-KeepsOn node [] = tt
  serve-KeepsOn node (no_packet true ∷ rest) = tt
  serve-KeepsOn node (no_packet false ∷ rest) = tt
  serve-KeepsOn node (packet none bytes ∷ rest) = tt
  serve-KeepsOn node (packet (some client) bytes ∷ rest) =
      step (on_receive host node client (receive_buffer bytes) (receive_count bytes)) refl
        (on_receive-continues node client (receive_buffer bytes) (receive_count bytes))
        (λ after. serve-KeepsOn after rest)
    where
      step :
          (r : Result (Node × ServerAction))
          → on_receive host node client (receive_buffer bytes) (receive_count bytes) ≡ r
          → Returns (λ q. q.1 ≡ ServerAction.continue) r
          → ((after : Node) → KeepsOn (serve host after rest))
          → KeepsOn (serve host node (packet (some client) bytes ∷ rest))
      step (throw x) e h again = rw e tt
      step (ok (after, ServerAction.stop)) e h again = cc h
      step (ok (after, ServerAction.continue)) e h again = rw e (again after)

  caught-nonzero : (x : Exception) (usage : Bool) → caught x ≢ exited 0 usage
  caught-nonzero Exception.invalid_argument usage e = cc
  caught-nonzero Exception.out_of_range usage e = cc
  caught-nonzero Exception.runtime_error usage e = cc
  caught-nonzero Exception.socket_exception usage e = cc
  caught-nonzero Exception.host_not_found usage e = cc
  caught-nonzero Exception.bind_exception usage e = cc
  caught-nonzero Exception.send_exception usage e = cc
  caught-nonzero Exception.receive_exception usage e = cc
  caught-nonzero Exception.usage_error usage e = cc
  caught-nonzero Exception.validation_error usage e = cc

  leave-nonzero : (x : Exception) (j : Joining) (usage : Bool) → leave (caught x) j ≢ exited 0 usage
  leave-nonzero x (joined g) usage e = caught-nonzero x usage e
  leave-nonzero x (waits_at i) usage e = cc
  leave-nonzero x terminated usage e = cc

  runs-nonzero :
      (b : Bool) (node : Node) (usage : Bool) → (if b then aborted else runs node) ≢ exited 0 usage
  runs-nonzero true node usage e = cc
  runs-nonzero false node usage e = cc

  -- A server that is still running or has failed does not let main exit with status 0.
  exit_of-nonzero :
      (g : ThreadGroup) (r : Result (Serving Node)) (usage : Bool)
      → KeepsOn r
      → exit_of g r ≢ exited 0 usage
  exit_of-nonzero g (ok (waiting node)) usage h e = runs-nonzero (has_thrown g.threads) node usage e
  exit_of-nonzero g (ok (returned node)) usage h e = h
  exit_of-nonzero g (throw x) usage h e = leave-nonzero x (join_all g) usage e

  abbrev OrderKeepsOn : Result TotalOrder → Type 0
  OrderKeepsOn (throw x) = Unit
  OrderKeepsOn (ok o) = KeepsOn o.served

  OrderKeepsOn-then :
      {A : Type 0} (m : Result A) (f : A → Result TotalOrder)
      → ((a : A) → OrderKeepsOn (f a))
      → OrderKeepsOn (m >>= f)
  OrderKeepsOn-then (ok a) f h = h a
  OrderKeepsOn-then (throw x) f h = tt

  exit_main-nonzero :
      (r : Result TotalOrder) (usage : Bool) → OrderKeepsOn r → exit_main r ≢ exited 0 usage
  exit_main-nonzero (throw x) usage h e = caught-nonzero x usage e
  exit_main-nonzero (ok o) usage h e = exit_of-nonzero o.senders o.served usage h e

  -- The program exits with status 0 only where the command line asks for help, and then prints the
  -- usage, whatever the hostfile and the network do.
  pub main-exit :
      (computer : Computer) (names : NameService) (os : SocketCalls)
      (sendto : Address → List ℕ → Bool) (binds : SocketAddress → Bool) (draws : ℕ → Draws)
      (incoming : List Incoming) (command : CommandLine) (usage : Bool)
      → main host computer names os sendto binds draws incoming command ≡ exited 0 usage
      → (command ≡ asks_help) × (usage ≡ true)
  unfolding main total_order
  main-exit computer names os sendto binds draws incoming asks_help usage e = (refl, cc)
  main-exit computer names os sendto binds draws incoming (refused x) usage e =
      absurd (caught-nonzero x usage e)
  main-exit computer names os sendto binds draws incoming (parsed flags) usage e = absurd (
      exit_main-nonzero _ usage
        (OrderKeepsOn-then (configure computer flags) _ (λ c.
          OrderKeepsOn-then
            (clients_for_process_list (make_client host names os sendto) c.0.processes) _
            (λ k.
              OrderKeepsOn-then (new_server host os binds c.0.server_port 0) _
                (λ t. serve-KeepsOn (start c.0) incoming))))
        e)
