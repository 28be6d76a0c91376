-- ===== src/Main.antt =====
-- src/main.cc: the hostfile, the process id and the flow of main. Parameters: what the command line
-- parser (include/args.h) makes of the arguments, the contents of files, the host name of this
-- computer, and the answers of the network.
pub mod Identity
pub mod Configuration
pub mod Status
pub mod Help
use total_order_multicast.Common.{
  ℕ, zero, suc, ◌+◌, Bool, true, false, not, ◌&&◌, ◌||◌, List, [], ◌∷◌, ◌++◌, Option, none, some,
  length, get_elem?, ltb, leb, if◌then◌else◌, Result, ok, throw, ◌>>=◌, Exception,
}
use total_order_multicast.Common.Text.{is_space, ℤ, pos, negsuc, wrap}
use total_order_multicast.Message.Host.{Host, u32_mod}
use total_order_multicast.Net.{Address, get_hostname, str_eq, address_with_default_port, u16_mod}
use total_order_multicast.Udp.{Incoming, Serving, waiting, returned, SocketCalls, SocketAddress}
use total_order_multicast.Udp.Socket.{NameService, new_server}
use total_order_multicast.Thread.{
  ThreadGroup, has_thrown, Joining, joined, waits_at, terminated, join_all,
}
use total_order_multicast.Process.{Process, new_process, Node}
use total_order_multicast.Sender.{or_out_of_range, make_client, clients_for_process_list}
use total_order_multicast.Sender.Launch.{Draws, TotalOrder, total_order}

-- The flags that the parser has read.
pub record Flags : Type 0 where
  pub hostfile : Option (List ℕ)
  pub count : Option ℤ
  pub port : Option ℤ
  pub id : Option ℤ
  pub delays : Bool

-- The computer: a file with its content if it can be opened, and gethostname.
pub record Computer : Type 0 where
  pub open_file : List ℕ → Option (List ℕ)
  pub hostname_buffer : List ℕ

abbrev close_word : List ℕ → List (List ℕ) → List (List ℕ)
close_word [] words = words
close_word (c ∷ word) words = (c ∷ word) ∷ words

-- `file >> host` until the end of the file, behind the letters of a word.
unfoldable pub words_after : List ℕ → List ℕ → List (List ℕ)
words_after word [] = close_word word []
words_after word (c ∷ text) = elim (is_space c) [
  | true ↦ close_word word (words_after [] text)
  | false ↦ words_after (word ++ c ∷ []) text
]

-- The catch clause of GetProcesses.
abbrev pub as_usage_error {ℓ} : {A : Type ℓ} → Result A → Result A
as_usage_error (ok a) = ok a
as_usage_error (throw Exception.invalid_argument) = throw Exception.usage_error
as_usage_error (throw x) = throw x

unfoldable pub read_hosts : List (List ℕ) → Option ℕ → Result (List Address)
read_hosts [] default_port = ok []
read_hosts (host ∷ hosts) default_port =
    as_usage_error (address_with_default_port host default_port)
    >>= (λ addr. read_hosts hosts default_port >>= (λ processes. ok (addr ∷ processes)))

unfoldable pub get_processes : Computer → List ℕ → Option ℕ → Result (List Address)
get_processes computer hostfile default_port = elim (computer.open_file hostfile) [
  | none ↦ throw Exception.runtime_error
  | some content ↦ read_hosts (words_after [] content) default_port
]

unfoldable pub check_process_id : List ℕ → List Address → ℤ → Result ℕ
check_process_id hostname processes (negsuc n) = throw Exception.validation_error
check_process_id hostname processes (pos id) =
    if leb (length processes) id
    then throw Exception.validation_error
    else or_out_of_range (get_elem? processes id) >>= (λ a.
      if not (str_eq a.hostname hostname) then throw Exception.validation_error else ok id)

-- The loop of GetProcessId from index `i` on; `none` is -1. An index fits an int.
unfoldable pub find_process_id : List ℕ → List Address → ℕ → Option ℕ → Result (Option ℕ)
find_process_id hostname [] i found = ok found
find_process_id hostname (a ∷ processes) i found = elim (str_eq a.hostname hostname) [
  | false ↦ find_process_id hostname processes (i + 1) found
  | true ↦ elim found [
    | some first ↦ throw Exception.usage_error
    | none ↦ find_process_id hostname processes (i + 1) (some i)
  ]
]

abbrev pub or_not_found : Option ℕ → Result ℕ
or_not_found none = throw Exception.validation_error
or_not_found (some id) = ok id

unfoldable pub get_process_id : List ℕ → List Address → Result ℕ
get_process_id hostname processes = find_process_id hostname processes 0 none >>= or_not_found

-- A required flag.
abbrev pub required {ℓ} : {A : Type ℓ} → Option A → Result A
required none = throw Exception.usage_error
required (some a) = ok a

abbrev pub default_port : Option ℤ → Option ℕ
default_port none = none
default_port (some port) = some (wrap u16_mod port)

abbrev pub id_of : List ℕ → List Address → Option ℤ → Result ℕ
id_of hostname processes none = get_process_id hostname processes
id_of hostname processes (some id) = check_process_id hostname processes id

-- main, up to the construction of the process, with the count that TotalOrder is given.
unfoldable pub configure : Computer → Flags → Result (Process × ℕ)
configure computer flags = required flags.hostfile >>= (λ hostfile.
    required flags.count >>= (λ count.
      get_processes computer hostfile (default_port flags.port) >>= (λ processes.
        id_of (get_hostname computer.hostname_buffer) processes flags.id >>= (λ id.
          or_out_of_range (get_elem? processes id)
          >>= (λ a. ok (new_process processes id a.port flags.delays, wrap u32_mod count))))))

-- What the parser makes of the command line.
pub data CommandLine : Type 0 where
  parsed : Flags → CommandLine
  asks_help : CommandLine
  refused : Exception → CommandLine

-- The program still runs, or it has exited with a status and has printed the usage or not; or it is
-- leaving and waits for a sender thread, or std::terminate has ended it.
pub data Exit : Type 0 where
  runs : Node → Exit
  exited : ℕ → Bool → Exit
  joins : ℕ → Exit
  aborted : Exit

-- The catch clauses of main.
abbrev pub caught : Exception → Exit
caught Exception.usage_error = exited 1 true
caught x = exited 1 false

-- The process is destroyed where TotalOrder is left: its sender threads are joined first.
abbrev pub leave : Exit → Joining → Exit
leave e (joined g) = e
leave e (waits_at i) = joins i
leave e terminated = aborted

-- The end of TotalOrder, and of the body of main.
abbrev pub exit_of : ThreadGroup → Result (Serving Node) → Exit
exit_of g (ok (waiting node)) = if has_thrown g.threads then aborted else runs node
exit_of g (ok (returned node)) = leave (exited 0 false) (join_all g)
exit_of g (throw x) = leave (caught x) (join_all g)

abbrev pub exit_main : Result TotalOrder → Exit
exit_main (throw x) = caught x
exit_main (ok o) = exit_of o.senders o.served

-- main. `names` is the name service; `sendto` tells what the socket of the client for an address
-- accepts; `binds` tells whether bind succeeds for an address; `draws` are the random numbers and the
-- arrivals of each sender thread.
module _ (host : Host) (computer : Computer) (names : NameService) (os : SocketCalls)
    (sendto : Address → List ℕ → Bool) (binds : SocketAddress → Bool) (draws : ℕ → Draws)
    (incoming : List Incoming) where
  unfoldable pub main : CommandLine → Exit
  main asks_help = exited 0 true
  main (refused x) = caught x
  main (parsed flags) = exit_main (
      configure computer flags >>= (λ c.
        clients_for_process_list (make_client host names os sendto) c.0.processes >>= (λ clients.
          new_server host os binds c.0.server_port 0
          >>= (λ _. ok (total_order host c.0 clients draws c.1 incoming)))))
