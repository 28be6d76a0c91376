-- ===== src/Tests/Startup.antt =====
-- Addresses, the hostfile, sockets and the configuration of main on concrete inputs.
use total_order_multicast.Common.{
  ℕ, Bool, ◌==◌, ◌≡◌, refl, true, false, List, [], ◌∷◌, ◌++◌, none, some, ok, throw, Exception,
  Returns, arith,
}
use total_order_multicast.Common.Text.{
  pos, codes, decimal, decimal_before, is_space, is_digit, stoi, leading_number, wrap,
}
use total_order_multicast.Net.{
  Address, str_eq, address_eq, show_address, split_at_colon, address_with_default_port,
}
use total_order_multicast.Net.RoundTrip.{address_with_default_port-show_address}
use total_order_multicast.Udp.{Client, SocketAddress, SocketCalls, create_socket}
use total_order_multicast.Udp.Socket.{
  NameService, resolve, client_to, new_server, htons, WaitsFor, create_socket-WaitsFor,
}
use total_order_multicast.Sender.Launch.{Draws}
use total_order_multicast.Main.Status.{main-exit}
use total_order_multicast.Main.{
  main, asks_help, exited, Computer, Flags, get_processes, read_hosts, words_after, get_process_id,
  configure,
}
use total_order_multicast.Main.Identity.{ids_on_host, only, get_process_id-only}
use total_order_multicast.Main.Configuration.{IsItself, configure-IsItself}
use total_order_multicast.Sender.{
  ClientEntry, client_for_id, clients_for_process_list, add_clients, emplace,
}
use total_order_multicast.Sender.Clients.{client_for_id-connect}
use total_order_multicast.Tests.Sites.{pc, open_client}

abbrev xinu_1 : Address
xinu_1 = record { hostname = codes "xinu01"; port = 1234 }

abbrev xinu_2 : Address
xinu_2 = record { hostname = codes "xinu02"; port = 4321 }

-- A hostfile of two lines.
abbrev computer : Computer
computer = record {
  open_file = λ name. some (codes "xinu01:1234" ++ 10 ∷ codes "xinu02" ++ 10 ∷ []);
  hostname_buffer = codes "xinu02" ++ 0 ∷ 0 ∷ [];
}

hostfile_lines : get_processes computer (codes "hostfile") (some 4321) ≡ ok (xinu_1 ∷ xinu_2 ∷ [])
unfolding get_processes read_hosts words_after address_with_default_port split_at_colon stoi
    leading_number is_space is_digit wrap
hostfile_lines = refl

-- A port that does not fit 16 bits is cut, and a missing one is refused.
large_port : address_with_default_port (codes "xinu01:66770") none ≡ ok xinu_1
unfolding address_with_default_port split_at_colon stoi leading_number is_space is_digit wrap
large_port = refl

missing_port : address_with_default_port (codes "xinu01") none ≡ throw Exception.invalid_argument
unfolding address_with_default_port split_at_colon
missing_port = refl

shown : show_address xinu_1 ≡ codes "xinu01:1234"
unfolding show_address decimal decimal_before
shown = refl

address_with_default_port-show_address_example :
    (address_with_default_port (show_address xinu_1) none ≡ ok xinu_1)
    × (address_with_default_port xinu_1.hostname (some 1234) ≡ ok xinu_1)
address_with_default_port-show_address_example =
    address_with_default_port-show_address xinu_1 none 1234
      ((λ e. cc), ((λ e. cc), ((λ e. cc), ((λ e. cc), ((λ e. cc), ((λ e. cc), tt)))))) (omega arith)

get_process_id-only_example :
    get_process_id (codes "xinu02") (xinu_1 ∷ xinu_2 ∷ [])
    ≡ only (ids_on_host (codes "xinu02") 0 (xinu_1 ∷ xinu_2 ∷ []))
get_process_id-only_example = get_process_id-only (codes "xinu02") (xinu_1 ∷ xinu_2 ∷ [])

abbrev some_flags : Flags
some_flags = record {
  hostfile = some (codes "hostfile");
  count = some (pos 2);
  port = some (pos 4321);
  id = none;
  delays = false;
}

abbrev names : NameService
names = record { by_name = λ n. some 7; by_address = λ ip. some (codes "xinu01") }

abbrev os : SocketCalls
os = record { opens = true; reuses = true; times_out = true }

-- The client for the first address: it is resolved, and has a timeout of a quarter of a second.
first_client :
    client_to pc names os (λ buf. true) xinu_1 250000
    ≡ ok (record {
      timeout = some (record { sec = 0; usec = 250000 });
      remote_address = record { ip = 7; sin_port = 53764 };
      sendto = λ buf. true;
    })
unfolding client_to resolve create_socket htons
first_client = refl

abbrev binds : SocketAddress → Bool
binds address = address.sin_port == 57616

-- Port 4321 in network byte order on a little-endian host.
bound :
    new_server pc os binds 4321 0
    ≡ ok (record { timeout = none; address = record { ip = 0; sin_port = 57616 } })
unfolding new_server create_socket htons
bound = refl

configure-IsItself_example :
    Returns (IsItself pc os binds computer some_flags) (configure computer some_flags)
configure-IsItself_example = configure-IsItself pc os binds computer some_flags

create_socket-WaitsFor_example : Returns (WaitsFor 250000) (create_socket os 250000)
create_socket-WaitsFor_example = create_socket-WaitsFor os 250000

-- No thread is started, so nothing is drawn.
abbrev no_draws : ℕ → Draws
no_draws i = record {
  id_draw = 0;
  data_draw = 0;
  ack_arrivals = λ pid. [];
  seq_ack_arrivals = λ pid. [];
}

asks_for_help :
    main pc computer names os (λ a buf. true) binds no_draws [] asks_help ≡ exited 0 true
unfolding main
asks_for_help = refl

main-exit_example : (asks_help ≡ asks_help) × (true ≡ true)
main-exit_example =
    main-exit pc computer names os (λ a buf. true) binds no_draws [] asks_help true asks_for_help

-- The clients of a hostfile that names one address twice.
abbrev repeated : List Address
repeated = xinu_1 ∷ xinu_2 ∷ xinu_1 ∷ []

abbrev repeated_clients : List ClientEntry
repeated_clients =
    record { address = xinu_1; client = open_client }
    ∷ record { address = xinu_2; client = open_client }
    ∷ []

two_clients : clients_for_process_list (λ a. ok open_client) repeated ≡ ok repeated_clients
unfolding clients_for_process_list add_clients emplace address_eq str_eq
two_clients = refl

client_for_id-connect_example :
    (c : Client) × (client_for_id repeated repeated_clients 2 ≡ ok c) × (ok open_client ≡ ok c)
client_for_id-connect_example =
    client_for_id-connect (λ a. ok open_client) repeated repeated_clients 2 xinu_1 two_clients refl
