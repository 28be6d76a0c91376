-- ===== src/Udp/Socket.antt =====
-- src/udp_conn.h and src/udp_conn.cc: SocketAddress, the constructors of Client and Server,
-- RemoteAddress, and the duration of WaitBackoff. The name service is a parameter: gethostbyname and gethostbyaddr. An
-- Internet address is one number.
use total_order_multicast.Common.{
  ℕ, Bool, ◌||◌, ◌+◌, ◌*◌, ◌/◌, ◌%◌, ◌<◌, ◌≡◌, List, Option, none, some, ◌==◌, if◌then◌else◌,
  Result, ok, throw, ◌>>=◌, Exception, arith, Returns,
}
use total_order_multicast.Common.Text.{codes}
use total_order_multicast.Message.Host.{Host, Endian, u32_mod}
use total_order_multicast.Net.{Address, str_eq}
use total_order_multicast.Udp.{
  SocketCalls, TimeVal, SocketAddress, Client, create_socket, Arrival, datagram, failure,
}

pub record NameService : Type 0 where
  pub by_name : List ℕ → Option ℕ
  pub by_address : ℕ → Option (List ℕ)

abbrev swap_bytes : Endian → ℕ → ℕ
swap_bytes Endian.little x = x % 256 * 256 + x / 256 % 256
swap_bytes Endian.big x = x

-- htons and ntohs (arpa/inet.h).
unfoldable pub htons : Host → ℕ → ℕ
htons host x = swap_bytes host.endian x

unfoldable pub ntohs : Host → ℕ → ℕ
ntohs host x = swap_bytes host.endian x

-- The constructor of SocketAddress from an Address.
unfoldable pub resolve : Host → NameService → Address → Result SocketAddress
resolve host names addr = elim (names.by_name addr.hostname) [
  | none ↦ throw Exception.host_not_found
  | some ip ↦ ok (record { ip = ip; sin_port = htons host addr.port })
]

-- SocketAddress::Hostname on a computer with the given name.
unfoldable pub socket_hostname : NameService → List ℕ → SocketAddress → Result (List ℕ)
socket_hostname names own_name s = elim (names.by_address s.ip) [
  | none ↦ throw Exception.host_not_found
  | some name ↦ ok (if str_eq name (codes "localhost") then own_name else name)
]

unfoldable pub socket_port : Host → SocketAddress → ℕ
socket_port host s = ntohs host s.sin_port

-- Client::RemoteAddress and Client::RemoteHostname.
unfoldable pub remote_hostname : NameService → List ℕ → Client → Result (List ℕ)
remote_hostname names own_name client = socket_hostname names own_name client.remote_address

unfoldable pub remote_address : Host → NameService → List ℕ → Client → Result Address
remote_address host names own_name client =
    socket_hostname names own_name client.remote_address >>= (λ hostname.
      ok (record { hostname = hostname; port = socket_port host client.remote_address }))

-- The constructors of Client, with what sendto will accept.
unfoldable pub client_to :
    Host → NameService → SocketCalls → (List ℕ → Bool) → Address → ℕ → Result Client
client_to host names os sendto addr timeout = create_socket os timeout >>= (λ t.
    resolve host names addr
    >>= (λ s. ok (record { timeout = t; remote_address = s; sendto = sendto })))

unfoldable pub client_back : SocketCalls → (List ℕ → Bool) → SocketAddress → Result Client
client_back os sendto s =
    create_socket os 0 >>= (λ t. ok (record { timeout = t; remote_address = s; sendto = sendto }))

-- The socket of a Server: its receive timeout, and the address that it is bound to.
pub record Server : Type 0 where
  pub timeout : Option TimeVal
  pub address : SocketAddress

abbrev pub inaddr_any : ℕ
inaddr_any = 0

-- The constructor of a Server: whether bind succeeds for an address is a parameter.
unfoldable pub new_server : Host → SocketCalls → (SocketAddress → Bool) → ℕ → ℕ → Result Server
new_server host os binds port timeout = create_socket os timeout >>= (λ t.
    let address : SocketAddress = record { ip = inaddr_any; sin_port = htons host port } in
    if binds address
    then ok (record { timeout = t; address = address })
    else throw Exception.bind_exception)

-- The milliseconds that WaitBackoff sleeps after a draw from its distribution, as the bits of an int.
unfoldable pub wait_backoff : ℕ → ℕ → ℕ
wait_backoff draw multiplier = if draw == 0 then 0 else draw * multiplier % u32_mod

-- What the receive timeout of a socket is.
abbrev pub WaitsFor : ℕ → Option TimeVal → Type 0
WaitsFor timeout none = timeout ≡ 0
WaitsFor timeout (some v) =
    (0 < timeout) × (v.usec < 1000000) × (v.sec * 1000000 + v.usec ≡ timeout)

-- Where CreateSocket does not throw, the socket has no receive timeout if the duration is 0, and
-- otherwise one whose seconds and microseconds, fewer than a million, add up to the duration.
pub create_socket-WaitsFor :
    (os : SocketCalls) (timeout : ℕ) → Returns (WaitsFor timeout) (create_socket os timeout)
unfolding create_socket
create_socket-WaitsFor os timeout = ground arith

-- The values of errno on the host that stand for a timeout.
pub record Errnos : Type 0 where
  pub eagain : ℕ
  pub ewouldblock : ℕ
  pub econnrefused : ℕ

unfoldable pub is_errno_timeout : Errnos → ℕ → Bool
is_errno_timeout e errno = errno == e.eagain || errno == e.ewouldblock || errno == e.econnrefused

-- What recvfrom has returned: a datagram, or a negative count with errno.
pub data Received : Type 0 where
  bytes : List ℕ → Received
  error : ℕ → Received

-- As SendWithAck and Listen see it.
abbrev pub arrival : Errnos → Received → Arrival
arrival e (bytes b) = datagram b
arrival e (error errno) = failure (is_errno_timeout e errno)
