-- ===== src/Net/Failure.antt =====
-- src/net_exception.h: the texts of the exceptions of the network. `errno` is its value when the
-- exception was made, `host` the name that was looked up.
use total_order_multicast.Common.{ℕ, List, ◌++◌, Option, none, some, Exception}
use total_order_multicast.Common.Text.{codes, decimal}

-- What the constructor writes into `stream_`; none for an exception of another kind.
abbrev pub stream : ℕ → List ℕ → Exception → Option (List ℕ)
stream errno host Exception.socket_exception =
    some (codes "Could not create UDP Socket: " ++ decimal errno)
stream errno host Exception.host_not_found = some (codes "Could not find host: " ++ host)
stream errno host Exception.bind_exception =
    some (codes "Could not bind UDP Socket: " ++ decimal errno)
stream errno host Exception.send_exception =
    some (codes "Could not send data on socket: " ++ decimal errno)
stream errno host Exception.receive_exception =
    some (codes "Could not receive data on socket: " ++ decimal errno)
stream errno host x = none
