-- ===== src/Main/Configuration.antt =====
-- src/main.cc: the process that main makes, against the hostfile.
use total_order_multicast.Common.{
  ℕ, suc, ◌+◌, ◌≡◌, refl, inl, inr, not, List, [], ◌∷◌, Option, none, some, length, leb, get_elem?,
  All, All-mono, Bool-cases, ok, throw, ◌>>=◌, Returns, Returns-×, Returns->>=, Returns-known,
  Returns-then, Exception, Bool, if◌then◌else◌, arith,
}
use total_order_multicast.Common.Text.{ℤ, pos, negsuc, wrap}
use total_order_multicast.HoldBack.{empty}
use total_order_multicast.Message.Host.{Host, u32_mod}
use total_order_multicast.Udp.{SocketCalls, SocketAddress, create_socket}
use total_order_multicast.Udp.Socket.{new_server, htons, inaddr_any}
use total_order_multicast.Net.{Address, get_hostname, str_eq}
use total_order_multicast.Process.{Process}
use total_order_multicast.Sender.{or_out_of_range}
use total_order_multicast.Net.Hash.{str_eq→eq}
use total_order_multicast.Main.{
  required, get_processes, default_port, Computer, Flags, check_process_id, get_process_id, id_of,
  configure,
}
use total_order_multicast.Main.Identity.{ids_on_host, only, get_process_id-only}

-- The process with this id is on the host.
abbrev pub IsOn : List ℕ → List Address → ℕ → Type 0
IsOn hostname processes id =
    (a : Address) × (get_elem? processes id ≡ some a) × (a.hostname ≡ hostname)

-- The same, with the ids counted from `i`.
abbrev IsOnFrom : List ℕ → ℕ → List Address → ℕ → Type 0
IsOnFrom hostname i processes id = (k : ℕ) × (id ≡ i + k) × IsOn hostname processes k

IsOnFrom-later :
    (hostname : List ℕ) (i : ℕ) (a : Address) (processes : List Address) (id : ℕ)
    → IsOnFrom hostname (i + 1) processes id
    → IsOnFrom hostname i (a ∷ processes) id
IsOnFrom-later hostname i a processes id (k, e, on) = (suc k, omega arith, on)

ids_on_host-IsOnFrom :
    (hostname : List ℕ) (i : ℕ) (processes : List Address)
    → All (IsOnFrom hostname i processes) (ids_on_host hostname i processes)
ids_on_host-IsOnFrom hostname i [] = tt
ids_on_host-IsOnFrom hostname i (a ∷ processes) =
    let later : All (IsOnFrom hostname i (a ∷ processes)) (ids_on_host hostname (i + 1) processes) =
      All-mono _ _ (IsOnFrom-later hostname i a processes) _
        (ids_on_host-IsOnFrom hostname (i + 1) processes) in
    elim (Bool-cases (str_eq a.hostname hostname)) [
      | inl e ↦ rw (ids_on_host, e) ((0, omega arith, (a, refl, str_eq→eq _ _ e)), later)
      | inr e ↦ rw (ids_on_host, e) later
    ]

only-Returns : (P : ℕ → Type 0) (ids : List ℕ) → All P ids → Returns P (only ids)
only-Returns P [] h = tt
only-Returns P (i ∷ []) h = h.0
only-Returns P (i ∷ j ∷ ids) h = tt

get_process_id-IsOn :
    (hostname : List ℕ) (processes : List Address)
    → Returns (IsOn hostname processes) (get_process_id hostname processes)
get_process_id-IsOn hostname processes = rw (get_process_id-only hostname processes) (
    only-Returns (IsOn hostname processes) (ids_on_host hostname 0 processes)
      (All-mono _ _ from_zero _ (ids_on_host-IsOnFrom hostname 0 processes)))
  where
    from_zero : (id : ℕ) → IsOnFrom hostname 0 processes id → IsOn hostname processes id
    from_zero id (k, e, on) = let same : id ≡ k = omega arith in rw same on

check_process_id-IsOn :
    (hostname : List ℕ) (processes : List Address) (my_id : ℤ)
    → Returns (IsOn hostname processes) (check_process_id hostname processes my_id)
unfolding check_process_id
check_process_id-IsOn hostname processes (negsuc n) = tt
check_process_id-IsOn hostname processes (pos id) = elim (Bool-cases (leb (length processes) id)) [
  | inl e ↦ rw e tt
  | inr e ↦ rw e (at_id (get_elem? processes id) refl)
]
  where
    at_id :
        (o : Option Address)
        → get_elem? processes id ≡ o
        → Returns (IsOn hostname processes) (
            or_out_of_range o >>= (λ a.
              if not (str_eq a.hostname hostname) then throw Exception.validation_error else ok id))
    at_id none f = tt
    at_id (some a) f = elim (Bool-cases (str_eq a.hostname hostname)) [
      | inl e ↦ rw e (a, f, str_eq→eq _ _ e)
      | inr e ↦ rw e tt
    ]

id_of-IsOn :
    (hostname : List ℕ) (processes : List Address) (id : Option ℤ)
    → Returns (IsOn hostname processes) (id_of hostname processes id)
id_of-IsOn hostname processes none = get_process_id-IsOn hostname processes
id_of-IsOn hostname processes (some id) = check_process_id-IsOn hostname processes id

-- How the id comes about: without --id it is the only index of this host, and with it the given one.
abbrev pub IsChosen : List ℕ → List Address → Option ℤ → ℕ → Type 0
IsChosen hostname processes none id = ids_on_host hostname 0 processes ≡ id ∷ []
IsChosen hostname processes (some given) id = given ≡ pos id

only-Returns_eq : (ids : List ℕ) → Returns (λ id. ids ≡ id ∷ []) (only ids)
only-Returns_eq [] = tt
only-Returns_eq (i ∷ []) = refl
only-Returns_eq (i ∷ j ∷ ids) = tt

check_process_id-IsChosen :
    (hostname : List ℕ) (processes : List Address) (given : ℤ)
    → Returns (λ id. given ≡ pos id) (check_process_id hostname processes given)
unfolding check_process_id
check_process_id-IsChosen hostname processes (negsuc n) = tt
check_process_id-IsChosen hostname processes (pos id) =
    elim (Bool-cases (leb (length processes) id)) [
      | inl e ↦ rw e tt
      | inr e ↦ rw e (
          Returns-then (λ j. pos id ≡ pos j) (or_out_of_range (get_elem? processes id)) _
            (λ a. elim (Bool-cases (str_eq a.hostname hostname)) [
              | inl same ↦ rw same refl
              | inr other ↦ rw other tt
            ]))
    ]

id_of-IsChosen :
    (hostname : List ℕ) (processes : List Address) (id : Option ℤ)
    → Returns (IsChosen hostname processes id) (id_of hostname processes id)
id_of-IsChosen hostname processes none =
    rw (get_process_id-only hostname processes) (only-Returns_eq (ids_on_host hostname 0 processes))
id_of-IsChosen hostname processes (some given) = check_process_id-IsChosen hostname processes given

required-some {ℓ} : {A : Type ℓ} (o : Option A) (a : A) → required o ≡ ok a → o ≡ some a
required-some none a e = cc
required-some (some b) a e = cc

module _ (host : Host) (os : SocketCalls) (binds : SocketAddress → Bool) (computer : Computer)
    (flags : Flags) where
  abbrev own_name : List ℕ
  own_name = get_hostname computer.hostname_buffer

  -- The processes are those of the hostfile, in its order; the id is that of an entry on this host,
  -- chosen as above; the server is bound to the port of that entry; the flags are passed on.
  abbrev pub IsItself : Process × ℕ → Type 0
  IsItself (p, count) =
      ((hostfile : List ℕ) × (flags.hostfile ≡ some hostfile)
        × (get_processes computer hostfile (default_port flags.port) ≡ ok p.processes))
      × ((a : Address) × (get_elem? p.processes p.id ≡ some a)
          × (a.hostname ≡ own_name)
          × (p.server_port ≡ a.port)
          × Returns (λ server. server.address.sin_port ≡ htons host a.port)
              (new_server host os binds p.server_port 0))
      × IsChosen own_name p.processes flags.id p.id
      × (p.delays ≡ flags.delays)
      × (p.seq_counter ≡ 0)
      × (p.hold_back_queue ≡ empty)
      × ((given : ℤ) × (flags.count ≡ some given) × (count ≡ wrap u32_mod given))

  new_server-port :
      (port : ℕ)
      → Returns
          (λ server. server.address.sin_port ≡ htons host port)
          (new_server host os binds port 0)
  unfolding new_server
  new_server-port port = Returns-then _ (create_socket os 0) _ (λ t.
      elim (Bool-cases (binds (record { ip = inaddr_any; sin_port = htons host port }))) [
        | inl e ↦ rw e refl
        | inr e ↦ rw e tt
      ])

  -- Where main gets as far as to make a process, its list of processes is what GetProcesses reads from
  -- the hostfile that --hostfile names, in the same order; its id is that of an entry with the name of
  -- this host, without --id the only such entry and with --id the given one; the Server that is made
  -- for it, where that does not throw, is bound to the port of that entry; it is given --delays and
  -- --count, its queue is empty and its sequence counter 0.
  pub configure-IsItself : Returns IsItself (configure computer flags)
  unfolding configure
  configure-IsItself = Returns-known IsItself (required flags.hostfile) _ (λ hostfile named.
      Returns-known IsItself (required flags.count) _ (λ count counted.
        Returns-known IsItself (get_processes computer hostfile (default_port flags.port)) _
          (λ processes read.
            Returns->>= (λ id. IsOn own_name processes id × IsChosen own_name processes flags.id id)
              IsItself _ _
              (Returns-× (IsOn own_name processes) (IsChosen own_name processes flags.id) _
                (id_of-IsOn own_name processes flags.id)
                (id_of-IsChosen own_name processes flags.id))
              (λ id ((a, e, h), chosen).
                rw (or_out_of_range, e)
                  (
                    (hostfile, required-some flags.hostfile hostfile named, read),
                    (a, e, h, refl, new_server-port a.port),
                    chosen,
                    refl,
                    refl,
                    refl,
                    (count, required-some flags.count count counted, refl),
                  )))))
