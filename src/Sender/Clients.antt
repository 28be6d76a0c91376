-- ===== src/Sender/Clients.antt =====
-- src/process.cc and src/process.h: ClientsForProcessList and ClientForId.
use total_order_multicast.Common.{
  ℕ, ◌≡◌, refl, ◌⊎◌, inl, inr, true, List, [], ◌∷◌, some, get_elem?, All, Bool-cases, Result,
  Result-cases, ok, throw, zero, suc, arith,
}
use total_order_multicast.Net.{Address, address_eq}
use total_order_multicast.Net.Hash.{address_eq→eq, address_eq_refl}
use total_order_multicast.Udp.{Client}
use total_order_multicast.Sender.{
  ClientEntry, find_client, emplace, add_clients, clients_for_process_list, client_for_id,
}

-- The map holds a client for the address.
abbrev pub Has : Address → List ClientEntry → Type 0
Has a es = (c : Client) × (find_client a es ≡ some c)

module _ (a : Address) (x : ClientEntry) (es : List ClientEntry) where
  Has-here : address_eq x.address a ≡ true → Has a (x ∷ es)
  unfolding find_client
  Has-here e = (x.client, rw e refl)

  Has-later : Has a es → Has a (x ∷ es)
  unfolding find_client
  Has-later (c, h) = elim (Bool-cases (address_eq x.address a)) [
    | inl e ↦ (x.client, rw e refl)
    | inr e ↦ (c, rw e h)
  ]

  Has-cases : Has a (x ∷ es) → (address_eq x.address a ≡ true) ⊎ Has a es
  unfolding find_client
  Has-cases (c, h) = elim (Bool-cases (address_eq x.address a)) [
    | inl e ↦ inl e
    | inr e ↦ inr (c, rw e at h)
  ]

-- What is there stays there, and the new address is there.
emplace-Has :
    (a b : Address) (c : Client) (es : List ClientEntry)
    → Has a es ⊎ (b ≡ a)
    → Has a (emplace b c es)
unfolding emplace
emplace-Has a b c [] (inl (d, e)) = unfold find_client in cc
emplace-Has a b c [] (inr same) = Has-here a _ [] (rw same (address_eq_refl a))
emplace-Has a b c (x ∷ es) h = elim (Bool-cases (address_eq x.address b)) [
  | inl here ↦ rw here (elim h [ inl there ↦ there | inr same ↦ Has-here a x es (rw same at here) ])
  | inr other ↦ rw other (elim h [
    | inr same ↦ Has-later a x _ (emplace-Has a b c es (inr same))
    | inl there ↦ elim (Has-cases a x es there) [
      | inl e ↦ Has-here a x _ e
      | inr later ↦ Has-later a x _ (emplace-Has a b c es (inl later))
    ]
  ])
]

module _ (connect : Address → Result Client) where
  abbrev IsConnected : ClientEntry → Type 0
  IsConnected e = connect e.address ≡ ok e.client

  emplace-IsConnected :
      (a : Address) (c : Client) (es : List ClientEntry)
      → connect a ≡ ok c
      → All IsConnected es
      → All IsConnected (emplace a c es)
  unfolding emplace
  emplace-IsConnected a c [] e h = (e, tt)
  emplace-IsConnected a c (x ∷ es) e h = ground (arith, emplace-IsConnected a c es e h.1)

  -- A client that is found is the one that was made for the address.
  find_client-IsConnected :
      (a : Address) (c : Client) (es : List ClientEntry)
      → All IsConnected es
      → find_client a es ≡ some c
      → connect a ≡ ok c
  unfolding find_client
  find_client-IsConnected a c [] h e = cc
  find_client-IsConnected a c (x ∷ es) h e = elim (Bool-cases (address_eq x.address a)) [
    | inl same ↦
        let eq = address_eq→eq x.address a same in
        let client : x.client ≡ c = ground arith in rw (← eq, ← client) h.0
    | inr other ↦ find_client-IsConnected a c es h.1 (rw other at e)
  ]

  abbrev Complete : List Address → List ClientEntry → Type 0
  Complete processes es =
      All IsConnected es × ((pid : ℕ) (a : Address) → get_elem? processes pid ≡ some a → Has a es)

  -- The loop: what the map had it keeps, and it gets a client for every address that is left.
  add_clients-Complete :
      (processes : List Address) (es out : List ClientEntry)
      → All IsConnected es
      → add_clients connect processes es ≡ ok out
      → Complete processes out × ((a : Address) → Has a es → Has a out)
  unfolding add_clients
  add_clients-Complete [] es out h e =
      let same : es ≡ out = ground arith in
      ((rw (← same) h, λ pid a f. cc), λ a there. rw (← same) there)
  add_clients-Complete (b ∷ rest) es out h e = elim (Result-cases (connect b)) [
    | inl (x, f) ↦ let failed : throw x ≡ ok out = rw f at e in cc failed
    | inr (c, f) ↦
        let added : add_clients connect rest (emplace b c es) ≡ ok out = rw f at e in
        let ((connected, complete), kept) =
          add_clients-Complete rest (emplace b c es) out (emplace-IsConnected b c es f h) added in
        (
          (
            connected,
            λ pid a g.
                first-or-later b rest a pid g (λ same. kept a (emplace-Has a b c es (inr same)))
                  (λ i later. complete i a later),
          ),
          λ a there. kept a (emplace-Has a b c es (inl there)),
        )
  ]
    where
      first-or-later :
          {P : Type 0} (b : Address) (rest : List Address) (a : Address) (pid : ℕ)
          → get_elem? (b ∷ rest) pid ≡ some a
          → (b ≡ a → P)
          → ((i : ℕ) → get_elem? rest i ≡ some a → P)
          → P
      first-or-later b rest a zero g first later = first (ground arith)
      first-or-later b rest a (suc i) g first later = later i g

  -- After ClientsForProcessList has returned, ClientForId does not throw for any process of the list:
  -- it finds the client that was made for the address of that process.
  pub client_for_id-connect :
      (processes : List Address) (clients : List ClientEntry) (pid : ℕ) (a : Address)
      → clients_for_process_list connect processes ≡ ok clients
      → get_elem? processes pid ≡ some a
      → (c : Client) × (client_for_id processes clients pid ≡ ok c) × (connect a ≡ ok c)
  unfolding clients_for_process_list client_for_id
  client_for_id-connect processes clients pid a e g =
      let ((connected, complete), _) = add_clients-Complete processes [] clients tt e in
      let (c, f) = complete pid a g in
      (c, rw (g, f) refl, find_client-IsConnected a c clients connected f)
