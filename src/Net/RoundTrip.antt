-- ===== src/Net/RoundTrip.antt =====
-- src/net.cc: AddressWithDefaultPort against operator<<.
use total_order_multicast.Common.{
  ℕ, ◌<◌, ◌%◌, ◌≡◌, ◌≢◌, refl, List, [], ◌∷◌, ◌++◌, Option, none, some, All, ok, arith,
}
use total_order_multicast.Common.Text.{decimal, stoi-decimal, wrap}
use total_order_multicast.Net.{
  Address, show_address, split_at_colon, address_with_default_port, u16_mod,
}

-- A host name without a colon.
abbrev pub IsPlain : List ℕ → Type 0
IsPlain hostname = All (λ c. c ≢ 58) hostname

split_at_colon-plain :
    (hostname text : List ℕ)
    → IsPlain hostname
    → split_at_colon (hostname ++ 58 ∷ text) ≡ some (hostname, text)
unfolding split_at_colon
split_at_colon-plain [] text h = refl
split_at_colon-plain (c ∷ hostname) text h = ground (arith, split_at_colon-plain hostname text h.1)

split_at_colon-none : (hostname : List ℕ) → IsPlain hostname → split_at_colon hostname ≡ none
unfolding split_at_colon
split_at_colon-none [] h = refl
split_at_colon-none (c ∷ hostname) h = ground (arith, split_at_colon-none hostname h.1)

-- For a host name without a colon: what `<<` prints for an address with a 16-bit port is read back as
-- that address, whatever the default port; and a host name alone is read as the address with the
-- default port.
pub address_with_default_port-show_address :
    (a : Address) (default_port : Option ℕ) (p : ℕ)
    → IsPlain a.hostname
    → a.port < u16_mod
    → (address_with_default_port (show_address a) default_port ≡ ok a)
      × (address_with_default_port a.hostname (some p)
          ≡ ok (record { hostname = a.hostname; port = p }))
unfolding address_with_default_port show_address wrap
address_with_default_port-show_address a default_port p plain h =
    let small : a.port % u16_mod ≡ a.port = omega arith in
    let parsed = split_at_colon-plain a.hostname (decimal a.port) plain in
    let port = stoi-decimal a.port (omega arith) in
    (
      rw (address_with_default_port, show_address, parsed, port, small) refl,
      rw (address_with_default_port, split_at_colon-none a.hostname plain) refl,
    )
