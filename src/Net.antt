-- ===== src/Net.antt =====
-- src/net.h and src/net.cc: the address of a process, how it is printed and how it is read. A string
-- is the list of its bytes.
pub mod RoundTrip
pub mod Hash
pub mod Failure
use total_order_multicast.Common.{
  ℕ, Bool, true, false, not, ◌&&◌, List, [], ◌∷◌, ◌++◌, Option, none, some, ◌==◌, if◌then◌else◌,
  Result, ok, throw, ◌>>=◌, Exception,
}
use total_order_multicast.Common.Text.{decimal, stoi, wrap}

-- GetHostname, over what gethostname has written into the buffer: the string ends at the first zero.
abbrev pub get_hostname : List ℕ → List ℕ
get_hostname [] = []
get_hostname (c ∷ buffer) = let rest = get_hostname buffer in if c == 0 then [] else c ∷ rest

pub record Address : Type 0 where
  pub hostname : List ℕ
  pub port : ℕ

-- `==` on std::string.
unfoldable pub str_eq : List ℕ → List ℕ → Bool
str_eq [] [] = true
str_eq [] (c ∷ t) = false
str_eq (b ∷ s) [] = false
str_eq (b ∷ s) (c ∷ t) = b == c && str_eq s t

unfoldable pub address_eq : Address → Address → Bool
address_eq a other = str_eq a.hostname other.hostname && a.port == other.port

-- `<<` on an Address; 58 is the colon.
unfoldable pub show_address : Address → List ℕ
show_address a = a.hostname ++ 58 ∷ decimal a.port

-- What stands in front of the first colon, and what behind it.
abbrev in_front : ℕ → Option (List ℕ × List ℕ) → Option (List ℕ × List ℕ)
in_front c none = none
in_front c (some (before, after)) = some (c ∷ before, after)

unfoldable pub split_at_colon : List ℕ → Option (List ℕ × List ℕ)
split_at_colon [] = none
split_at_colon (c ∷ text) =
    let rest = split_at_colon text in if c == 58 then some ([], text) else in_front c rest

abbrev pub u16_mod : ℕ
u16_mod = 65536

unfoldable pub address_with_default_port : List ℕ → Option ℕ → Result Address
address_with_default_port addr port = elim (split_at_colon addr) [
  | some (hostname, text) ↦
      stoi text >>= (λ p. ok (record { hostname = hostname; port = wrap u16_mod p }))
  | none ↦ elim port [
    | none ↦ throw Exception.invalid_argument
    | some p ↦ ok (record { hostname = addr; port = p })
  ]
]
