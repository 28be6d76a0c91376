-- ===== src/Net/Hash.antt =====
-- src/net.h and src/process.h: AHash and PMKHash, over std::hash of a string and of an integer.
use Prim.Native.Nat.{bit_xor}
use total_order_multicast.Common.{ℕ, ◌≡◌, refl, ap, ap₂, true, List, [], ◌∷◌, arith}
use total_order_multicast.Net.{Address, str_eq, address_eq}
use total_order_multicast.HoldBack.{PendingMessageKey, key_eq}
use total_order_multicast.HoldBack.Pending.{key_eq→eq}

abbrev pub a_hash : (List ℕ → ℕ) → (ℕ → ℕ) → Address → ℕ
a_hash hash_string hash_short a = bit_xor (hash_string a.hostname) (hash_short a.port)

abbrev pub pmk_hash : (ℕ → ℕ) → PendingMessageKey → ℕ
pmk_hash hash_int pmk = bit_xor (hash_int pmk.sender) (hash_int pmk.msg_id)

pub str_eq→eq : (s t : List ℕ) → str_eq s t ≡ true → s ≡ t
unfolding str_eq
str_eq→eq [] [] h = refl
str_eq→eq [] (c ∷ t) h = cc
str_eq→eq (b ∷ s) [] h = cc
str_eq→eq (b ∷ s) (c ∷ t) h = ap₂ ◌∷◌ (ground arith) (str_eq→eq s t (ground arith))

pub str_eq_refl : (s : List ℕ) → str_eq s s ≡ true
unfolding str_eq
str_eq_refl [] = refl
str_eq_refl (c ∷ s) = ground (arith, str_eq_refl s)

pub address_eq→eq : (a b : Address) → address_eq a b ≡ true → a ≡ b
unfolding address_eq
address_eq→eq a b h =
    let name : a.hostname ≡ b.hostname = str_eq→eq a.hostname b.hostname (ground arith) in
    let port : a.port ≡ b.port = ground arith in
    ap₂ {C = Address} (λ n p. record { hostname = n; port = p }) name port

pub address_eq_refl : (a : Address) → address_eq a a ≡ true
unfolding address_eq
address_eq_refl a = ground (arith, str_eq_refl a.hostname)

-- What std::unordered_map asks of the two hash functions: keys that are equal by `==` have one hash
-- value, whatever std::hash is.
pub hash-eq :
    (hash_string : List ℕ → ℕ) (hash_short hash_int : ℕ → ℕ) (a b : Address)
    (k j : PendingMessageKey)
    → address_eq a b ≡ true
    → key_eq k j ≡ true
    → (a_hash hash_string hash_short a ≡ a_hash hash_string hash_short b)
      × (pmk_hash hash_int k ≡ pmk_hash hash_int j)
hash-eq hash_string hash_short hash_int a b k j h l = (
  ap (a_hash hash_string hash_short) (address_eq→eq a b h),
  ap (pmk_hash hash_int) (key_eq→eq k j l),
)
