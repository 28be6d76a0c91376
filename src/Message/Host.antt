-- ===== src/Message/Host.antt =====
-- The host that runs the program: its byte order, and what an uninitialised field happens to hold.
-- Loads and stores of a uint32_t through `reinterpret_cast`, and htonl and ntohl (arpa/inet.h).
use total_order_multicast.Common.{
  ℕ, ◌+◌, ◌*◌, ◌/◌, ◌%◌, ◌<◌, ◌≡◌, refl, ap, ◌∙◌, List, [], ◌∷◌, arith,
}

pub data Endian : Type 0 where
  little big : Endian

pub record Host : Type 0 where
  pub endian : Endian
  -- The value read from a field that was never written.
  pub uninit : ℕ

abbrev pub u32_mod : ℕ
u32_mod = 4294967296

-- The four bytes of a word, most significant first.
abbrev byte3 : ℕ → ℕ
byte3 x = x / 16777216 % 256

abbrev byte2 : ℕ → ℕ
byte2 x = x / 65536 % 256

abbrev byte1 : ℕ → ℕ
byte1 x = x / 256 % 256

abbrev byte0 : ℕ → ℕ
byte0 x = x % 256

word : ℕ → ℕ → ℕ → ℕ → ℕ
word b3 b2 b1 b0 = b3 * 16777216 + b2 * 65536 + b1 * 256 + b0

load_endian : Endian → ℕ → ℕ → ℕ → ℕ → ℕ
unfolding word
load_endian little a b c d = word d c b a
load_endian big a b c d = word a b c d

store_endian : Endian → ℕ → List ℕ
store_endian little x = byte0 x ∷ byte1 x ∷ byte2 x ∷ byte3 x ∷ []
store_endian big x = byte3 x ∷ byte2 x ∷ byte1 x ∷ byte0 x ∷ []

swap_endian : Endian → ℕ → ℕ
unfolding word
swap_endian little x = word (byte0 x) (byte1 x) (byte2 x) (byte3 x)
swap_endian big x = x

-- `*(uint32_t*)p` for the four bytes at `p`.
unfoldable pub load_u32 : Host → ℕ → ℕ → ℕ → ℕ → ℕ
unfolding load_endian
load_u32 host a b c d = load_endian host.endian a b c d

-- The bytes of a uint32_t in memory.
unfoldable pub store_u32 : Host → ℕ → List ℕ
unfolding store_endian
store_u32 host x = store_endian host.endian x

unfoldable pub htonl : Host → ℕ → ℕ
unfolding swap_endian
htonl host x = swap_endian host.endian x

unfoldable pub ntohl : Host → ℕ → ℕ
unfolding swap_endian
ntohl host x = swap_endian host.endian x

-- Network byte order.
abbrev pub network_bytes : ℕ → List ℕ
network_bytes x = byte3 x ∷ byte2 x ∷ byte1 x ∷ byte0 x ∷ []

store-swap : (en : Endian) (x : ℕ) → store_endian en (swap_endian en x) ≡ network_bytes x
unfolding swap_endian store_endian
store-swap little x = ground arith
store-swap big x = refl

pub store-htonl : (host : Host) (x : ℕ) → store_u32 host (htonl host x) ≡ network_bytes x
unfolding htonl store_u32
store-htonl host x = store-swap host.endian x

swap-load :
    (en : Endian) (a b c d : ℕ)
    → a < 256
    → b < 256
    → c < 256
    → d < 256
    → swap_endian en (load_endian en a b c d) ≡ word a b c d
unfolding swap_endian load_endian
swap-load little a b c d ha hb hc hd = omega arith
swap-load big a b c d ha hb hc hd = refl

-- Reading what was stored in network order gives the word back, whatever the two byte orders.
pub ntohl-load :
    (host : Host) (x : ℕ)
    → x < u32_mod
    → ntohl host (load_u32 host (byte3 x) (byte2 x) (byte1 x) (byte0 x)) ≡ x
unfolding ntohl load_u32
ntohl-load host x h =
    let e : word (byte3 x) (byte2 x) (byte1 x) (byte0 x) ≡ x = unfold word in (omega arith) in
    swap-load host.endian (byte3 x) (byte2 x) (byte1 x) (byte0 x) (omega arith) (omega arith)
      (omega arith) (omega arith)
    ∙ e

word-bytes :
    (a b c d : ℕ)
    → a < 256
    → b < 256
    → c < 256
    → d < 256
    → network_bytes (word a b c d) ≡ a ∷ b ∷ c ∷ d ∷ []
unfolding word
word-bytes a b c d ha hb hc hd =
    let e3 : byte3 (a * 16777216 + b * 65536 + c * 256 + d) ≡ a = omega arith in
    let e2 : byte2 (a * 16777216 + b * 65536 + c * 256 + d) ≡ b = omega arith in
    let e1 : byte1 (a * 16777216 + b * 65536 + c * 256 + d) ≡ c = omega arith in
    let e0 : byte0 (a * 16777216 + b * 65536 + c * 256 + d) ≡ d = omega arith in cc

-- The bytes in network order of a word that is read are those that it was read from.
pub ntohl-load-bytes :
    (host : Host) (a b c d : ℕ)
    → a < 256
    → b < 256
    → c < 256
    → d < 256
    → network_bytes (ntohl host (load_u32 host a b c d)) ≡ a ∷ b ∷ c ∷ d ∷ []
unfolding ntohl load_u32
ntohl-load-bytes host a b c d ha hb hc hd =
    ap network_bytes (swap-load host.endian a b c d ha hb hc hd) ∙ word-bytes a b c d ha hb hc hd
