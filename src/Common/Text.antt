-- ===== src/Common/Text.antt =====
-- std::string as the list of its bytes, and numbers in decimal: what `<<` prints for an unsigned
-- integer, and std::stoi.
use Prim.Native.Char.{code}
use Prim.Native.String.{String}
use total_order_multicast.Common.{
  ℕ, zero, suc, ◌+◌, ◌-◌, ◌*◌, ◌/◌, ◌%◌, ◌≤◌, ◌<◌, ◌≡◌, refl, ap, ◌∙◌, Bool, true, false, ◌&&◌,
  ◌||◌, List, [], ◌∷◌, leb, ◌==◌, if◌then◌else◌, Result, ok, throw, Exception, Bool-cases, inl, inr,
  arith,
}

-- The bytes of a text in ASCII.
abbrev pub codes : String → List ℕ
codes String.[] = []
codes (String.◌∷◌ c s) = code c ∷ codes s

unfoldable pub is_digit : ℕ → Bool
is_digit c = leb 48 c && leb c 57

-- std::isspace in the C locale.
unfoldable pub is_space : ℕ → Bool
is_space c = c == 32 || (leb 9 c && leb c 13)

-- The digits of `n` in front of a text, with more fuel than `n`.
unfoldable pub decimal_before : ℕ → ℕ → List ℕ → List ℕ
decimal_before zero n text = text
decimal_before (suc fuel) n text =
    let more = decimal_before fuel (n / 10) ((48 + n % 10) ∷ text) in
    if n / 10 == 0 then (48 + n % 10) ∷ text else more

unfoldable pub decimal : ℕ → List ℕ
unfolding decimal_before
decimal n = decimal_before (suc n) n []

-- The number that the leading digits of a text denote, behind those with the value `value`.
unfoldable pub leading_number : ℕ → List ℕ → ℕ
leading_number value [] = value
leading_number value (c ∷ text) =
    if is_digit c then leading_number (value * 10 + (c - 48)) text else value

abbrev pub starts_with_digit : List ℕ → Bool
starts_with_digit [] = false
starts_with_digit (c ∷ text) = is_digit c

-- An int.
pub data ℤ : Type 0 where
  pos negsuc : ℕ → ℤ

-- The conversion of an int to an unsigned integer with `m` values.
unfoldable pub wrap : ℕ → ℤ → ℕ
wrap m (pos n) = n % m
wrap m (negsuc n) = m - 1 - n % m

abbrev signed : Bool → ℕ → ℤ
signed false n = pos n
signed true zero = pos 0
signed true (suc n) = negsuc n

abbrev int_in_range : Bool → ℕ → Result ℤ
int_in_range negative value =
    if leb value (if negative then 2147483648 else 2147483647)
    then ok (signed negative value)
    else throw Exception.out_of_range

abbrev stoi_digits : Bool → List ℕ → Result ℤ
stoi_digits negative text =
    if starts_with_digit text
    then int_in_range negative (leading_number 0 text)
    else throw Exception.invalid_argument

-- std::stoi: blanks, a sign, and as many digits as there are; what follows them is ignored.
unfoldable pub stoi : List ℕ → Result ℤ
stoi [] = throw Exception.invalid_argument
stoi (c ∷ text) =
    if is_space c
    then stoi text
    else if c == 45
    then stoi_digits true text
    else if c == 43
    then stoi_digits false text
    else stoi_digits false (c ∷ text)

leading_number-digit :
    (value n : ℕ) (text : List ℕ)
    → leading_number value ((48 + n % 10) ∷ text) ≡ leading_number (value * 10 + n % 10) text
unfolding leading_number is_digit
leading_number-digit value n text =
    let digit : is_digit (48 + n % 10) ≡ true = ground arith in
    let same : 48 + n % 10 - 48 ≡ n % 10 = omega arith in rw (digit, same) refl

-- Reading the digits back gives the number.
leading_number-decimal :
    (fuel n : ℕ) (text : List ℕ)
    → n < fuel
    → leading_number 0 (decimal_before fuel n text) ≡ leading_number n text
unfolding decimal_before
leading_number-decimal zero n text h = absurd (omega arith)
leading_number-decimal (suc fuel) n text h = elim (Bool-cases (n / 10 == 0)) [
  | inl e ↦ rw e (leading_number-digit 0 n text ∙ ap (λ v. leading_number v text) (ground arith))
  | inr e ↦ rw e (
      leading_number-decimal fuel (n / 10) ((48 + n % 10) ∷ text) (ground arith)
      ∙ leading_number-digit (n / 10) n text
      ∙ ap (λ v. leading_number v text) (omega arith))
]

decimal_before-starts :
    (fuel n : ℕ) (text : List ℕ)
    → starts_with_digit text ≡ true
    → starts_with_digit (decimal_before fuel n text) ≡ true
unfolding decimal_before is_digit
decimal_before-starts zero n text h = h
decimal_before-starts (suc fuel) n text h =
    let more = decimal_before-starts fuel (n / 10) ((48 + n % 10) ∷ text) (ground arith) in
    ground (arith, more)

decimal-starts : (n : ℕ) → starts_with_digit (decimal n) ≡ true
unfolding decimal is_digit
decimal-starts n =
    let more = decimal_before-starts n (n / 10) ((48 + n % 10) ∷ []) (ground arith) in
    ground (arith, more)

stoi-starts : (text : List ℕ) → starts_with_digit text ≡ true → stoi text ≡ stoi_digits false text
unfolding stoi is_digit is_space
stoi-starts [] h = refl
stoi-starts (c ∷ text) h = ground arith

-- std::stoi reads back what was printed.
pub stoi-decimal : (n : ℕ) → n ≤ 2147483647 → stoi (decimal n) ≡ ok (pos n)
unfolding decimal leading_number
stoi-decimal n h =
    let value : leading_number 0 (decimal n) ≡ n =
      leading_number-decimal (suc n) n [] (omega arith) in
    stoi-starts (decimal n) (decimal-starts n) ∙ rw (decimal-starts n, value) (ground arith)
