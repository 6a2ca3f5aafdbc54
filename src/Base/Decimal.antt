-- ===== src/Base/Decimal.antt =====
-- Numbers as `{}` prints them in decimal digits and `parse::<u16>()` reads them.
use lan_bridge.Base.Tests.{ltb, leb, eqb, if◌then◌else◌, Bool-cases}
use lan_bridge.Base.Text.{contains_char, is_empty}
use Prim.Native.Char.{Char, code}
use Prim.Native.Nat.{ℕ, zero, suc, ◌+◌, ◌-◌, ◌*◌, ◌/◌, ◌%◌, ◌<◌, ◌≤◌}
use Prim.Native.String.{String, ◌++◌ as ◌<>◌}
use mathlib.Core.Path.{◌≡◌, refl, ap, ◌∙◌}
use mathlib.Core.Logic.{inl, inr}
use mathlib.Core.Bool.{Bool, true, false, ◌&&◌}
use mathlib.Core.Option.{Option, none, some}
use native.Mathlib.Omega.{arith}
use text.Mathlib.TextLemmas.{nil-append, cons-append}

-- The decimal digits of a number, as `{}` prints it.
digit : ℕ → String
digit zero = "0"
digit (suc zero) = "1"
digit (suc (suc zero)) = "2"
digit (suc (suc (suc zero))) = "3"
digit (suc (suc (suc (suc zero)))) = "4"
digit (suc (suc (suc (suc (suc zero))))) = "5"
digit (suc (suc (suc (suc (suc (suc zero)))))) = "6"
digit (suc (suc (suc (suc (suc (suc (suc zero))))))) = "7"
digit (suc (suc (suc (suc (suc (suc (suc (suc zero)))))))) = "8"
digit _ = "9"

print_fuel : ℕ → ℕ → String
print_fuel zero n = ""
print_fuel (suc f) n =
    let rest = print_fuel f (n / 10) in if ltb n 10 then digit n else rest <> digit (n % 10)

-- A number has fewer digits than its successor counts.
unfoldable pub print_ℕ : ℕ → String
unfolding print_fuel digit
print_ℕ n = print_fuel (suc n) n

abbrev is_digit : Char → Bool
is_digit c = leb 48 (code c) && leb (code c) 57

-- The number that begins with the digits read so far.
unfoldable pub parse_digits : ℕ → String → Option ℕ
parse_digits n String.[] = some n
parse_digits n (String.◌∷◌ c s) =
    let rest = parse_digits (n * 10 + (code c - 48)) s in if is_digit c then rest else none

abbrev fits_u16 : Option ℕ → Option ℕ
fits_u16 none = none
fits_u16 (some n) = if ltb n 65536 then some n else none

abbrev after_sign : String → Option ℕ
after_sign String.[] = none
after_sign (String.◌∷◌ c s) = fits_u16 (parse_digits 0 (String.◌∷◌ c s))

-- `text.parse::<u16>()`: a sign `+` may come first, and there is a digit.
unfoldable pub parse_u16 : String → Option ℕ
unfolding parse_digits
parse_u16 String.[] = none
parse_u16 (String.◌∷◌ c s) = if eqb (code c) b'+' then after_sign s else after_sign (String.◌∷◌ c s)

parse_digits-append :
    (n : ℕ) (a b : String)
    → parse_digits n (a <> b) ≡ elim (parse_digits n a) [ none ↦ none | some m ↦ parse_digits m b ]
unfolding parse_digits
parse_digits-append n String.[] b = rw nil-append refl
parse_digits-append n (String.◌∷◌ c a) b = rw cons-append (elim (Bool-cases (is_digit c)) [
  | inl yes_digit ↦ rw yes_digit (parse_digits-append (n * 10 + (code c - 48)) a b)
  | inr no_digit ↦ rw no_digit refl
])

parse_digits-digit : (n k : ℕ) → k < 10 → parse_digits n (digit k) ≡ some (n * 10 + k)
unfolding parse_digits digit
parse_digits-digit n zero h = refl
parse_digits-digit n (suc zero) h = refl
parse_digits-digit n (suc (suc zero)) h = refl
parse_digits-digit n (suc (suc (suc zero))) h = refl
parse_digits-digit n (suc (suc (suc (suc zero)))) h = refl
parse_digits-digit n (suc (suc (suc (suc (suc zero))))) h = refl
parse_digits-digit n (suc (suc (suc (suc (suc (suc zero)))))) h = refl
parse_digits-digit n (suc (suc (suc (suc (suc (suc (suc zero))))))) h = refl
parse_digits-digit n (suc (suc (suc (suc (suc (suc (suc (suc zero)))))))) h = refl
parse_digits-digit n (suc (suc (suc (suc (suc (suc (suc (suc (suc k))))))))) h =
    let last : k ≡ 0 = omega arith in rw last refl

parse_digits-print_fuel : (f n : ℕ) → n < f → parse_digits 0 (print_fuel f n) ≡ some n
unfolding print_fuel
parse_digits-print_fuel zero n h = ground arith
parse_digits-print_fuel (suc f) n h = elim (Bool-cases (ltb n 10)) [
  | inl small ↦ rw small (parse_digits-digit 0 n (ground arith) ∙ ap some (omega arith))
  | inr large ↦
      let ten : 10 ≤ n = ground arith in
      let whole : (n / 10) * 10 + n % 10 ≡ n = omega arith in
      rw large (
        parse_digits-append 0 (print_fuel f (n / 10)) (digit (n % 10))
        ∙ rw (parse_digits-print_fuel f (n / 10) (omega arith))
            (rw (parse_digits-digit (n / 10) (n % 10) (omega arith)) (ap some whole)))
]

pub parse_digits-print_ℕ : (n : ℕ) → parse_digits 0 (print_ℕ n) ≡ some n
unfolding print_ℕ
parse_digits-print_ℕ n = parse_digits-print_fuel (suc n) n (omega arith)

-- What the digits make up has no colon.
pub no_colon : (n m : ℕ) (s : String) → parse_digits n s ≡ some m → contains_char b':' s ≡ false
unfolding parse_digits contains_char
no_colon n m String.[] h = refl
no_colon n m (String.◌∷◌ c s) h = elim (Bool-cases (is_digit c)) [
  | inl good ↦
      let other : eqb (code c) b':' ≡ false = ground arith in
      rw other (no_colon (n * 10 + (code c - 48)) m s (rw good at h))
  | inr bad ↦ cc
]

digit_nonempty : (k : ℕ) → is_empty (digit k) ≡ false
unfolding digit
digit_nonempty zero = refl
digit_nonempty (suc zero) = refl
digit_nonempty (suc (suc zero)) = refl
digit_nonempty (suc (suc (suc zero))) = refl
digit_nonempty (suc (suc (suc (suc zero)))) = refl
digit_nonempty (suc (suc (suc (suc (suc zero))))) = refl
digit_nonempty (suc (suc (suc (suc (suc (suc zero)))))) = refl
digit_nonempty (suc (suc (suc (suc (suc (suc (suc zero))))))) = refl
digit_nonempty (suc (suc (suc (suc (suc (suc (suc (suc zero)))))))) = refl
digit_nonempty (suc (suc (suc (suc (suc (suc (suc (suc (suc k))))))))) = refl

append-digit_nonempty : (s : String) (k : ℕ) → is_empty (s <> digit k) ≡ false
append-digit_nonempty String.[] k = rw nil-append (digit_nonempty k)
append-digit_nonempty (String.◌∷◌ c s) k = rw cons-append refl

print_ℕ_nonempty : (n : ℕ) → is_empty (print_ℕ n) ≡ false
unfolding print_ℕ print_fuel
print_ℕ_nonempty n = elim (Bool-cases (ltb n 10)) [
  | inl small ↦ rw small (digit_nonempty n)
  | inr large ↦ rw large (append-digit_nonempty (print_fuel n (n / 10)) (n % 10))
]

parse_u16-digits :
    (s : String) (m : ℕ)
    → is_empty s ≡ false
    → parse_digits 0 s ≡ some m
    → m < 65536
    → parse_u16 s ≡ some m
unfolding parse_u16 parse_digits
parse_u16-digits String.[] m e h small = cc
parse_u16-digits (String.◌∷◌ c s) m e h small = elim (Bool-cases (is_digit c)) [
  | inl good ↦
      let other : eqb (code c) b'+' ≡ false = ground arith in
      let fits : ltb m 65536 ≡ true = ground arith in rw other (rw h (rw fits refl))
  | inr bad ↦ cc
]

-- A port is read back as it is printed.
pub parse_u16-print_ℕ : (n : ℕ) → n < 65536 → parse_u16 (print_ℕ n) ≡ some n
parse_u16-print_ℕ n h =
    parse_u16-digits (print_ℕ n) n (print_ℕ_nonempty n) (parse_digits-print_ℕ n) h
