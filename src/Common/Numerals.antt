-- ===== src/Common/Numerals.antt =====
-- Decimal numerals: `String(n)` for a natural number, and the number that digits write.
use Prim.Native.Nat.{ℕ, zero, suc, ◌+◌, ◌-◌, ◌*◌, ◌/◌, ◌%◌, ◌≤◌, ◌<◌}
use mathlib.Core.Path.{◌≡◌, refl, ap, ◌∙◌}
use mathlib.Core.Logic.{inl, inr}
use mathlib.Core.Bool.{Bool, true, not, ◌&&◌}
use mathlib.Core.List.{List, [], ◌∷◌}
use native.Mathlib.Omega.{arith}
use pm2manager.Common.Tests.{leb, ◌==◌, if◌then◌else◌, Bool-cases}
use pm2manager.Common.Lists.{length, any}

print_from : ℕ → ℕ → List ℕ → List ℕ
print_from zero n acc = acc
print_from (suc fuel) n acc =
    let rest = print_from fuel (n / 10) ((b'0' + n % 10) ∷ acc) in
    if n / 10 == 0 then (b'0' + n % 10) ∷ acc else rest

-- `String(n)`; a number has no more digits than its value plus one.
unfoldable pub printed : ℕ → List ℕ
unfolding print_from
printed n = print_from (n + 1) n []

abbrev pub is_digit : ℕ → Bool
is_digit c = leb b'0' c && leb c b'9'

abbrev pub all_digits : List ℕ → Bool
all_digits v = not (any (λ c. not (is_digit c)) v)

-- The integer that digits write, after those that write `n`.
unfoldable pub decimal : ℕ → List ℕ → ℕ
decimal n [] = n
decimal n (c ∷ cs) = decimal (n * 10 + (c - b'0')) cs

digit : (n : ℕ) → (n / 10 == 0) ≡ true → 0 * 10 + (b'0' + n % 10 - b'0') ≡ n
digit n e = ground (arith, e)

last_digit : (n : ℕ) → n / 10 * 10 + (b'0' + n % 10 - b'0') ≡ n
last_digit n = omega arith

all_digits-cons :
    (n : ℕ) (acc : List ℕ) → all_digits acc ≡ true → all_digits ((b'0' + n % 10) ∷ acc) ≡ true
all_digits-cons n acc h = ground (arith, h)

decimal-print_from :
    (fuel n : ℕ) (acc : List ℕ) → n < fuel → decimal 0 (print_from fuel n acc) ≡ decimal n acc
unfolding decimal print_from
decimal-print_from zero n acc h = omega (arith, h)
decimal-print_from (suc fuel) n acc h = elim (Bool-cases (n / 10 == 0)) [
  | inl e ↦ rw e (ap (λ k. decimal k acc) (digit n e))
  | inr e ↦ rw e (
      decimal-print_from fuel (n / 10) ((b'0' + n % 10) ∷ acc) (ground (arith, e, h))
      ∙ ap (λ k. decimal k acc) (last_digit n))
]

all_digits-print_from :
    (fuel n : ℕ) (acc : List ℕ) → all_digits acc ≡ true → all_digits (print_from fuel n acc) ≡ true
unfolding print_from
all_digits-print_from zero n acc h = h
all_digits-print_from (suc fuel) n acc h = elim (Bool-cases (n / 10 == 0)) [
  | inl e ↦ rw e (all_digits-cons n acc h)
  | inr e ↦ rw e (all_digits-print_from fuel (n / 10) _ (all_digits-cons n acc h))
]

length-print_from :
    (fuel n : ℕ) (acc : List ℕ) → 1 ≤ fuel + length acc → 1 ≤ length (print_from fuel n acc)
unfolding print_from
length-print_from zero n acc h = omega arith
length-print_from (suc fuel) n acc h =
    let rest = length-print_from fuel (n / 10) ((b'0' + n % 10) ∷ acc) (omega arith) in
    ground (arith, rest)

-- What is printed is digits, at least one, and they write the number.
pub decimal-printed :
    (n : ℕ)
    → (decimal 0 (printed n) ≡ n)
      × (all_digits (printed n) ≡ true)
      × (leb 1 (length (printed n)) ≡ true)
unfolding printed decimal
decimal-printed n =
    let some_digit = length-print_from (n + 1) n [] (omega arith) in
    (
      decimal-print_from (n + 1) n [] (omega arith),
      all_digits-print_from (n + 1) n [] refl,
      ground (arith, some_digit),
    )
