-- ===== src/Gateway/Decimal.antt =====
-- Go's `%d` for numbers of up to 20 digits, which hold every uint64 and int64.
use go_smsc.Prelude.{
  ℕ, zero, suc, ◌+◌, ◌*◌, ◌/◌, ◌%◌, ◌≡◌, ◌<◌, refl, arith, [], ◌∷◌, ◌++◌, ltb, if◌then◌else◌,
  Bool-cases, inl, inr,
}
use go_smsc.Prelude.Keys.{Key}

-- The fuel is the number of digits that can be written.
unfoldable pub digits : ℕ → ℕ → Key
digits zero n = []
digits (suc fuel) n =
    let rest = digits fuel (n / 10) in
    if ltb n 10 then (48 + n) ∷ [] else rest ++ (48 + n % 10) ∷ []

unfoldable pub decimal : ℕ → Key
unfolding digits
decimal n = digits 20 n

-- The number that a text of digits stands for.
unfoldable pub value_of : ℕ → Key → ℕ
value_of n [] = n
value_of n (c ∷ s) = value_of (10 * n + c % 48) s

unfoldable pub pow10 : ℕ → ℕ
pow10 zero = 1
pow10 (suc n) = 10 * pow10 n

value_of-append : (n : ℕ) (s : Key) (c : ℕ) → value_of n (s ++ c ∷ []) ≡ 10 * value_of n s + c % 48
unfolding value_of
value_of-append n [] c = refl
value_of-append n (b ∷ s) c = value_of-append (10 * n + b % 48) s c

value_of-digits : (fuel n : ℕ) → n < pow10 fuel → value_of 0 (digits fuel n) ≡ n
unfolding value_of digits pow10
value_of-digits zero n h = omega (arith, h)
value_of-digits (suc fuel) n h = elim (Bool-cases (ltb n 10)) [
  | inl e ↦ rw e (ground (arith, e))
  | inr e ↦
      rw
        (
          e,
          value_of-append 0 (digits fuel (n / 10)) (48 + n % 10),
          value_of-digits fuel (n / 10) (omega (arith, h)),
        )
        (omega arith)
]

-- The message identifiers of two numbers of at most 20 digits are different texts: what is written
-- in decimal reads back as the number.
pub value_of-decimal : (n : ℕ) → n < pow10 20 → value_of 0 (decimal n) ≡ n
unfolding decimal
value_of-decimal n h = value_of-digits 20 n h
