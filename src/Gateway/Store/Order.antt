-- ===== src/Gateway/Store/Order.antt =====
-- The keys of the retry queues of gateway/store.go: the order of the keys is the order of the times.
use go_smsc.Prelude.{
  ℕ, zero, suc, ◌+◌, ◌/◌, ◌%◌, ◌<◌, ◌≡◌, refl, ◌∙◌, ap, arith, true, false, [], ◌∷◌, ◌++◌, ltb,
  append_assoc, Bool-cases, inl, inr, ◌⊎◌,
}
use go_smsc.Prelude.Keys.{Key}
use go_smsc.Gateway.Decimal.{pow10}
use go_smsc.Gateway.Store.{padded, retry_key}
use go_smsc.Gateway.Store.Database.{precedes}

pub precedes-append : (p s t : Key) → precedes (p ++ s) (p ++ t) ≡ precedes s t
unfolding precedes
precedes-append [] s t = refl
precedes-append (b ∷ p) s t = ground (arith, precedes-append p s t)

pub padded_step :
    (w n : ℕ) (x : Key) → padded (suc w) n ++ x ≡ padded w (n / 10) ++ (48 + n % 10) ∷ x
unfolding padded
padded_step w n x = append_assoc (padded w (n / 10)) ((48 + n % 10) ∷ []) x

digit_monotone : (c d : ℕ) (x y : Key) → c < d → precedes ((48 + c) ∷ x) ((48 + d) ∷ y) ≡ true
unfolding precedes
digit_monotone c d x y h = ground arith

-- Between two numbers, either the leading digits decide or they agree and the last digit does.
leading_or_last : (a b : ℕ) → a < b → a / 10 < b / 10 ⊎ ((a / 10 ≡ b / 10) × (a % 10 < b % 10))
leading_or_last a b h = elim (Bool-cases (ltb (a / 10) (b / 10))) [
  | inl e ↦ inl (ground (arith, e))
  | inr e ↦ inr (ground (arith, e, h), ground (arith, e, h))
]

pub padded_monotone :
    (w a b : ℕ) (x y : Key)
    → a < b
    → b < pow10 w
    → precedes (padded w a ++ x) (padded w b ++ y) ≡ true
unfolding pow10
padded_monotone zero a b x y h k = absurd (omega (arith, h, k))
padded_monotone (suc w) a b x y h k =
    let bound : b / 10 < pow10 w = omega (arith, k) in
    rw (padded_step w a x, padded_step w b y)
      (elim (leading_or_last a b h) [
        | inl e ↦
            padded_monotone w (a / 10) (b / 10) ((48 + a % 10) ∷ x) ((48 + b % 10) ∷ y) e bound
        | inr (e, f) ↦ rw e (
            precedes-append (padded w (b / 10)) ((48 + a % 10) ∷ x) ((48 + b % 10) ∷ y)
            ∙ digit_monotone (a % 10) (b % 10) x y f)
      ])

-- The key of an earlier time comes first, whatever the identifiers are, for times of up to 20 digits.
pub retry_key_monotone :
    (prefix id id' : Key) (time time' : ℕ)
    → time < time'
    → time' < pow10 20
    → precedes (retry_key prefix time id) (retry_key prefix time' id') ≡ true
unfolding retry_key
retry_key_monotone prefix id id' time time' h k =
    precedes-append prefix (padded 20 time ++ 58 ∷ id) (padded 20 time' ++ 58 ∷ id')
    ∙ padded_monotone 20 time time' (58 ∷ id) (58 ∷ id') h k

-- A padded number begins with a digit.
padded_head :
    (w n : ℕ) (x : Key)
    → (d : ℕ) × (rest : Key) × (padded (suc w) n ++ x ≡ (48 + d) ∷ rest) × (d < 10)
unfolding padded
padded_head zero n x = (n % 10, x, padded_step 0 n x, omega arith)
padded_head (suc w) n x =
    let (d, rest, e, small) = padded_head w (n / 10) ((48 + n % 10) ∷ x) in
    (d, rest, padded_step (suc w) n x ∙ e, small)

not_before_prefix : (prefix x : Key) → precedes (prefix ++ x) prefix ≡ false
unfolding precedes
not_before_prefix [] x = refl
not_before_prefix (b ∷ prefix) x = ground (arith, not_before_prefix prefix x)

-- A retry's key is in the range that ends with \xff.
pub retry_key_range :
    (prefix id : Key) (time : ℕ)
    → (precedes (retry_key prefix time id) prefix ≡ false)
      × (precedes (retry_key prefix time id) (prefix ++ 255 ∷ []) ≡ true)
unfolding retry_key precedes
retry_key_range prefix id time =
    let (d, rest, e, small) = padded_head 19 time (58 ∷ id) in
    (
      not_before_prefix prefix (padded 20 time ++ 58 ∷ id),
      precedes-append prefix (padded 20 time ++ 58 ∷ id) (255 ∷ [])
          ∙ ap (λ x. precedes x (255 ∷ [])) e
          ∙ ground (arith, small),
    )
