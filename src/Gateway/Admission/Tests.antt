-- ===== src/Gateway/Admission/Tests.antt =====
-- What the tests on texts of HandleSubmit of gateway/router.go say: a list holds a text, or a prefix of one,
-- and a list or a text is empty.
use go_smsc.Prelude.{
  ◌≡◌, ◌≢◌, inl, inr, refl, ap, sym, ◌∙◌, true, false, ◌||◌, List, [], ◌∷◌, Bool-cases, length,
  ◌==◌, arith,
}
use go_smsc.Prelude.Keys.{Key, key_eq, key_eq→eq, key_eq_refl, has_prefix}
use go_smsc.Gateway.Admission.{any_equal, any_prefix}
use mathlib.Core.List.{Memᴰ}
use mathlib.Core.List.Memᴰ.{head, tail}

pub any_equal→Mem : (key : Key) (keys : List Key) → any_equal key keys ≡ true → Memᴰ key keys
unfolding any_equal
any_equal→Mem key [] h = absurd (cc h)
any_equal→Mem key (k ∷ keys) h = elim (Bool-cases (key_eq k key)) [
  | inl e ↦ head (sym (key_eq→eq k key e))
  | inr e ↦ tail (any_equal→Mem key keys (ground (arith, e, h)))
]

pub Mem→any_equal : (key : Key) (keys : List Key) → Memᴰ key keys → any_equal key keys ≡ true
unfolding any_equal
Mem→any_equal key [] m = elim m [ ]
Mem→any_equal key (k ∷ keys) (head e) =
    ap (λ b. b || any_equal key keys) (ap (λ x. key_eq x key) (sym e) ∙ key_eq_refl key)
Mem→any_equal key (k ∷ keys) (tail m) = ground (arith, Mem→any_equal key keys m)

-- No prefix of the list is one of the address.
abbrev pub NoneFits : Key → List Key → Type 0
NoneFits dest prefixes = (p : Key) → Memᴰ p prefixes → has_prefix dest p ≡ false

pub any_prefix→NoneFits :
    (dest : Key) (prefixes : List Key) → any_prefix dest prefixes ≡ false → NoneFits dest prefixes
unfolding any_prefix
any_prefix→NoneFits dest [] h p m = elim m [ ]
any_prefix→NoneFits dest (q ∷ prefixes) h p (head e) = ap (has_prefix dest) e ∙ ground (arith, h)
any_prefix→NoneFits dest (q ∷ prefixes) h p (tail m) =
    any_prefix→NoneFits dest prefixes (ground (arith, h)) p m

pub NoneFits→any_prefix :
    (dest : Key) (prefixes : List Key) → NoneFits dest prefixes → any_prefix dest prefixes ≡ false
unfolding any_prefix
NoneFits→any_prefix dest [] h = refl
NoneFits→any_prefix dest (q ∷ prefixes) h =
    ground (arith, h q (head refl), NoneFits→any_prefix dest prefixes (λ p m. h p (tail m)))

pub some_length {ℓ} : {A : Type ℓ} → (xs : List A) → (length xs == 0) ≡ false → xs ≢ []
some_length [] h e = absurd (cc h)
some_length (x ∷ xs) h e = absurd (cc e)

pub length_some {ℓ} : {A : Type ℓ} → (xs : List A) → xs ≢ [] → (length xs == 0) ≡ false
length_some [] h = absurd (h refl)
length_some (x ∷ xs) h = ground arith

pub key_eq_nil : (key : Key) → key ≢ [] → key_eq key [] ≡ false
unfolding key_eq
key_eq_nil [] h = absurd (h refl)
key_eq_nil (b ∷ s) h = refl

pub nil_key_eq : (key : Key) → key_eq key [] ≡ false → key ≢ []
unfolding key_eq
nil_key_eq [] h e = absurd (cc h)
nil_key_eq (b ∷ s) h e = absurd (cc e)
