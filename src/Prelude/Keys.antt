-- ===== src/Prelude/Keys.antt =====
-- Texts as keys: equality of byte lists, and Go's prefix and suffix tests on them.
use go_smsc.Prelude.Tests.{◌==◌}
use Prim.Native.Nat.{ℕ}
use mathlib.Core.Path.{◌≡◌, refl}
use mathlib.Core.Bool.{Bool, true, false, ◌&&◌}
use mathlib.Core.List.{List, [], ◌∷◌, ◌++◌}
use native.Mathlib.Omega.{arith}

abbrev pub Key : Type 0
Key = List ℕ

unfoldable pub key_eq : Key → Key → Bool
key_eq [] [] = true
key_eq [] (c ∷ t) = false
key_eq (b ∷ s) [] = false
key_eq (b ∷ s) (c ∷ t) = b == c && key_eq s t

pub key_eq→eq : (s t : Key) → key_eq s t ≡ true → s ≡ t
unfolding key_eq
key_eq→eq [] [] h = refl
key_eq→eq [] (c ∷ t) h = absurd (cc)
key_eq→eq (b ∷ s) [] h = absurd (cc)
key_eq→eq (b ∷ s) (c ∷ t) h = ground (arith, key_eq→eq s t)

pub key_eq_refl : (s : Key) → key_eq s s ≡ true
unfolding key_eq
key_eq_refl [] = refl
key_eq_refl (b ∷ s) = ground (arith, key_eq_refl s)

-- `strings.HasPrefix(s, prefix)`
unfoldable pub has_prefix : Key → Key → Bool
has_prefix s [] = true
has_prefix [] (p ∷ ps) = false
has_prefix (b ∷ s) (p ∷ ps) = b == p && has_prefix s ps

pub has_prefix→append : (s p : Key) → has_prefix s p ≡ true → (t : Key) × (s ≡ p ++ t)
unfolding has_prefix
has_prefix→append s [] h = (s, refl)
has_prefix→append [] (p ∷ ps) h = absurd (cc)
has_prefix→append (b ∷ s) (p ∷ ps) h =
    let (t, e) = has_prefix→append s ps (ground arith) in (t, ground (arith, e))

pub has_prefix-append : (p t : Key) → has_prefix (p ++ t) p ≡ true
unfolding has_prefix
has_prefix-append [] t = refl
has_prefix-append (b ∷ p) t = ground (arith, has_prefix-append p t)
