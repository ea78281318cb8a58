-- ===== src/Gateway/Store/Database.antt =====
-- What the store uses of Pebble, and what Pebble documents of it. Keys are byte strings.
use go_smsc.Prelude.{
  ◌≡◌, Bool, true, false, ◌&&◌, ◌||◌, ltb, ◌==◌, List, [], ◌∷◌, Option, none, some, if◌then◌else◌,
}
use go_smsc.Prelude.Keys.{Key, key_eq}
use mathlib.Core.List.{Memᴰ}

pub record Kv (Db V : Type 0) : Type 0 where
  pub get : Db → Key → Option V
  pub set : Db → Key → V → Db
  pub delete : Db → Key → Db
  -- The entries from the first key on and before the second, in the order of the keys.
  pub scan : Db → Key → Key → List (Key × V)

-- The order of the database's keys: byte by byte, and a shorter text before its extensions.
unfoldable pub precedes : Key → Key → Bool
precedes s [] = false
precedes [] (c ∷ t) = true
precedes (b ∷ s) (c ∷ t) = ltb b c || b == c && precedes s t

module _ {V : Type 0} where
  -- The keys are in their order.
  abbrev pub InOrder : List (Key × V) → Type 0
  InOrder [] = Unit
  InOrder (e ∷ es) = ((x : Key × V) → Memᴰ x es → precedes x.0 e.0 ≡ false) × InOrder es

-- Get finds what was last set and not deleted, and an iterator yields the entries of its range that Get
-- finds, in the order of their keys.
pub record IsKv {Db V : Type 0} (kv : Kv Db V) : Type 0 where
  pub get-set :
      (db : Db) (k j : Key) (v : V)
      → kv.get (kv.set db k v) j ≡ (if key_eq k j then some v else kv.get db j)
  pub get-delete :
      (db : Db) (k j : Key) → kv.get (kv.delete db k) j ≡ (if key_eq k j then none else kv.get db j)
  pub get_of_scan :
      (db : Db) (low high k : Key) (v : V)
      → Memᴰ (k, v) (kv.scan db low high)
      → kv.get db k ≡ some v
  pub scan_of_get :
      (db : Db) (low high k : Key) (v : V)
      → kv.get db k ≡ some v
      → precedes k low ≡ false
      → precedes k high ≡ true
      → Memᴰ (k, v) (kv.scan db low high)
  pub scan_in_order : (db : Db) (low high : Key) → InOrder (kv.scan db low high)
