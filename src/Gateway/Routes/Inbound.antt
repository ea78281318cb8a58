-- ===== src/Gateway/Routes/Inbound.antt =====
-- The inbound table: which target a message gets, and what a destination pattern means.
use go_smsc.Prelude.{
  ◌≡◌, ◌⊎◌, refl, ap, Bool, true, false, ◌&&◌, Bool-cases, inl, inr, List, [], ◌∷◌, ◌++◌, none,
  some, All, arith,
}
use go_smsc.Prelude.Sorting.{IsWeakOrder, Sorted, Sorts}
use go_smsc.Prelude.Keys.{Key, key_eq, has_prefix}
use go_smsc.Gateway.Routes.{
  MoRoute, star, ends_in_star, trim_star, dest_matches, source_matches, mo_resolve, higher,
  mo_add_route, mo_remove_route,
}

ends_in_star-append : (p : Key) → ends_in_star (p ++ star) ≡ true
unfolding ends_in_star
ends_in_star-append [] = refl
ends_in_star-append (b ∷ []) = refl
ends_in_star-append (b ∷ c ∷ p) = ends_in_star-append (c ∷ p)

trim_star-append : (p : Key) → trim_star (p ++ star) ≡ p
unfolding trim_star
trim_star-append [] = refl
trim_star-append (b ∷ []) = refl
trim_star-append (b ∷ c ∷ p) = ap (λ l. b ∷ l) (trim_star-append (c ∷ p))

-- A destination pattern with "*" at its end takes the destinations that begin with the rest of it,
-- and a pattern that does not end in "*" takes the destination that equals it.
pub dest_matches-pattern :
    (r : MoRoute) (p dest : Key)
    → (dest_matches (record r { dest_pattern = p ++ star }) dest ≡ has_prefix dest p)
      × ((ends_in_star r.dest_pattern ≡ true) ⊎ (dest_matches r dest ≡ key_eq dest r.dest_pattern))
unfolding dest_matches
dest_matches-pattern r p dest =
    (ground (arith, ends_in_star-append p, trim_star-append p), ground arith)

-- Destination and source both match.
abbrev pub takes : MoRoute → Key → Key → Bool
takes r source dest = dest_matches r dest && source_matches r source

abbrev pub NotAbove : Key → Key → MoRoute → MoRoute → Type 0
NotAbove source dest r o = (takes o source dest ≡ false) ⊎ (higher o r ≡ false)

higher_irreflexive : (r : MoRoute) → higher r r ≡ false
unfolding higher
higher_irreflexive r = ground arith

later-NotAbove :
    (source dest : Key) (r : MoRoute) (rs : List MoRoute)
    → All (λ o. higher o r ≡ false) rs
    → All (NotAbove source dest r) rs
later-NotAbove source dest r [] h = tt
later-NotAbove source dest r (o ∷ rs) h = (inr h.0, later-NotAbove source dest r rs h.1)

-- In a table sorted by priority Resolve returns the target of a route that takes the message, such
-- that no route that takes it has a higher priority; where no route takes it, it returns nothing.
pub mo_resolve-highest :
    (routes : List MoRoute) (source dest : Key)
    → Sorted higher routes
    → ((front : List MoRoute) × (r : MoRoute) × (back : List MoRoute) × (routes ≡ front ++ r ∷ back)
        × (takes r source dest ≡ true)
        × All (NotAbove source dest r) routes
        × (mo_resolve routes source dest ≡ some r.target))
      ⊎ (All (λ o. takes o source dest ≡ false) routes × (mo_resolve routes source dest ≡ none))
unfolding mo_resolve
mo_resolve-highest [] source dest h = inr (tt, refl)
mo_resolve-highest (r ∷ rs) source dest h = elim (Bool-cases (takes r source dest)) [
  | inl e ↦ inl (
    [],
    r,
    rs,
    refl,
    e,
    (inr (higher_irreflexive r), later-NotAbove source dest r rs h.0),
    ground (arith, e),
  )
  | inr e ↦ elim (mo_resolve-highest rs source dest h.1) [
    | inl (front, best, back, split, t, above, q) ↦
        inl (r ∷ front, best, back, ap (λ l. r ∷ l) split, t, (inl e, above), ground (arith, e, q))
    | inr (k, q) ↦ inr ((e, k), ground (arith, e, q))
  ]
]

higher-IsWeakOrder : IsWeakOrder higher
unfolding higher
higher-IsWeakOrder = record {
  asymmetric = λ a b h. ground arith;
  negatively_transitive = λ a b c h k. ground arith;
}

remove-All :
    (P : MoRoute → Type 0) (routes : List MoRoute) (dest source : Key)
    → All P routes
    → All P (mo_remove_route routes dest source).0
unfolding mo_remove_route
remove-All P [] dest source h = tt
remove-All P (r ∷ rs) dest source h =
    elim (Bool-cases (key_eq r.dest_pattern dest && key_eq r.source_prefix source)) [
      | inl e ↦ rw e h.1
      | inr e ↦ rw e (h.0, remove-All P rs dest source h.1)
    ]

remove-Sorted :
    (routes : List MoRoute) (dest source : Key)
    → Sorted higher routes
    → Sorted higher (mo_remove_route routes dest source).0
unfolding mo_remove_route
remove-Sorted [] dest source h = tt
remove-Sorted (r ∷ rs) dest source h =
    elim (Bool-cases (key_eq r.dest_pattern dest && key_eq r.source_prefix source)) [
      | inl e ↦ rw e h.1
      | inr e ↦ rw e (
        remove-All (λ o. higher o r ≡ false) rs dest source h.0,
        remove-Sorted rs dest source h.1,
      )
    ]

-- Calls of AddRoute and RemoveRoute from the empty table on, one after the other.
pub data Reach (sort_routes : (MoRoute → MoRoute → Bool) → List MoRoute → List MoRoute)
    : List MoRoute → Type 0 where
  starts : Reach sort_routes []
  adds :
      {routes : List MoRoute}
      → Reach sort_routes routes
      → (route : MoRoute) → Reach sort_routes (mo_add_route sort_routes routes route)
  removes :
      {routes : List MoRoute}
      → Reach sort_routes routes
      → (dest source : Key) → Reach sort_routes (mo_remove_route routes dest source).0

-- After any calls of AddRoute and RemoveRoute no route stands before one of a higher priority, where
-- sort.Slice sorts.
pub Reach-Sorted :
    (sort_routes : (MoRoute → MoRoute → Bool) → List MoRoute → List MoRoute) (routes : List MoRoute)
    → Sorts sort_routes
    → Reach sort_routes routes
    → Sorted higher routes
unfolding mo_add_route
Reach-Sorted sort_routes routes s starts = tt
Reach-Sorted sort_routes routes s (adds {routes = old} r route) =
    s.orders higher (old ++ route ∷ []) higher-IsWeakOrder
Reach-Sorted sort_routes routes s (removes {routes = old} r dest source) =
    remove-Sorted old dest source (Reach-Sorted sort_routes old s r)
