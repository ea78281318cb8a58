-- ===== src/Gateway/Server/Binding.antt =====
-- The table of connections of gateway/server.go after a bind: onBind keeps it consistent.
use go_smsc.Prelude.{
  ℕ, ◌≡◌, refl, ◌∙◌, ap, sym, arith, true, false, Option, none, some, ◌==◌, if◌then◌else◌,
  Bool-cases, inl, inr,
}
use go_smsc.Prelude.Int.{ℤ}
use go_smsc.Prelude.Keys.{Key, key_eq, key_eq→eq}
use go_smsc.Gateway.ShardMap.{Shard, update, shard_get, shard_set, shard_delete}
use go_smsc.Gateway.ShardMap.Laws.{
  IsDistinct, shard_get-set, shard_get-delete, shard_set-IsDistinct, shard_delete-IsDistinct,
}
use go_smsc.Gateway.Server.{
  Connection, Server, close, bind_count, too_many, register, on_bind, authenticated,
}

abbrev pub Heap : Type 0
Heap = ℕ → Connection

close-id : (heap : Heap) (j h : ℕ) → (close heap j h).id ≡ (heap h).id
unfolding close update
close-id heap j h = elim (Bool-cases (j == h)) [
  | inl e ↦ rw e (ap (λ n. (heap n).id) (ground (arith, e)))
  | inr e ↦ rw e refl
]

close-bound : (heap : Heap) (j h : ℕ) → (close heap j h).bound ≡ (heap h).bound
unfolding close update
close-bound heap j h = elim (Bool-cases (j == h)) [
  | inl e ↦ rw e (ap (λ n. (heap n).bound) (ground (arith, e)))
  | inr e ↦ rw e refl
]

-- The entry of the table is bound and knows its name, and its name has no time of disconnection.
abbrev pub Good : Heap → Shard ℕ → Key → ℕ → Type 0
Good heap disconnects k h =
    ((heap h).id ≡ k) × ((heap h).bound ≡ true) × (shard_get k disconnects ≡ none)

abbrev pub IsConsistent : Server → Type 0
IsConsistent s =
    IsDistinct s.conns
    × IsDistinct s.disconnects
    × ((k : Key) (h : ℕ) → shard_get k s.conns ≡ some h → Good s.heap s.disconnects k h)

pub close-Good :
    (heap : Heap) (disconnects : Shard ℕ) (j : ℕ) (k : Key) (h : ℕ)
    → Good heap disconnects k h
    → Good (close heap j) disconnects k h
close-Good heap disconnects j k h g = (close-id heap j h ∙ g.0, close-bound heap j h ∙ g.1, g.2)

-- A connection that is bound is not one that is not.
apart : (heap : Heap) (h g : ℕ) → (heap h).bound ≡ false → (heap g).bound ≡ true → (h == g) ≡ false
apart heap h g e f = elim (Bool-cases (h == g)) [
  | inr d ↦ d
  | inl d ↦
      let same : h ≡ g = ground (arith, d) in
      let clash : true ≡ false = sym f ∙ sym (ap (λ n. (heap n).bound) same) ∙ e in
      absurd (cc clash)
]

-- The heap of a server once the connection is authenticated and has its name.
abbrev named : Server → ℕ → Key → ℤ → Heap
named s h system_id max_binds =
    let heap = (authenticated s h system_id max_binds).heap in
    update heap h (record (heap h) { id = system_id })

named_self :
    (s : Server) (h : ℕ) (system_id : Key) (max_binds : ℤ)
    → ((named s h system_id max_binds h).id ≡ system_id)
      × ((named s h system_id max_binds h).bound ≡ true)
unfolding authenticated update
named_self s h system_id max_binds =
    let same : (h == h) ≡ true = ground arith in rw same (refl, refl)

named_other :
    (s : Server) (h g : ℕ) (system_id : Key) (max_binds : ℤ)
    → (h == g) ≡ false
    → named s h system_id max_binds g ≡ s.heap g
unfolding authenticated update
named_other s h g system_id max_binds e = rw e refl

named-Good :
    (s : Server) (h : ℕ) (system_id : Key) (max_binds : ℤ) (k : Key) (g : ℕ)
    → IsConsistent s
    → (s.heap h).bound ≡ false
    → shard_get k (shard_set system_id h s.conns) ≡ some g
    → Good (named s h system_id max_binds) (shard_delete system_id s.disconnects) k g
named-Good s h system_id max_binds k g valid fresh e =
    let (distinct, gone, good) = valid in
    let found : _ = sym e ∙ shard_get-set system_id k h s.conns in
    let left : _ = shard_get-delete system_id k s.disconnects gone in
    elim (Bool-cases (key_eq system_id k)) [
      | inl c ↦
          let found' : some g ≡ some h =
            found ∙ ap (λ b. if b then some h else shard_get k s.conns) c in
          let same : g ≡ h = cc found' in
          let (id, bound) = named_self s h system_id max_binds in
          (
            ap (λ n. (named s h system_id max_binds n).id) same ∙ id ∙ key_eq→eq system_id k c,
            ap (λ n. (named s h system_id max_binds n).bound) same ∙ bound,
            left ∙ ap (λ b. if b then none else shard_get k s.disconnects) c,
          )
      | inr c ↦
          let (id, bound, free) =
            good k g (sym (found ∙ ap (λ b. if b then some h else shard_get k s.conns) c)) in
          let same : named s h system_id max_binds g ≡ s.heap g =
            named_other s h g system_id max_binds (apart s.heap h g fresh bound) in
          (
            ap (λ x. x.id) same ∙ id,
            ap (λ x. x.bound) same ∙ bound,
            left ∙ ap (λ b. if b then none else shard_get k s.disconnects) c ∙ free,
          )
    ]

replaced-Good :
    (heap : Heap) (disconnects : Shard ℕ) (old : Option ℕ) (k : Key) (h : ℕ)
    → Good heap disconnects k h
    → Good (elim old [ none ↦ heap | some o ↦ close heap o ]) disconnects k h
replaced-Good heap disconnects none k h g = g
replaced-Good heap disconnects (some o) k h g = close-Good heap disconnects o k h g

register-IsConsistent :
    (s : Server) (h : ℕ) (system_id : Key) (max_binds : ℤ)
    → IsConsistent s
    → (s.heap h).bound ≡ false
    → IsConsistent (register (authenticated s h system_id max_binds) h system_id)
unfolding register authenticated
register-IsConsistent s h system_id max_binds valid fresh = (
  shard_set-IsDistinct system_id h s.conns valid.0,
  shard_delete-IsDistinct system_id s.disconnects valid.1,
  λ k g e.
      replaced-Good (named s h system_id max_binds) (shard_delete system_id s.disconnects)
        (shard_get system_id s.conns) k g (named-Good s h system_id max_binds k g valid fresh e),
)

-- A connection that the table does not have may change in any way.
pub outside-IsConsistent :
    (s : Server) (h : ℕ) (c : Connection)
    → IsConsistent s
    → (s.heap h).bound ≡ false
    → IsConsistent (record s { heap = update s.heap h c })
unfolding update
outside-IsConsistent s h c valid fresh = (
  valid.0,
  valid.1,
  λ k g e.
      let (id, bound, free) = valid.2 k g e in rw (apart s.heap h g fresh bound) (id, bound, free),
)

authenticated-IsConsistent :
    (s : Server) (h : ℕ) (system_id : Key) (max_binds : ℤ)
    → IsConsistent s
    → (s.heap h).bound ≡ false
    → IsConsistent (authenticated s h system_id max_binds)
unfolding authenticated
authenticated-IsConsistent s h system_id max_binds valid fresh =
    outside-IsConsistent s h
      (record (s.heap h) { system_id = system_id; bound = true; max_binds = max_binds }) valid fresh

pub on_bind-IsConsistent :
    (s : Server) (h : ℕ) (system_id : Key) (max_binds : ℤ)
    → IsConsistent s
    → (s.heap h).bound ≡ false
    → IsConsistent (on_bind (authenticated s h system_id max_binds) h system_id)
unfolding on_bind
on_bind-IsConsistent s h system_id max_binds valid fresh =
    let s' : Server = authenticated s h system_id max_binds in
    let known : IsConsistent s' = authenticated-IsConsistent s h system_id max_binds valid fresh in
    elim (Bool-cases (too_many (s'.heap h).max_binds (bind_count s'.heap system_id s'.conns))) [
      | inl c ↦
          rw c (known.0, known.1, λ k g e. close-Good s'.heap s'.disconnects h k g (known.2 k g e))
      | inr c ↦ rw c (register-IsConsistent s h system_id max_binds valid fresh)
    ]
