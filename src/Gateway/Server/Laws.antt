-- ===== src/Gateway/Server/Laws.antt =====
-- The table of connections of gateway/server.go in any order of binds and disconnections.
use go_smsc.Prelude.{
  ℕ, ◌≡◌, refl, ◌∙◌, ap, sym, arith, Bool, true, false, ◌&&◌, Option, none, some, ◌==◌,
  if◌then◌else◌, Bool-cases, inl, inr,
}
use go_smsc.Prelude.Keys.{Key, key_eq, key_eq→eq, key_eq_refl}
use go_smsc.Gateway.ShardMap.{shard_get, shard_set}
use go_smsc.Gateway.ShardMap.Laws.{
  shard_get-set, shard_get-delete, shard_set-IsDistinct, shard_delete-IsDistinct,
}
use go_smsc.Gateway.Server.{
  Server, stands, handle_exit, disconnected_at, Reach, start, accepts, binds, exits,
}
use go_smsc.Gateway.Server.Binding.{
  IsConsistent, close-Good, outside-IsConsistent, on_bind-IsConsistent,
}

-- What the table has under a name once a connection is gone.
unfoldable pub without : ℕ → Option ℕ → Option ℕ
without h none = none
without h (some g) = if g == h then none else some g

without_absent :
    (h : ℕ) (o : Option ℕ) → ((g : ℕ) → o ≡ some g → (g == h) ≡ false) → without h o ≡ o
unfolding without
without_absent h none p = refl
without_absent h (some g) p = rw (p g refl) refl

without_self : (h : ℕ) → without h (some h) ≡ none
unfolding without
without_self h = let same : (h == h) ≡ true = ground arith in rw same refl

other_name : (id k : Key) → id ≡ k → ¬ (key_eq id k ≡ false)
other_name id k e f = cc (key_eq_refl id, e, f)

stands→some : (o : Option ℕ) (h : ℕ) → stands o h ≡ true → o ≡ some h
unfolding stands
stands→some none h e = absurd (cc e)
stands→some (some g) h e = ap some (ground (arith, e))

-- Whether handleConnection takes the connection out of the table.
abbrev listed : Server → ℕ → Bool
listed s h = (s.heap h).bound && stands (shard_get (s.heap h).id s.conns) h

-- A connection that stands in the table is listed, and stands there under its own name only.
entry-listed :
    (s : Server) (h : ℕ) (k : Key) (g : ℕ)
    → IsConsistent s
    → shard_get k s.conns ≡ some g
    → (g == h) ≡ true
    → (listed s h ≡ true) × ((s.heap h).id ≡ k)
unfolding stands
entry-listed s h k g valid e d =
    let same : g ≡ h = ground (arith, d) in
    let (id, bound, free) = valid.2 k g e in
    let id' : (s.heap h).id ≡ k = ap (λ n. (s.heap n).id) (sym same) ∙ id in
    let bound' : (s.heap h).bound ≡ true = ap (λ n. (s.heap n).bound) (sym same) ∙ bound in
    let there : stands (shard_get (s.heap h).id s.conns) h ≡ true =
      ap (λ x. stands (shard_get x s.conns) h) id' ∙ ap (λ o. stands o h) e ∙ d in
    (ap (λ b. b && stands (shard_get (s.heap h).id s.conns) h) bound' ∙ there, id')

exit-entry :
    (s : Server) (h now : ℕ) (k : Key)
    → IsConsistent s
    → shard_get k (handle_exit s h now).conns ≡ without h (shard_get k s.conns)
unfolding handle_exit
exit-entry s h now k valid = elim (Bool-cases (listed s h)) [
  | inl c ↦ rw c (
      shard_get-delete (s.heap h).id k s.conns valid.0
      ∙ elim (Bool-cases (key_eq (s.heap h).id k)) [
        | inl e ↦
            let there : stands (shard_get (s.heap h).id s.conns) h ≡ true = ground (arith, c) in
            let here : shard_get k s.conns ≡ some h =
              ap (λ x. shard_get x s.conns) (sym (key_eq→eq (s.heap h).id k e))
              ∙ stands→some (shard_get (s.heap h).id s.conns) h there in
            ap (λ b. if b then none else shard_get k s.conns) e
            ∙ sym (ap (without h) here ∙ without_self h)
        | inr e ↦
            ap (λ b. if b then none else shard_get k s.conns) e
            ∙ sym (
                without_absent h (shard_get k s.conns) (λ g q. elim (Bool-cases (g == h)) [
                  | inr d ↦ d
                  | inl d ↦
                      let (l, id) = entry-listed s h k g valid q d in
                      absurd (other_name (s.heap h).id k id e)
                ]))
      ])
  | inr c ↦ rw c (
      sym (
        without_absent h (shard_get k s.conns) (λ g e. elim (Bool-cases (g == h)) [
          | inr d ↦ d
          | inl d ↦ let (l, id) = entry-listed s h k g valid e d in absurd (cc (l, c))
        ])))
]

-- What is left in the table keeps its connection, and its name keeps having no time of disconnection.
exit-IsConsistent : (s : Server) (h now : ℕ) → IsConsistent s → IsConsistent (handle_exit s h now)
unfolding handle_exit
exit-IsConsistent s h now valid = elim (Bool-cases (listed s h)) [
  | inl c ↦ rw c (
    shard_delete-IsDistinct (s.heap h).id s.conns valid.0,
    shard_set-IsDistinct (s.heap h).id now s.disconnects valid.1,
    λ k g e.
        let found : _ = sym (shard_get-delete (s.heap h).id k s.conns valid.0) ∙ e in
        elim (Bool-cases (key_eq (s.heap h).id k)) [
          | inl d ↦ absurd (cc (sym (ap (λ b. if b then none else shard_get k s.conns) d) ∙ found))
          | inr d ↦
              let (id, bound, free) =
                valid.2 k g (sym (ap (λ b. if b then none else shard_get k s.conns) d) ∙ found) in
              close-Good s.heap (shard_set (s.heap h).id now s.disconnects) h k g (
                id,
                bound,
                shard_get-set (s.heap h).id k now s.disconnects
                    ∙ ap (λ b. if b then some now else shard_get k s.disconnects) d
                    ∙ free,
              )
        ],
  )
  | inr c ↦ rw c (valid.0, valid.1, λ k g e. close-Good s.heap s.disconnects h k g (valid.2 k g e))
]

Reach-IsConsistent : (s : Server) → Reach s → IsConsistent s
unfolding shard_get
Reach-IsConsistent s (start heap) = (tt, tt, λ k h e. absurd (cc e))
Reach-IsConsistent s (accepts t h c r e f) = outside-IsConsistent t h c (Reach-IsConsistent t r) e
Reach-IsConsistent s (binds t h system_id max_binds r e) =
    on_bind-IsConsistent t h system_id max_binds (Reach-IsConsistent t r) e
Reach-IsConsistent s (exits t h now r) = exit-IsConsistent t h now (Reach-IsConsistent t r)

-- In every server that is reached by connections that come, bind once at most and go, a connection that
-- the table has under a name is bound, has that name as its identifier, and the name has no time of
-- disconnection.
pub Reach-entry :
    (s : Server) (k : Key) (h : ℕ)
    → Reach s
    → shard_get k s.conns ≡ some h
    → ((s.heap h).id ≡ k) × ((s.heap h).bound ≡ true) × (disconnected_at s k ≡ none)
unfolding disconnected_at
Reach-entry s k h r e = (Reach-IsConsistent s r).2 k h e

-- When a connection is gone, the table of a server that is reached in this way has it under no name,
-- and every other connection under the names that it had: a connection that another one of the same
-- system has replaced does not take that one with it.
pub handle_exit-without :
    (s : Server) (h now : ℕ) (k : Key)
    → Reach s
    → shard_get k (handle_exit s h now).conns ≡ without h (shard_get k s.conns)
handle_exit-without s h now k r = exit-entry s h now k (Reach-IsConsistent s r)
