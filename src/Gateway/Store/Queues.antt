-- ===== src/Gateway/Store/Queues.antt =====
-- The retry queues of gateway/store.go: what a drain returns, and what it leaves in the database.
use go_smsc.Prelude.{
  ℕ, zero, suc, ◌+◌, ◌-◌, ◌≡◌, ◌≤◌, refl, ◌∙◌, ap, sym, arith, true, false, List, [], ◌∷◌, ltb,
  if◌then◌else◌, take, Bool-cases, inl, inr,
}
use go_smsc.Prelude.Int.{ℤ, pos, negsuc}
use go_smsc.Prelude.Keys.{Key}
use go_smsc.Gateway.Store.{
  Value, tracking, submit_record, pending_submit, pending_deliver, PendingSubmit, PendingDeliver,
  submit_retries, retries, at_limit,
}

-- The pending submits of a scan, with their keys.
unfoldable pub submits : List (Key × Value) → List (Key × PendingSubmit)
submits [] = []
submits ((k, submit_record r) ∷ es) = submits es
submits ((k, tracking t) ∷ es) = submits es
submits ((k, pending_deliver p) ∷ es) = submits es
submits ((k, pending_submit p) ∷ es) = (k, p) ∷ submits es

-- The first entries, as many as the limit says; all of them without a limit.
unfoldable pub front {ℓ} : {A : Type ℓ} → ℤ → List A → List A
front (pos zero) xs = xs
front (pos (suc n)) xs = take (suc n) xs
front (negsuc n) xs = xs

unfoldable pub keys_of {ℓ} : {A : Type ℓ} → List (Key × A) → List Key
keys_of [] = []
keys_of ((k, x) ∷ es) = k ∷ keys_of es

unfoldable pub entries_of {ℓ} : {A : Type ℓ} → List (Key × A) → List A
entries_of [] = []
entries_of ((k, x) ∷ es) = x ∷ entries_of es

take_of_nil {ℓ} : {A : Type ℓ} → (n : ℕ) → take {A = A} n [] ≡ []
take_of_nil zero = refl
take_of_nil (suc n) = refl

limit_reached : (n deleted : ℕ) → at_limit (pos (suc n)) deleted ≡ true → suc n - deleted ≡ 0
unfolding at_limit
limit_reached n deleted h = ground arith

limit_not_reached : (n deleted : ℕ) → at_limit (pos (suc n)) deleted ≡ false → deleted ≤ n
unfolding at_limit
limit_not_reached n deleted h = ground arith

submit_retries_from :
    (n deleted : ℕ) (es : List (Key × Value))
    → deleted ≤ suc n
    → submit_retries (pos (suc n)) deleted es ≡ (
      keys_of (take (suc n - deleted) (submits es)),
      entries_of (take (suc n - deleted) (submits es)),
    )
unfolding submit_retries submits keys_of entries_of
submit_retries_from n deleted [] h =
    ap (λ es. (keys_of es, entries_of es)) (sym (take_of_nil (suc n - deleted)))
submit_retries_from n deleted ((k, submit_record r) ∷ es) h = submit_retries_from n deleted es h
submit_retries_from n deleted ((k, tracking t) ∷ es) h = submit_retries_from n deleted es h
submit_retries_from n deleted ((k, pending_deliver p) ∷ es) h = submit_retries_from n deleted es h
submit_retries_from n deleted ((k, pending_submit p) ∷ es) h =
    elim (Bool-cases (at_limit (pos (suc n)) deleted)) [
      | inl e ↦ rw (e, limit_reached n deleted e) refl
      | inr e ↦
          let room : deleted ≤ n = limit_not_reached n deleted e in
          let one_less : suc n - deleted ≡ suc (suc n - (deleted + 1)) = omega (arith, room) in
          rw (e, one_less, submit_retries_from n (deleted + 1) es (omega (arith, room))) refl
    ]

submit_retries_all :
    (limit : ℤ) (deleted : ℕ) (es : List (Key × Value))
    → ((m : ℕ) → at_limit limit m ≡ false)
    → submit_retries limit deleted es ≡ (keys_of (submits es), entries_of (submits es))
unfolding submit_retries submits keys_of entries_of
submit_retries_all limit deleted [] h = refl
submit_retries_all limit deleted ((k, submit_record r) ∷ es) h =
    submit_retries_all limit deleted es h
submit_retries_all limit deleted ((k, tracking t) ∷ es) h = submit_retries_all limit deleted es h
submit_retries_all limit deleted ((k, pending_deliver p) ∷ es) h =
    submit_retries_all limit deleted es h
submit_retries_all limit deleted ((k, pending_submit p) ∷ es) h =
    rw (h deleted, submit_retries_all limit (deleted + 1) es h)

pub submit_retries-front :
    (limit : ℤ) (es : List (Key × Value))
    → submit_retries limit 0 es
      ≡ (keys_of (front limit (submits es)), entries_of (front limit (submits es)))
unfolding front at_limit
submit_retries-front (pos zero) es = submit_retries_all (pos 0) 0 es (λ m. refl)
submit_retries-front (pos (suc n)) es =
    let all : suc n - 0 ≡ suc n = omega arith in
    submit_retries_from n 0 es (omega arith)
    ∙ ap (λ m. (keys_of (take m (submits es)), entries_of (take m (submits es)))) all
submit_retries-front (negsuc n) es = submit_retries_all (negsuc n) 0 es (λ m. refl)

-- The pending deliveries of a scan, with their keys, and those that are not stale.
unfoldable pub delivers : List (Key × Value) → List (Key × PendingDeliver)
delivers [] = []
delivers ((k, submit_record r) ∷ es) = delivers es
delivers ((k, tracking t) ∷ es) = delivers es
delivers ((k, pending_submit p) ∷ es) = delivers es
delivers ((k, pending_deliver p) ∷ es) = (k, p) ∷ delivers es

unfoldable pub fresh : ℕ → List (Key × PendingDeliver) → List PendingDeliver
fresh stale [] = []
fresh stale ((k, p) ∷ es) = if ltb p.enqueued_at stale then fresh stale es else p ∷ fresh stale es

retries_from :
    (stale n deleted : ℕ) (es : List (Key × Value))
    → deleted ≤ suc n
    → retries stale (pos (suc n)) deleted es ≡ (
      keys_of (take (suc n - deleted) (delivers es)),
      fresh stale (take (suc n - deleted) (delivers es)),
    )
unfolding retries delivers keys_of fresh
retries_from stale n deleted [] h =
    ap (λ es. (keys_of es, fresh stale es)) (sym (take_of_nil (suc n - deleted)))
retries_from stale n deleted ((k, submit_record r) ∷ es) h = retries_from stale n deleted es h
retries_from stale n deleted ((k, tracking t) ∷ es) h = retries_from stale n deleted es h
retries_from stale n deleted ((k, pending_submit p) ∷ es) h = retries_from stale n deleted es h
retries_from stale n deleted ((k, pending_deliver p) ∷ es) h =
    elim (Bool-cases (at_limit (pos (suc n)) deleted)) [
      | inl e ↦ rw (e, limit_reached n deleted e) refl
      | inr e ↦
          let room : deleted ≤ n = limit_not_reached n deleted e in
          let one_less : suc n - deleted ≡ suc (suc n - (deleted + 1)) = omega (arith, room) in
          rw (e, one_less, retries_from stale n (deleted + 1) es (omega (arith, room))) refl
    ]

retries_all :
    (stale : ℕ) (limit : ℤ) (deleted : ℕ) (es : List (Key × Value))
    → ((m : ℕ) → at_limit limit m ≡ false)
    → retries stale limit deleted es ≡ (keys_of (delivers es), fresh stale (delivers es))
unfolding retries delivers keys_of fresh
retries_all stale limit deleted [] h = refl
retries_all stale limit deleted ((k, submit_record r) ∷ es) h = retries_all stale limit deleted es h
retries_all stale limit deleted ((k, tracking t) ∷ es) h = retries_all stale limit deleted es h
retries_all stale limit deleted ((k, pending_submit p) ∷ es) h =
    retries_all stale limit deleted es h
retries_all stale limit deleted ((k, pending_deliver p) ∷ es) h =
    rw (h deleted, retries_all stale limit (deleted + 1) es h)

pub retries-front :
    (stale : ℕ) (limit : ℤ) (es : List (Key × Value))
    → retries stale limit 0 es
      ≡ (keys_of (front limit (delivers es)), fresh stale (front limit (delivers es)))
unfolding front at_limit
retries-front stale (pos zero) es = retries_all stale (pos 0) 0 es (λ m. refl)
retries-front stale (pos (suc n)) es =
    let all : suc n - 0 ≡ suc n = omega arith in
    retries_from stale n 0 es (omega arith)
    ∙ ap (λ m. (keys_of (take m (delivers es)), fresh stale (take m (delivers es)))) all
retries-front stale (negsuc n) es = retries_all stale (negsuc n) 0 es (λ m. refl)
