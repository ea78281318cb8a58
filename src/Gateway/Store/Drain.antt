-- ===== src/Gateway/Store/Drain.antt =====
-- What the drains of gateway/store.go leave in the database.
use go_smsc.Prelude.{
  ℕ, zero, suc, ◌-◌, ◌≡◌, refl, ◌∙◌, ap, sym, subst, arith, Bool, true, false, ◌||◌, List, [], ◌∷◌,
  ◌++◌, none, some, ltb, if◌then◌else◌, take, ◌⊎◌, inl, inr, Bool-cases,
}
use go_smsc.Prelude.Int.{ℤ, pos, negsuc}
use go_smsc.Prelude.Keys.{Key, key_eq, key_eq→eq}
use go_smsc.Gateway.Store.{
  Value, tracking, submit_record, pending_submit, pending_deliver, PendingSubmit, PendingDeliver,
  MessageStore, delete_all, drain_submit_retries, drain_retries, submit_retry_prefix, retry_prefix,
  padded,
}
use go_smsc.Gateway.Store.Database.{Kv, IsKv}
use go_smsc.Gateway.Store.Queues.{
  submits, delivers, front, fresh, keys_of, entries_of, submit_retries-front, retries-front,
}
use mathlib.Core.List.{Memᴰ}
use mathlib.Core.List.Memᴰ.{head, tail}

unfoldable pub has_key : Key → List Key → Bool
has_key key [] = false
has_key key (k ∷ ks) = key_eq k key || has_key key ks

pub has_key→Mem :
    {A : Type 0}
    → (key : Key) (es : List (Key × A)) → has_key key (keys_of es) ≡ true
    → (x : A) × Memᴰ (key, x) es
unfolding has_key keys_of
has_key→Mem key [] h = absurd (cc)
has_key→Mem key ((k, x) ∷ es) h = elim (Bool-cases (key_eq k key)) [
  | inl e ↦ (x, head (ap (λ k. (k, x)) (sym (key_eq→eq k key e))))
  | inr e ↦ let (y, m) = has_key→Mem key es (ground arith) in (y, tail m)
]

Mem-take : {A : Type 0} → (n : ℕ) (xs : List A) (x : A) → Memᴰ x (take n xs) → Memᴰ x xs
Mem-take zero xs x m = elim m [ ]
Mem-take (suc n) [] x m = elim m [ ]
Mem-take (suc n) (y ∷ xs) x (head e) = head e
Mem-take (suc n) (y ∷ xs) x (tail m) = tail (Mem-take n xs x m)

pub Mem-front :
    {A : Type 0} → (limit : ℤ) (xs : List A) (x : A) → Memᴰ x (front limit xs) → Memᴰ x xs
unfolding front
Mem-front (pos zero) xs x m = m
Mem-front (pos (suc n)) xs x m = Mem-take (suc n) xs x m
Mem-front (negsuc n) xs x m = m

pub Mem-submits :
    (es : List (Key × Value)) (key : Key) (p : PendingSubmit)
    → Memᴰ (key, p) (submits es)
    → Memᴰ (key, pending_submit p) es
unfolding submits
Mem-submits [] key p m = elim m [ ]
Mem-submits ((k, submit_record r) ∷ es) key p m = tail (Mem-submits es key p m)
Mem-submits ((k, tracking t) ∷ es) key p m = tail (Mem-submits es key p m)
Mem-submits ((k, pending_deliver q) ∷ es) key p m = tail (Mem-submits es key p m)
Mem-submits ((k, pending_submit q) ∷ es) key p (head e) =
    head (ap (λ x. (x.0, pending_submit x.1)) e)
Mem-submits ((k, pending_submit q) ∷ es) key p (tail m) = tail (Mem-submits es key p m)

Mem-delivers :
    (es : List (Key × Value)) (key : Key) (p : PendingDeliver)
    → Memᴰ (key, p) (delivers es)
    → Memᴰ (key, pending_deliver p) es
unfolding delivers
Mem-delivers [] key p m = elim m [ ]
Mem-delivers ((k, submit_record r) ∷ es) key p m = tail (Mem-delivers es key p m)
Mem-delivers ((k, tracking t) ∷ es) key p m = tail (Mem-delivers es key p m)
Mem-delivers ((k, pending_submit q) ∷ es) key p m = tail (Mem-delivers es key p m)
Mem-delivers ((k, pending_deliver q) ∷ es) key p (head e) =
    head (ap (λ x. (x.0, pending_deliver x.1)) e)
Mem-delivers ((k, pending_deliver q) ∷ es) key p (tail m) = tail (Mem-delivers es key p m)

pub Mem-entries_of :
    {A : Type 0}
    → (es : List (Key × A)) (key : Key) (x : A) → Memᴰ (key, x) es
    → Memᴰ x (entries_of es)
unfolding entries_of
Mem-entries_of [] key x m = elim m [ ]
Mem-entries_of ((k, y) ∷ es) key x (head e) = head (ap (λ z. z.1) e)
Mem-entries_of ((k, y) ∷ es) key x (tail m) = tail (Mem-entries_of es key x m)

Mem-skip :
    {A : Type 0}
    → (skipped : Bool) (x y : A) (xs : List A) → Memᴰ x xs
    → Memᴰ x (if skipped then xs else y ∷ xs)
Mem-skip true x y xs m = m
Mem-skip false x y xs m = tail m

if_if :
    {A : Type 0}
    → (a b : Bool) (x y : A) → (if a then x else if b then x else y) ≡ (if b || a then x else y)
if_if true true x y = refl
if_if true false x y = refl
if_if false true x y = refl
if_if false false x y = refl

-- A pending delivery is among the fresh ones, unless it is stale.
Mem-fresh :
    (stale : ℕ) (es : List (Key × PendingDeliver)) (key : Key) (p : PendingDeliver)
    → Memᴰ (key, p) es
    → ltb p.enqueued_at stale ≡ true ⊎ Memᴰ p (fresh stale es)
unfolding fresh
Mem-fresh stale [] key p m = elim m [ ]
Mem-fresh stale ((k, q) ∷ es) key p (head e) =
    let same : p ≡ q = ap (λ z. z.1) e in
    elim (Bool-cases (ltb q.enqueued_at stale)) [
      | inl c ↦ inl (ap (λ r. ltb r.enqueued_at stale) same ∙ c)
      | inr c ↦ inr (
          subst (Memᴰ p) (sym (ap (λ b. if b then fresh stale es else q ∷ fresh stale es) c))
            (head same))
    ]
Mem-fresh stale ((k, q) ∷ es) key p (tail m) = elim (Mem-fresh stale es key p m) [
  | inl c ↦ inl c
  | inr n ↦ inr (Mem-skip (ltb q.enqueued_at stale) p q (fresh stale es) n)
]

module _ {Db : Type 0} (kv : Kv Db Value) (laws : IsKv kv) where
  get-delete_all :
      (db : Db) (ks : List Key) (key : Key)
      → kv.get (delete_all kv db ks) key ≡ (if has_key key ks then none else kv.get db key)
  unfolding delete_all has_key
  get-delete_all db [] key = refl
  get-delete_all db (k ∷ ks) key =
      get-delete_all (kv.delete db k) ks key
      ∙ ap (λ o. if has_key key ks then none else o) (laws.get-delete db k key)
      ∙ if_if (has_key key ks) (key_eq k key) none (kv.get db key)

  -- Two entries of a scan with the same key are the same.
  pub scan_unique :
      (db : Db) (low high key : Key) (v w : Value)
      → Memᴰ (key, v) (kv.scan db low high)
      → Memᴰ (key, w) (kv.scan db low high)
      → some v ≡ some w
  scan_unique db low high key v w m n =
      sym (laws.get_of_scan db low high key v m) ∙ laws.get_of_scan db low high key w n

  -- The pending submits that DrainSubmitRetries looks at.
  abbrev pub submit_queue : MessageStore Db → List (Key × PendingSubmit)
  submit_queue s = submits (kv.scan s.db submit_retry_prefix (submit_retry_prefix ++ 255 ∷ []))

  -- The pending deliveries that DrainRetries looks at.
  abbrev pub retry_queue : MessageStore Db → ℕ → List (Key × PendingDeliver)
  retry_queue s now =
      delivers (kv.scan s.db retry_prefix (retry_prefix ++ (padded 20 now ++ 58 ∷ [])))

  -- Over a database with Pebble's laws, DrainSubmitRetries returns the first entries of the queue,
  -- as many as the limit says, or all of them when the limit is not positive; afterwards their
  -- keys hold nothing and every other key holds what it held.
  pub drain_submit_retries-front :
      (s : MessageStore Db) (limit : ℤ) (key : Key)
      → ((drain_submit_retries kv s limit).1 ≡ entries_of (front limit (submit_queue s)))
        × (kv.get (drain_submit_retries kv s limit).0.db key ≡ (
            if has_key key (keys_of (front limit (submit_queue s))) then none else kv.get s.db key))
  unfolding drain_submit_retries
  drain_submit_retries-front s limit key =
      let drained : _ =
        submit_retries-front limit
          (kv.scan s.db submit_retry_prefix (submit_retry_prefix ++ 255 ∷ [])) in
      (
        ap (λ d. d.1) drained,
        ap (λ d. kv.get (delete_all kv s.db d.0) key) drained
            ∙ get-delete_all s.db (keys_of (front limit (submit_queue s))) key,
      )

  pub drain_retries-front :
      (s : MessageStore Db) (now max_age : ℕ) (limit : ℤ) (key : Key)
      → ((drain_retries kv s now max_age limit).1
          ≡ fresh (now - max_age) (front limit (retry_queue s now)))
        × (kv.get (drain_retries kv s now max_age limit).0.db key ≡ (
            if has_key key (keys_of (front limit (retry_queue s now)))
            then none
            else kv.get s.db key))
  unfolding drain_retries
  drain_retries-front s now max_age limit key =
      let drained : _ =
        retries-front (now - max_age) limit
          (kv.scan s.db retry_prefix (retry_prefix ++ (padded 20 now ++ 58 ∷ []))) in
      (
        ap (λ d. d.1) drained,
        ap (λ d. kv.get (delete_all kv s.db d.0) key) drained
            ∙ get-delete_all s.db (keys_of (front limit (retry_queue s now))) key,
      )

  -- Over a database with Pebble's laws, an entry of the queue is returned by DrainSubmitRetries or
  -- stays in the database.
  pub drain_submit_retries_lossless :
      (s : MessageStore Db) (limit : ℤ) (key : Key) (p : PendingSubmit)
      → Memᴰ (key, p) (submit_queue s)
      → Memᴰ p (drain_submit_retries kv s limit).1
        ⊎ kv.get (drain_submit_retries kv s limit).0.db key ≡ some (pending_submit p)
  drain_submit_retries_lossless s limit key p m =
      let low : Key = submit_retry_prefix in
      let high : Key = submit_retry_prefix ++ 255 ∷ [] in
      let taken : List (Key × PendingSubmit) = front limit (submit_queue s) in
      let (found, left) = drain_submit_retries-front s limit key in
      elim (Bool-cases (has_key key (keys_of taken))) [
        | inl c ↦
            let (q, n) = has_key→Mem key taken c in
            let same : some (pending_submit q) ≡ some (pending_submit p) =
              scan_unique s.db low high key (pending_submit q) (pending_submit p)
                (Mem-submits (kv.scan s.db low high) key q
                  (Mem-front limit (submit_queue s) (key, q) n))
                (Mem-submits (kv.scan s.db low high) key p m) in
            let q≡p : q ≡ p = cc same in
            inl (
              subst (Memᴰ p) (sym found)
                (subst (λ x. Memᴰ x (entries_of taken)) q≡p (Mem-entries_of taken key q n)))
        | inr c ↦ inr (
            left
            ∙ ap (λ b. if b then none else kv.get s.db key) c
            ∙ laws.get_of_scan s.db low high key (pending_submit p)
                (Mem-submits (kv.scan s.db low high) key p m))
      ]

  -- Over a database with Pebble's laws, an entry of the queue is returned by DrainRetries, is
  -- older than the maximal age, or stays in the database.
  pub drain_retries_lossless :
      (s : MessageStore Db) (now max_age : ℕ) (limit : ℤ) (key : Key) (p : PendingDeliver)
      → Memᴰ (key, p) (retry_queue s now)
      → Memᴰ p (drain_retries kv s now max_age limit).1
        ⊎ (ltb p.enqueued_at (now - max_age) ≡ true
            ⊎ kv.get (drain_retries kv s now max_age limit).0.db key ≡ some (pending_deliver p))
  drain_retries_lossless s now max_age limit key p m =
      let low : Key = retry_prefix in
      let high : Key = retry_prefix ++ (padded 20 now ++ 58 ∷ []) in
      let stale : ℕ = now - max_age in
      let taken : List (Key × PendingDeliver) = front limit (retry_queue s now) in
      let (found, left) = drain_retries-front s now max_age limit key in
      elim (Bool-cases (has_key key (keys_of taken))) [
        | inl c ↦
            let (q, n) = has_key→Mem key taken c in
            let same : some (pending_deliver q) ≡ some (pending_deliver p) =
              scan_unique s.db low high key (pending_deliver q) (pending_deliver p)
                (Mem-delivers (kv.scan s.db low high) key q
                  (Mem-front limit (retry_queue s now) (key, q) n))
                (Mem-delivers (kv.scan s.db low high) key p m) in
            let q≡p : q ≡ p = cc same in
            let n' : Memᴰ (key, p) taken = subst (λ x. Memᴰ (key, x) taken) q≡p n in
            elim (Mem-fresh stale taken key p n') [
              | inl old ↦ inr (inl old)
              | inr k ↦ inl (subst (Memᴰ p) (sym found) k)
            ]
        | inr c ↦ inr (
            inr (
              left
              ∙ ap (λ b. if b then none else kv.get s.db key) c
              ∙ laws.get_of_scan s.db low high key (pending_deliver p)
                  (Mem-delivers (kv.scan s.db low high) key p m)))
      ]
