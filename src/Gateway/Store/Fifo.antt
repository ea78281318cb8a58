-- ===== src/Gateway/Store/Fifo.antt =====
-- The retry queue of submits of gateway/store.go: the order in which the submits come out of it.
use go_smsc.Prelude.{
  ℕ, zero, suc, ◌<◌, ◌≡◌, refl, ◌∙◌, ap, sym, subst, true, false, List, [], ◌∷◌, ◌++◌, none, some,
  if◌then◌else◌, take, ◌⊎◌, inl, inr, Bool-cases, arith,
}
use go_smsc.Prelude.Int.{ℤ, pos, negsuc}
use go_smsc.Prelude.Keys.{Key, key_eq, key_eq→eq, key_eq_refl}
use go_smsc.Gateway.Decimal.{pow10}
use go_smsc.Gateway.Store.{
  Value, submit_record, pending_submit, pending_deliver, tracking, PendingSubmit, MessageStore,
  enqueue_submit_retry, drain_submit_retries, submit_retry_prefix, retry_key,
}
use go_smsc.Gateway.Store.Database.{Kv, IsKv, InOrder, precedes}
use go_smsc.Gateway.Store.Drain.{
  submit_queue, drain_submit_retries-front, has_key, has_key→Mem, Mem-submits, Mem-front,
  Mem-entries_of,
}
use go_smsc.Gateway.Store.Order.{retry_key_monotone, retry_key_range}
use go_smsc.Gateway.Store.Queues.{submits, front, keys_of, entries_of}
use mathlib.Core.List.{Memᴰ}
use mathlib.Core.List.Memᴰ.{head, tail}

-- The first element stands before the second.
pub data Before {A : Type 0} (x y : A) : List A → Type 0 where
  first : (xs : List A) → Memᴰ y xs → Before x y (x ∷ xs)
  later : (z : A) (xs : List A) → Before x y xs → Before x y (z ∷ xs)

precedes_irrefl : (k : Key) → precedes k k ≡ false
unfolding precedes
precedes_irrefl [] = refl
precedes_irrefl (b ∷ k) = ground (arith, precedes_irrefl k)

later_key : (j k : Key) → precedes j k ≡ true → key_eq k j ≡ false
later_key j k h = elim (Bool-cases (key_eq k j)) [
  | inl e ↦
      let never = ap (precedes j) (key_eq→eq k j e) ∙ precedes_irrefl j in absurd (cc (h, never))
  | inr e ↦ e
]

module _ {A : Type 0} where
  -- In a list in the order of its keys, what has a smaller key than an entry of the beginning stands
  -- before it.
  Before-beginning :
      (start rest : List (Key × A)) (x y : Key × A)
      → InOrder (start ++ rest)
      → precedes x.0 y.0 ≡ true
      → Memᴰ x (start ++ rest)
      → Memᴰ y start
      → Before x y start
  Before-beginning [] rest x y h p m n = elim n [ ]
  Before-beginning (e ∷ start) rest x y h p (head q) (head r) =
      let never = ap (λ z. precedes z.0 y.0) (q ∙ sym r) ∙ precedes_irrefl y.0 in
      absurd (cc (p, never))
  Before-beginning (e ∷ start) rest x y h p (head q) (tail n) =
      subst (λ z. Before x y (z ∷ start)) q (first start n)
  Before-beginning (e ∷ start) rest x y h p (tail m) (head r) =
      let never = ap (λ z. precedes x.0 z.0) r ∙ h.0 x m in absurd (cc (p, never))
  Before-beginning (e ∷ start) rest x y h p (tail m) (tail n) =
      later e start (Before-beginning start rest x y h.1 p m n)

  take_rest : (n : ℕ) (xs : List (Key × A)) → (rest : List (Key × A)) × (xs ≡ take n xs ++ rest)
  take_rest zero xs = (xs, refl)
  take_rest (suc n) [] = ([], refl)
  take_rest (suc n) (x ∷ xs) = let (rest, e) = take_rest n xs in (rest, ap (λ l. x ∷ l) e)

  append_nil : (xs : List (Key × A)) → xs ≡ xs ++ []
  append_nil [] = refl
  append_nil (x ∷ xs) = ap (λ l. x ∷ l) (append_nil xs)

  front_rest :
      (limit : ℤ) (xs : List (Key × A)) → (rest : List (Key × A)) × (xs ≡ front limit xs ++ rest)
  unfolding front
  front_rest (pos zero) xs = ([], append_nil xs)
  front_rest (pos (suc n)) xs = take_rest (suc n) xs
  front_rest (negsuc n) xs = ([], append_nil xs)

  Before-entries_of :
      (x y : Key × A) (es : List (Key × A)) → Before x y es → Before x.1 y.1 (entries_of es)
  unfolding entries_of
  Before-entries_of x y es (first xs m) = first (entries_of xs) (Mem-entries_of xs y.0 y.1 m)
  Before-entries_of x y es (later z xs b) = later z.1 (entries_of xs) (Before-entries_of x y xs b)

InOrder-submits : (es : List (Key × Value)) → InOrder es → InOrder (submits es)
unfolding submits
InOrder-submits [] h = tt
InOrder-submits ((k, submit_record r) ∷ es) h = InOrder-submits es h.1
InOrder-submits ((k, tracking t) ∷ es) h = InOrder-submits es h.1
InOrder-submits ((k, pending_deliver p) ∷ es) h = InOrder-submits es h.1
InOrder-submits ((k, pending_submit p) ∷ es) h =
    (λ x m. h.0 (x.0, pending_submit x.1) (Mem-submits es x.0 x.1 m), InOrder-submits es h.1)

submits-Mem :
    (es : List (Key × Value)) (key : Key) (p : PendingSubmit)
    → Memᴰ (key, pending_submit p) es
    → Memᴰ (key, p) (submits es)
unfolding submits
submits-Mem [] key p m = elim m [ ]
submits-Mem ((k, submit_record r) ∷ es) key p (head e) = absurd (cc (ap (λ x. x.1) e))
submits-Mem ((k, submit_record r) ∷ es) key p (tail m) = submits-Mem es key p m
submits-Mem ((k, tracking r) ∷ es) key p (head e) = absurd (cc (ap (λ x. x.1) e))
submits-Mem ((k, tracking r) ∷ es) key p (tail m) = submits-Mem es key p m
submits-Mem ((k, pending_deliver r) ∷ es) key p (head e) = absurd (cc (ap (λ x. x.1) e))
submits-Mem ((k, pending_deliver r) ∷ es) key p (tail m) = submits-Mem es key p m
submits-Mem ((k, pending_submit q) ∷ es) key p (head e) =
    let keys = ap (λ x. x.0) e in
    let values = ap (λ x. x.1) e in
    let same : p ≡ q = cc values in head (ap (λ x. (x, p)) keys ∙ ap (λ x. (k, x)) same)
submits-Mem ((k, pending_submit q) ∷ es) key p (tail m) = tail (submits-Mem es key p m)

module _ {Db : Type 0} (kv : Kv Db Value) (laws : IsKv kv) where
  abbrev key_of : PendingSubmit → Key
  key_of p = retry_key submit_retry_prefix p.enqueued_at p.gw_msg_id

  -- The store after the one and then the other has been queued.
  abbrev pub queued : MessageStore Db → PendingSubmit → PendingSubmit → MessageStore Db
  queued s p q = enqueue_submit_retry kv (enqueue_submit_retry kv s p) q

  get_queued :
      (s : MessageStore Db) (p q : PendingSubmit)
      → precedes (key_of p) (key_of q) ≡ true
      → (kv.get (queued s p q).db (key_of p) ≡ some (pending_submit p))
        × (kv.get (queued s p q).db (key_of q) ≡ some (pending_submit q))
  unfolding enqueue_submit_retry
  get_queued s p q h = (
    laws.get-set (enqueue_submit_retry kv s p).db (key_of q) (key_of p) (pending_submit q)
        ∙ ap
            (λ b.
              if b
              then some (pending_submit q)
              else kv.get (enqueue_submit_retry kv s p).db (key_of p))
            (later_key (key_of p) (key_of q) h)
        ∙ laws.get-set s.db (key_of p) (key_of p) (pending_submit p)
        ∙ ap (λ b. if b then some (pending_submit p) else kv.get s.db (key_of p))
            (key_eq_refl (key_of p)),
    laws.get-set (enqueue_submit_retry kv s p).db (key_of q) (key_of q) (pending_submit q)
        ∙ ap
            (λ b.
              if b
              then some (pending_submit q)
              else kv.get (enqueue_submit_retry kv s p).db (key_of q))
            (key_eq_refl (key_of q)),
  )

  in_queue :
      (s : MessageStore Db) (p : PendingSubmit)
      → kv.get s.db (key_of p) ≡ some (pending_submit p)
      → Memᴰ (key_of p, p) (submit_queue kv laws s)
  in_queue s p h =
      let (low, high) = retry_key_range submit_retry_prefix p.gw_msg_id p.enqueued_at in
      submits-Mem (kv.scan s.db submit_retry_prefix (submit_retry_prefix ++ 255 ∷ [])) (key_of p) p
        (laws.scan_of_get s.db submit_retry_prefix (submit_retry_prefix ++ 255 ∷ []) (key_of p)
          (pending_submit p) h low high)

  -- An entry of the front of the queue is the one that Get finds.
  front_entry :
      (t : MessageStore Db) (limit : ℤ) (key : Key) (x q : PendingSubmit)
      → Memᴰ (key, x) (front limit (submit_queue kv laws t))
      → kv.get t.db key ≡ some (pending_submit q)
      → Memᴰ (key, q) (front limit (submit_queue kv laws t))
  front_entry t limit key x q m h =
      let low : Key = submit_retry_prefix in
      let high : Key = submit_retry_prefix ++ 255 ∷ [] in
      let found : kv.get t.db key ≡ some (pending_submit x) =
        laws.get_of_scan t.db low high key (pending_submit x) (
          Mem-submits (kv.scan t.db low high) key x
            (Mem-front limit (submit_queue kv laws t) (key, x) m)) in
      let values : some (pending_submit x) ≡ some (pending_submit q) = sym found ∙ h in
      let same : x ≡ q = cc values in
      subst (λ y. Memᴰ (key, y) (front limit (submit_queue kv laws t))) same m

  -- Over a database with Pebble's laws, of two submits that EnqueueSubmitRetry queues one after the other,
  -- the second with the later time, the second does not overtake the first, whatever their identifiers
  -- and whatever else is in the store: DrainSubmitRetries returns the first before the second, or it
  -- leaves the second in the queue. The times have up to 20 digits.
  pub drain_submit_retries_fifo :
      (s : MessageStore Db) (p q : PendingSubmit) (limit : ℤ)
      → p.enqueued_at < q.enqueued_at
      → q.enqueued_at < pow10 20
      → Before p q (drain_submit_retries kv (queued s p q) limit).1
        ⊎ kv.get
            (drain_submit_retries kv (queued s p q) limit).0.db
            (retry_key submit_retry_prefix q.enqueued_at q.gw_msg_id)
          ≡ some (pending_submit q)
  drain_submit_retries_fifo s p q limit h k =
      let t : MessageStore Db = queued s p q in
      let queue : List (Key × PendingSubmit) = submit_queue kv laws t in
      let taken : List (Key × PendingSubmit) = front limit queue in
      let earlier : precedes (key_of p) (key_of q) ≡ true =
        retry_key_monotone submit_retry_prefix p.gw_msg_id q.gw_msg_id p.enqueued_at q.enqueued_at h
          k in
      let (got_p, got_q) = get_queued s p q earlier in
      let (found, left) = drain_submit_retries-front kv laws t limit (key_of q) in
      elim (Bool-cases (has_key (key_of q) (keys_of taken))) [
        | inl c ↦
            let (x, n) = has_key→Mem (key_of q) taken c in
            let (rest, split) = front_rest limit queue in
            let ordered : InOrder queue =
              InOrder-submits (kv.scan t.db submit_retry_prefix (submit_retry_prefix ++ 255 ∷ []))
                (laws.scan_in_order t.db submit_retry_prefix (submit_retry_prefix ++ 255 ∷ [])) in
            inl (
              subst (Before p q) (sym found) (
                Before-entries_of (key_of p, p) (key_of q, q) taken
                  (Before-beginning taken rest (key_of p, p) (key_of q, q)
                    (subst InOrder split ordered) earlier
                    (subst (Memᴰ (key_of p, p)) split (in_queue t p got_p))
                    (front_entry t limit (key_of q) x q n got_q))))
        | inr c ↦ inr (left ∙ ap (λ b. if b then none else kv.get t.db (key_of q)) c ∙ got_q)
      ]
