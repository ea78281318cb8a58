-- ===== src/Gateway/Store/Writer.antt =====
-- The batch writer of gateway/store.go next to the calls that write at once: what the database will
-- hold once the writer has committed everything, as a map from keys to values.
pub mod View
use go_smsc.Prelude.{
  ℕ, zero, suc, ◌+◌, ◌≡◌, refl, ◌∙◌, ap, sym, arith, Bool, true, false, not, ◌&&◌, ◌||◌, List, [],
  ◌∷◌, ◌++◌, Option, none, some, leb, ltb, ◌==◌, if◌then◌else◌, length, append_assoc, Bool-cases,
  inl, inr,
}
use go_smsc.Prelude.Int.{ℤ, pos, negsuc, ◌+ℤ◌}
use go_smsc.Prelude.Keys.{Key, key_eq, key_eq_refl, key_eq→eq}
use go_smsc.Gateway.Store.{
  SubmitRecord, Value, submit_record, pending_submit, pending_deliver, MessageStore, channel_size,
  max_batch, msg_key, gw_key, record_key, set_all, store_submit, delete_submit,
  delete_submit_by_gw_id, flush, receive,
}
use go_smsc.Gateway.Store.Database.{Kv, IsKv}

-- What a key holds after the writes, when it held `old` before.
unfoldable pub overlay : List (Key × Value) → Key → Option Value → Option Value
overlay [] key old = old
overlay ((k, v) ∷ ops) key old = overlay ops key (if key_eq k key then some v else old)

unfoldable pub writes : List (Key × Value) → Key → Bool
writes [] key = false
writes ((k, v) ∷ ops) key = key_eq k key || writes ops key

overlay-append :
    (xs ys : List (Key × Value)) (key : Key) (old : Option Value)
    → overlay (xs ++ ys) key old ≡ overlay ys key (overlay xs key old)
unfolding overlay
overlay-append [] ys key old = refl
overlay-append ((k, v) ∷ xs) ys key old =
    overlay-append xs ys key (if key_eq k key then some v else old)

-- Writes to other keys leave a key's value.
overlay_other :
    (ops : List (Key × Value)) (key : Key) (old : Option Value)
    → writes ops key ≡ false
    → overlay ops key old ≡ old
unfolding overlay writes
overlay_other [] key old h = refl
overlay_other ((k, v) ∷ ops) key old h = elim (Bool-cases (key_eq k key)) [
  | inl e ↦ absurd (ground arith)
  | inr e ↦
      overlay_other ops key (if key_eq k key then some v else old) (ground arith)
      ∙ ap (λ b. if b then some v else old) e
]

-- A write to the key hides what it held before.
overlay_hides :
    (ops : List (Key × Value)) (key : Key) (old older : Option Value)
    → writes ops key ≡ true
    → overlay ops key old ≡ overlay ops key older
unfolding overlay writes
overlay_hides [] key old older h = absurd (cc)
overlay_hides ((k, v) ∷ ops) key old older h = elim (Bool-cases (key_eq k key)) [
  | inl e ↦
      ap (λ b. overlay ops key (if b then some v else old)) e
      ∙ sym (ap (λ b. overlay ops key (if b then some v else older)) e)
  | inr e ↦
      overlay_hides ops key (if key_eq k key then some v else old)
        (if key_eq k key then some v else older) (ground arith)
]

-- A call of the store, or a step of batchWriteLoop.
pub data Action : Type 0 where
  store : SubmitRecord → Action
  delete delete_by_gw_id : Key → Action
  take_write tick : Action

-- The specification: a map in which a call takes effect at once and the writer is not seen.
unfoldable pub promised : (Key → Option Value) → Action → Key → Option Value
unfolding record_key
promised held (store r) key = if key_eq (record_key r) key then some (submit_record r) else held key
promised held (delete id) key = if key_eq (msg_key id) key then none else held key
promised held (delete_by_gw_id id) key = if key_eq (gw_key id) key then none else held key
promised held take_write key = held key
promised held tick key = held key

unfoldable pub promised_all : (Key → Option Value) → List Action → Key → Option Value
unfolding promised
promised_all held [] = held
promised_all held (a ∷ actions) = promised_all (promised held a) actions

module _ {Db : Type 0} (kv : Kv Db Value) where
  unfoldable pub act : MessageStore Db → Action → MessageStore Db
  unfolding store_submit delete_submit delete_submit_by_gw_id receive flush
  act s (store r) = store_submit kv s r
  act s (delete id) = delete_submit kv s id
  act s (delete_by_gw_id id) = delete_submit_by_gw_id kv s id
  act s take_write = receive kv s
  act s tick = flush kv s

  unfoldable pub act_all : MessageStore Db → List Action → MessageStore Db
  unfolding act
  act_all s [] = s
  act_all s (a ∷ actions) = act_all (act s a) actions

  -- The writes under way, the older ones first.
  unfoldable pub under_way : MessageStore Db → List (Key × Value)
  under_way s = s.batch ++ s.channel

  -- What a key holds once the writes under way are committed.
  unfoldable pub view : MessageStore Db → Key → Option Value
  unfolding under_way overlay
  view s key = overlay (under_way s) key (kv.get s.db key)

  -- A call that writes to the database at once finds no write to the same key under way.
  unfoldable pub in_order : MessageStore Db → Action → Bool
  unfolding under_way writes record_key
  in_order s (store r) =
      (not s.closed && ltb (length s.channel) channel_size)
      || not (writes (under_way s) (record_key r))
  in_order s (delete id) = not (writes (under_way s) (msg_key id))
  in_order s (delete_by_gw_id id) = not (writes (under_way s) (gw_key id))
  in_order s take_write = true
  in_order s tick = true

  unfoldable pub all_in_order : MessageStore Db → List Action → Bool
  unfolding in_order act
  all_in_order s [] = true
  all_in_order s (a ∷ actions) = in_order s a && all_in_order (act s a) actions
