-- ===== src/Gateway/Router/Callbacks.antt =====
-- gateway/callback.go: reports over HTTP to the callback that a REST submission named.
use go_smsc.Prelude.{
  ℕ, zero, suc, ◌+◌, Bool, List, [], ◌∷◌, ◌++◌, Option, none, some, leb, ltb, if◌then◌else◌,
}
use go_smsc.Prelude.Keys.{Key}
use go_smsc.Gateway.Decimal.{decimal}
use go_smsc.Gateway.Store.{Value, MessageStore}
use go_smsc.Gateway.Store.Database.{Kv}
use go_smsc.Gateway.Store.Records.{CallbackRecord, callback}
use go_smsc.Gateway.Store.Status.{
  set_tracking, delete_key, callback_prefix, as_callback, as_tracking,
}
use go_smsc.Gateway.Router.{Router, World, dlr_callback, mo_callback, with_store, happened, asked}

-- "callback-retry:" without its colon, and 5 s, 30 s and 180 s in nanoseconds
abbrev pub callback_retry_prefix : Key
callback_retry_prefix =
    99 ∷ 97 ∷ 108 ∷ 108 ∷ 98 ∷ 97 ∷ 99 ∷ 107 ∷ 45 ∷ 114 ∷ 101 ∷ 116 ∷ 114 ∷ 121 ∷ []

-- "DELIVRD"
abbrev pub delivrd : Key
delivrd = 68 ∷ 69 ∷ 76 ∷ 73 ∷ 86 ∷ 82 ∷ 68 ∷ []

unfoldable pub delay : ℕ → ℕ
delay zero = 5000000000
delay (suc zero) = 30000000000
delay (suc (suc n)) = 180000000000

module _ {Db S : Type 0} (kv : Kv Db Value) (world : World S) where
  -- enqueueCallbackRetry, at a time
  unfoldable pub enqueue_callback_retry :
      ℕ → Key → CallbackRecord → MessageStore Db → MessageStore Db
  unfolding set_tracking delete_key delay
  enqueue_callback_retry now gw_msg_id cb s =
      let cb' = record cb { retries = cb.retries + 1; next_attempt = now + delay cb.retries } in
      let retry_key = callback_retry_prefix ++ (58 ∷ decimal cb'.next_attempt ++ 58 ∷ gw_msg_id) in
      if leb 3 cb.retries
      then delete_key kv s (callback_prefix ++ gw_msg_id)
      else set_tracking kv (set_tracking kv s retry_key (callback cb'))
          (callback_prefix ++ gw_msg_id) (callback cb')

  -- What follows a postCallback for a message.
  unfoldable pub after_callback :
      Bool → ℕ → Key → CallbackRecord → MessageStore Db → MessageStore Db
  unfolding enqueue_callback_retry delete_key
  after_callback taken now gw_msg_id cb s =
      if taken
      then delete_key kv s (callback_prefix ++ gw_msg_id)
      else enqueue_callback_retry now gw_msg_id cb s

  -- postCallback, and what follows; an address is not in the event.
  unfoldable pub report : Router Db → Key → Key → CallbackRecord → Router Db
  unfolding after_callback
  report r gw_msg_id status cb =
      let taken = world.takes_callback r.clock cb.callback_url in
      with_store (happened r (dlr_callback cb.callback_url gw_msg_id status taken))
        (after_callback taken (world.now (r.clock + 1)) gw_msg_id cb)

  unfoldable pub find_callback : Router Db → Key → Option CallbackRecord
  unfolding as_callback as_tracking
  find_callback r gw_msg_id = elim r.store [
    | none ↦ none
    | some s ↦ as_callback (as_tracking (kv.get s.db (callback_prefix ++ gw_msg_id)))
  ]

  unfoldable pub deliver_dlr_callback : Router Db → Key → Key → Router Db
  unfolding find_callback report
  deliver_dlr_callback r gw_msg_id status = elim (find_callback r gw_msg_id) [
    | none ↦ r
    | some cb ↦ report r gw_msg_id status cb
  ]

  unfoldable pub deliver_mo_callback : Router Db → Key → Key → Key → List ℕ → Router Db
  deliver_mo_callback r url source_addr dest_addr payload =
      happened r (mo_callback url source_addr dest_addr payload)

  -- The retries of a scan that are due, with their keys.
  unfoldable pub due : ℕ → List (Key × Value) → List (Key × CallbackRecord)
  unfolding as_callback as_tracking
  due now [] = []
  due now ((k, v) ∷ es) =
      let rest = due now es in
      elim (as_callback (as_tracking (some v))) [
        | none ↦ rest
        | some cb ↦ if ltb cb.next_attempt now then (k, cb) ∷ rest else rest
      ]

  -- The second loop of drainCallbackRetries, and its body.
  unfoldable pub retry_callback : Router Db → Key → CallbackRecord → Router Db
  unfolding find_callback report delete_key
  retry_callback r key item =
      let unmarked = with_store r (λ s. delete_key kv s key) in
      elim (find_callback unmarked item.gw_msg_id) [
        | none ↦ unmarked
        | some cb ↦ report unmarked cb.gw_msg_id delivrd cb
      ]

  unfoldable pub retry_callbacks : Router Db → List (Key × CallbackRecord) → Router Db
  unfolding retry_callback
  retry_callbacks r [] = r
  retry_callbacks r ((key, item) ∷ items) = retry_callbacks (retry_callback r key item) items

  -- drainCallbackRetries; the prefix's upper bound has ";" for ":".
  unfoldable pub drain_callback_retries : Router Db → Router Db
  unfolding due retry_callbacks
  drain_callback_retries r = elim r.store [
    | none ↦ r
    | some s ↦ retry_callbacks (asked r) (
        due (world.now r.clock)
          (kv.scan s.db (callback_retry_prefix ++ 58 ∷ []) (callback_retry_prefix ++ 59 ∷ [])))
  ]
