-- ===== src/Gateway/Store/Writer/View.antt =====
-- The store of gateway/store.go with its batch writer against the map that it promises.
use go_smsc.Prelude.{
  ◌+◌, ◌≡◌, refl, ◌∙◌, ap, sym, arith, Bool, true, false, List, [], ◌∷◌, ◌++◌, Option, none, some,
  leb, ltb, if◌then◌else◌, length, append_assoc, Bool-cases, inl, inr,
}
use go_smsc.Prelude.Int.{pos, ◌+ℤ◌}
use go_smsc.Prelude.Keys.{Key, key_eq, key_eq→eq}
use go_smsc.Gateway.Store.{
  SubmitRecord, Value, submit_record, MessageStore, channel_size, max_batch, msg_key, gw_key,
  record_key, set_all, store_submit, delete_submit, delete_submit_by_gw_id, flush, receive, stop,
}
use go_smsc.Gateway.Store.Database.{Kv, IsKv}
use go_smsc.Gateway.Store.Writer.{
  overlay, writes, overlay-append, overlay_other, overlay_hides, Action, store, delete,
  delete_by_gw_id, take_write, tick, promised, promised_all, act, act_all, under_way, view,
  in_order, all_in_order,
}

module _ {Db : Type 0} (kv : Kv Db Value) (laws : IsKv kv) where
  get-set_all :
      (db : Db) (ops : List (Key × Value)) (key : Key)
      → kv.get (set_all kv db ops) key ≡ overlay ops key (kv.get db key)
  unfolding set_all overlay
  get-set_all db [] key = refl
  get-set_all db ((k, v) ∷ ops) key =
      get-set_all (kv.set db k v) ops key ∙ ap (overlay ops key) (laws.get-set db k key v)

  view-flush : (s : MessageStore Db) (key : Key) → view kv (flush kv s) key ≡ view kv s key
  unfolding view under_way flush
  view-flush s key =
      ap (overlay s.channel key) (get-set_all s.db s.batch key)
      ∙ sym (overlay-append s.batch s.channel key (kv.get s.db key))

  view-taken :
      (s : MessageStore Db) (op : Key × Value) (ops : List (Key × Value)) (key : Key)
      → view kv (record s { channel = ops; batch = s.batch ++ op ∷ [] }) key
        ≡ view kv (record s { channel = op ∷ ops }) key
  unfolding view under_way
  view-taken s op ops key =
      ap (λ writes'. overlay writes' key (kv.get s.db key)) (append_assoc s.batch (op ∷ []) ops)

  view-receive :
      (s : MessageStore Db) (c : List (Key × Value)) (key : Key)
      → view kv (receive kv (record s { channel = c })) key ≡ view kv (record s { channel = c }) key
  unfolding receive
  view-receive s [] key = refl
  view-receive s (op ∷ ops) key =
      let taken : MessageStore Db = record s { channel = ops; batch = s.batch ++ op ∷ [] } in
      let same : view kv taken key ≡ view kv (record s { channel = op ∷ ops }) key =
        view-taken s op ops key in
      elim (Bool-cases (leb max_batch (length s.batch + 1))) [
        | inl e ↦
            ap (λ b. view kv (if b then flush kv taken else taken) key) e
            ∙ view-flush taken key
            ∙ same
        | inr e ↦ ap (λ b. view kv (if b then flush kv taken else taken) key) e ∙ same
      ]

  -- The view after a write at once, when no write to the same key is under way.
  view-at_once :
      (s : MessageStore Db) (db : Db) (changed : Key) (v : Option Value) (key : Key)
      → kv.get db key ≡ (if key_eq changed key then v else kv.get s.db key)
      → writes (under_way kv s) changed ≡ false
      → overlay (under_way kv s) key (kv.get db key)
        ≡ (if key_eq changed key then v else view kv s key)
  unfolding overlay under_way view
  view-at_once s db changed v key e h = elim (Bool-cases (key_eq changed key)) [
    | inl c ↦
        overlay_other (under_way kv s) key (kv.get db key)
          (ap (writes (under_way kv s)) (sym (key_eq→eq changed key c)) ∙ h)
        ∙ e
        ∙ ap (λ b. if b then v else kv.get s.db key) c
        ∙ sym (ap (λ b. if b then v else view kv s key) c)
    | inr c ↦
        ap (overlay (under_way kv s) key) (e ∙ ap (λ b. if b then v else kv.get s.db key) c)
        ∙ sym (ap (λ b. if b then v else view kv s key) c)
  ]

  -- The view after a write that waits behind the others.
  view-queued :
      (s : MessageStore Db) (changed : Key) (v : Value) (key : Key)
      → overlay (s.batch ++ (s.channel ++ (changed, v) ∷ [])) key (kv.get s.db key)
        ≡ (if key_eq changed key then some v else view kv s key)
  unfolding overlay view under_way
  view-queued s changed v key =
      ap (λ ops. overlay ops key (kv.get s.db key))
        (sym (append_assoc s.batch s.channel ((changed, v) ∷ [])))
      ∙ overlay-append (s.batch ++ s.channel) ((changed, v) ∷ []) key (kv.get s.db key)

  view-store :
      (s : MessageStore Db) (r : SubmitRecord) (key : Key)
      → in_order kv s (store r) ≡ true
      → view kv (store_submit kv s r) key
        ≡ (if key_eq (record_key r) key then some (submit_record r) else view kv s key)
  unfolding store_submit in_order view overlay
  view-store s r key h =
      let changed : Key = record_key r in
      let direct : MessageStore Db = record s {
        db = kv.set s.db changed (submit_record r);
        msg_count = s.msg_count +ℤ pos 1;
      } in
      let queued : MessageStore Db = record s {
        channel = s.channel ++ (changed, submit_record r) ∷ [];
        msg_count = s.msg_count +ℤ pos 1;
      } in
      let chosen : Bool → Bool → MessageStore Db =
        λ closed room. if closed then direct else if room then queued else direct in
      let room : Bool = ltb (length s.channel) channel_size in
      let at_once : writes (under_way kv s) changed ≡ false → view kv direct key ≡ _ =
        view-at_once s (kv.set s.db changed (submit_record r)) changed (some (submit_record r)) key
          (laws.get-set s.db changed key (submit_record r)) in
      elim (Bool-cases s.closed) [
        | inl c ↦ ap (λ b. view kv (chosen b room) key) c ∙ at_once (ground arith)
        | inr c ↦ elim (Bool-cases room) [
          | inl e ↦
              ap (λ b. view kv (chosen b room) key) c
              ∙ ap (λ b. view kv (chosen false b) key) e
              ∙ view-queued s changed (submit_record r) key
          | inr e ↦
              ap (λ b. view kv (chosen b room) key) c
              ∙ ap (λ b. view kv (chosen false b) key) e
              ∙ at_once (ground arith)
        ]
      ]

  -- After a call of the store or a step of the batch writer that is in order, every key holds what
  -- the specification promises.
  pub view-act :
      (s : MessageStore Db) (a : Action) (key : Key)
      → in_order kv s a ≡ true
      → view kv (act kv s a) key ≡ promised (view kv s) a key
  unfolding act promised in_order delete_submit delete_submit_by_gw_id view overlay
  view-act s (store r) key h = view-store s r key h
  view-act s (delete id) key h =
      view-at_once s (kv.delete s.db (msg_key id)) (msg_key id) none key
        (laws.get-delete s.db (msg_key id) key) (ground arith)
  view-act s (delete_by_gw_id id) key h =
      view-at_once s (kv.delete s.db (gw_key id)) (gw_key id) none key
        (laws.get-delete s.db (gw_key id) key) (ground arith)
  view-act s take_write key h = view-receive s s.channel key
  view-act s tick key h = view-flush s key

  -- Over a database with Pebble's laws, the store refines a map in which every call takes effect
  -- at once: after a run of calls and steps of the batch writer, each of them in order, a key
  -- holds, once the writes under way are committed, what the map holds after the same calls.
  pub view-act_all :
      (s : MessageStore Db) (actions : List Action) (key : Key)
      → all_in_order kv s actions ≡ true
      → view kv (act_all kv s actions) key ≡ promised_all (view kv s) actions key
  unfolding act_all promised_all all_in_order
  view-act_all s [] key h = refl
  view-act_all s (a ∷ actions) key h =
      view-act_all (act kv s a) actions key (ground arith)
      ∙ ap (λ held. promised_all held actions key) (λ i k. view-act s a k (ground arith) i)

  -- Over a database with Pebble's laws, DeleteSubmit has no effect while a write to the same key
  -- is under way: once that is committed, every key holds what it would hold without the deletion.
  pub view-delete_submit :
      (s : MessageStore Db) (id key : Key)
      → writes (under_way kv s) (msg_key id) ≡ true
      → view kv (delete_submit kv s id) key ≡ view kv s key
  unfolding delete_submit view overlay
  view-delete_submit s id key h = elim (Bool-cases (key_eq (msg_key id) key)) [
    | inl c ↦
        overlay_hides (under_way kv s) key (kv.get (kv.delete s.db (msg_key id)) key)
          (kv.get s.db key) (ap (writes (under_way kv s)) (sym (key_eq→eq (msg_key id) key c)) ∙ h)
    | inr c ↦
        ap (overlay (under_way kv s) key)
          (laws.get-delete s.db (msg_key id) key ∙ ap (λ b. if b then none else kv.get s.db key) c)
  ]

  -- Over a database with Pebble's laws, after Close a key of the database holds what it would hold
  -- once the writes under way are committed.
  pub get-stop : (s : MessageStore Db) (key : Key) → kv.get (stop kv s).db key ≡ view kv s key
  unfolding stop flush view under_way
  get-stop s key = get-set_all s.db (s.batch ++ s.channel) key
