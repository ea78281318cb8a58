-- ===== src/Gateway/Sessions/Bound.antt =====
-- Who may submit in the session of gateway/connection.go.
use go_smsc.Prelude.{
  ℕ, ◌≡◌, refl, ◌∙◌, ap, sym, subst, Bool, true, false, List, [], ◌∷◌, ◌++◌, Option, ◌==◌,
  if◌then◌else◌, Result, ok, err, stuck, Bool-cases, inl, inr, ◌⊎◌, All,
}
use go_smsc.Prelude.Keys.{Key}
use go_smsc.Smpp.Commands.{cmd_submit_sm, cmd_enquire_link, cmd_deliver_sm_resp, cmd_unbind}
use go_smsc.Smpp.Pdu.{Pdu}
use go_smsc.Gateway.Sessions.{
  ClientConfig, BindConfig, Session, Effect, respond, submit, deliver_resp, on_bind, is_bind,
  verdict, answer_bind, bind_mode_from_command_id, bind_resp_command_id, handle_bind, dispatch,
  read_loop,
}
use mathlib.Core.List.{Memᴰ}
use mathlib.Core.List.Memᴰ.{head, tail}

Mem-append : {A : Type 0} → (x : A) (xs ys : List A) → Memᴰ x (xs ++ ys) → Memᴰ x xs ⊎ Memᴰ x ys
Mem-append x [] ys m = inr m
Mem-append x (y ∷ xs) ys (head e) = inl (head e)
Mem-append x (y ∷ xs) ys (tail m) = elim (Mem-append x xs ys m) [
  | inl n ↦ inl (tail n)
  | inr n ↦ inr n
]

-- Whether an effect calls onSubmit.
unfoldable pub is_submit : Effect → Bool
is_submit (respond cmd status seq body) = false
is_submit (submit id seq body) = true
is_submit (deliver_resp id seq status) = false
is_submit (on_bind system_id) = false

module _ (bcrypt : Key → Key → Bool) (cfg : BindConfig) (remote_ip : Key) where
  -- A bind that the checks let in.
  abbrev pub LetIn : Pdu → Type 0
  LetIn pdu =
      (is_bind pdu.command_id ≡ true)
      × ((config : Option ClientConfig) × ((verdict bcrypt cfg remote_ip pdu).1 ≡ ok config))

  answer_bind-bound :
      (keeps : Key → Bool) (s : Session) (system_id : Key) (resp seq : ℕ)
      (r : Result ℕ (Option ClientConfig))
      → (answer_bind bcrypt cfg remote_ip keeps s system_id resp seq r).0.bound ≡ true
      → s.bound ≡ true ⊎ ((config : Option ClientConfig) × (r ≡ ok config))
  unfolding answer_bind
  answer_bind-bound keeps s system_id resp seq (ok config) h = inr (config, refl)
  answer_bind-bound keeps s system_id resp seq (err status) h = inl h
  answer_bind-bound keeps s system_id resp seq stuck h = inl h

  abbrev NoSubmit : List Effect → Type 0
  NoSubmit = All (λ e. is_submit e ≡ false)

  answer_bind-NoSubmit :
      (keeps : Key → Bool) (s : Session) (system_id : Key) (resp seq : ℕ)
      (r : Result ℕ (Option ClientConfig))
      → NoSubmit (answer_bind bcrypt cfg remote_ip keeps s system_id resp seq r).1
  unfolding answer_bind is_submit
  answer_bind-NoSubmit keeps s system_id resp seq (ok config) = (refl, (refl, tt))
  answer_bind-NoSubmit keeps s system_id resp seq (err status) = (refl, tt)
  answer_bind-NoSubmit keeps s system_id resp seq stuck = tt

  dispatch_bind :
      (keeps : Key → Bool) (s : Session) (pdu : Pdu)
      → is_bind pdu.command_id ≡ true
      → dispatch bcrypt cfg remote_ip keeps s pdu ≡ handle_bind bcrypt cfg remote_ip keeps s pdu
  unfolding dispatch
  dispatch_bind keeps s pdu b = rw b refl

  -- What a PDU that is no bind does: the session is as before, and it submits only a submit_sm, when bound.
  dispatch_other :
      (keeps : Key → Bool) (s : Session) (pdu : Pdu)
      → is_bind pdu.command_id ≡ false
      → ((dispatch bcrypt cfg remote_ip keeps s pdu).0 ≡ s)
        × ((((dispatch bcrypt cfg remote_ip keeps s pdu).1
                ≡ submit s.id pdu.sequence_number pdu.body ∷ [])
              × (s.bound ≡ true)
              × ((pdu.command_id == cmd_submit_sm) ≡ true))
            ⊎ NoSubmit (dispatch bcrypt cfg remote_ip keeps s pdu).1)
  unfolding dispatch is_submit
  dispatch_other keeps s pdu b = elim (Bool-cases (pdu.command_id == cmd_submit_sm)) [
    | inl c ↦ elim (Bool-cases s.bound) [
      | inl d ↦ rw (b, c, d) (refl, inl (refl, refl, refl))
      | inr d ↦ rw (b, c, d) (refl, inr (refl, tt))
    ]
    | inr c ↦ elim (Bool-cases (pdu.command_id == cmd_enquire_link)) [
      | inl d ↦ rw (b, c, d) (refl, inr (refl, tt))
      | inr d ↦ elim (Bool-cases (pdu.command_id == cmd_deliver_sm_resp)) [
        | inl e ↦ rw (b, c, d, e) (refl, inr (refl, tt))
        | inr e ↦ elim (Bool-cases (pdu.command_id == cmd_unbind)) [
          | inl f ↦ rw (b, c, d, e, f) (refl, inr (refl, tt))
          | inr f ↦ rw (b, c, d, e, f) (refl, inr (refl, tt))
        ]
      ]
    ]
  ]

  dispatch-bound :
      (keeps : Key → Bool) (s : Session) (pdu : Pdu)
      → (dispatch bcrypt cfg remote_ip keeps s pdu).0.bound ≡ true
      → s.bound ≡ true ⊎ LetIn pdu
  unfolding handle_bind
  dispatch-bound keeps s pdu h = elim (Bool-cases (is_bind pdu.command_id)) [
    | inl b ↦
        let h' : (handle_bind bcrypt cfg remote_ip keeps s pdu).0.bound ≡ true =
          sym (ap (λ x. x.0.bound) (dispatch_bind keeps s pdu b)) ∙ h in
        elim (answer_bind-bound keeps
          (record s {
            system_id = (verdict bcrypt cfg remote_ip pdu).0;
            bind_mode = bind_mode_from_command_id pdu.command_id;
          })
          (verdict bcrypt cfg remote_ip pdu).0 (bind_resp_command_id pdu.command_id)
          pdu.sequence_number (verdict bcrypt cfg remote_ip pdu).1 h') [
            | inl k ↦ inl k
            | inr k ↦ inr (b, k)
          ]
    | inr b ↦ inl (sym (ap (λ x. x.bound) (dispatch_other keeps s pdu b).0) ∙ h)
  ]

  -- A PDU leads to a submission when it is a submit_sm in a bound session, and else to none.
  dispatch-submit :
      (keeps : Key → Bool) (s : Session) (pdu : Pdu)
      → (((dispatch bcrypt cfg remote_ip keeps s pdu).1
            ≡ submit s.id pdu.sequence_number pdu.body ∷ [])
          × (s.bound ≡ true)
          × ((pdu.command_id == cmd_submit_sm) ≡ true))
        ⊎ NoSubmit (dispatch bcrypt cfg remote_ip keeps s pdu).1
  unfolding handle_bind
  dispatch-submit keeps s pdu = elim (Bool-cases (is_bind pdu.command_id)) [
    | inl b ↦ inr (
        subst (λ x. NoSubmit x.1) (sym (dispatch_bind keeps s pdu b))
          (answer_bind-NoSubmit keeps
            (record s {
              system_id = (verdict bcrypt cfg remote_ip pdu).0;
              bind_mode = bind_mode_from_command_id pdu.command_id;
            })
            (verdict bcrypt cfg remote_ip pdu).0 (bind_resp_command_id pdu.command_id)
            pdu.sequence_number (verdict bcrypt cfg remote_ip pdu).1))
    | inr b ↦ (dispatch_other keeps s pdu b).1
  ]

  -- The submit_sm that a call of onSubmit comes from.
  abbrev pub Sent : Pdu → ℕ → List ℕ → Type 0
  Sent pdu seq body =
      ((pdu.command_id == cmd_submit_sm) ≡ true) × (pdu.sequence_number ≡ seq) × (pdu.body ≡ body)

  no_submit :
      (id : Key) (seq : ℕ) (body : List ℕ) (es : List Effect)
      → NoSubmit es
      → ¬ Memᴰ (submit id seq body) es
  unfolding is_submit
  no_submit id seq body [] h m = elim m [ ]
  no_submit id seq body (e ∷ es) h (head q) = cc (ap is_submit q, h.0)
  no_submit id seq body (e ∷ es) h (tail m) = no_submit id seq body es h.1 m

  only_submit :
      (id id' : Key) (seq seq' : ℕ) (body body' : List ℕ)
      → Memᴰ (submit id seq body) (submit id' seq' body' ∷ [])
      → (seq' ≡ seq) × (body' ≡ body)
  only_submit id id' seq seq' body body' (head q) = (cc q, cc q)
  only_submit id id' seq seq' body body' (tail m) = elim m [ ]

  dispatched :
      (keeps : Key → Bool) (s : Session) (pdu : Pdu) (id : Key) (seq : ℕ) (body : List ℕ)
      → Memᴰ (submit id seq body) (dispatch bcrypt cfg remote_ip keeps s pdu).1
      → Sent pdu seq body × (s.bound ≡ true)
  dispatched keeps s pdu id seq body m = elim (dispatch-submit keeps s pdu) [
    | inl (e, b, c) ↦
        let (same_seq, same_body) =
          only_submit id s.id seq pdu.sequence_number body pdu.body
            (subst (Memᴰ (submit id seq body)) e m) in
        ((c, same_seq, same_body), b)
    | inr n ↦ absurd (no_submit id seq body (dispatch bcrypt cfg remote_ip keeps s pdu).1 n m)
  ]

  -- What the loop hands to onSubmit is the body of a submit_sm that it read, with its sequence number,
  -- and the session was bound before or one of the PDUs that it read is a bind that the checks let in.
  pub read_loop-submit :
      (s : Session) (pdus : List ((Key → Bool) × Pdu)) (id : Key) (seq : ℕ) (body : List ℕ)
      → Memᴰ (submit id seq body) (read_loop bcrypt cfg remote_ip s pdus)
      → ((x : (Key → Bool) × Pdu) × Memᴰ x pdus × Sent x.1 seq body)
        × (s.bound ≡ true ⊎ ((y : (Key → Bool) × Pdu) × Memᴰ y pdus × LetIn y.1))
  unfolding read_loop
  read_loop-submit s [] id seq body m = elim m [ ]
  read_loop-submit s ((keeps, pdu) ∷ pdus) id seq body m =
      let done : _ = dispatch bcrypt cfg remote_ip keeps s pdu in
      let rest : List Effect = read_loop bcrypt cfg remote_ip done.0 pdus in
      let cases : Bool → List Effect = λ b. if b then done.1 ++ rest else done.1 in
      let now : Memᴰ (submit id seq body) done.1 → _ = λ n.
        let (sent, bound) = dispatched keeps s pdu id seq body n in
        (((keeps, pdu), head refl, sent), inl bound) in
      elim (Bool-cases done.2) [
        | inl g ↦
            elim (Mem-append (submit id seq body) done.1 rest
              (subst (λ b. Memᴰ (submit id seq body) (cases b)) g m)) [
                | inl n ↦ now n
                | inr n ↦
                    let ((x, k, sent), before) = read_loop-submit done.0 pdus id seq body n in
                    (
                      (x, tail k, sent),
                      elim before [
                        | inl b ↦ elim (dispatch-bound keeps s pdu b) [
                          | inl c ↦ inl c
                          | inr c ↦ inr ((keeps, pdu), head refl, c)
                        ]
                        | inr (y, l, c) ↦ inr (y, tail l, c)
                      ],
                    )
              ]
        | inr g ↦ now (subst (λ b. Memᴰ (submit id seq body) (cases b)) g m)
      ]
