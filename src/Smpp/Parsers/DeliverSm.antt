-- ===== src/Smpp/Parsers/DeliverSm.antt =====
-- ParseDeliverSM of smpp/pdu.go on a body with the deliver_sm layout.
use go_smsc.Prelude.{
  ℕ, ◌+◌, ◌≡◌, refl, ap, List, [], ◌∷◌, ◌++◌, false, some, ◌==◌, length, length-append, arith,
}
use go_smsc.Smpp.CString.Cursor.{
  NoNul, At, At-start, At-next, At-append, At-c_string, get_elem?-At, read_c_string-At, slice-At,
}
use go_smsc.Smpp.Parsers.{
  skip_bytes, Deliver, or_return, deliver_message, deliver_rest, deliver_dest, no_deliver,
  parse_deliver_sm,
}

pub skip_bytes-At :
    (front rest : List ℕ) {body : List ℕ} {offset : ℕ}
    → At body offset (front ++ rest)
    → skip_bytes (length front) body offset ≡ some (offset + length front)
unfolding skip_bytes
skip_bytes-At [] rest a = ap some (omega arith)
skip_bytes-At (b ∷ front) rest {body} {offset} a =
    rw (get_elem?-At a, skip_bytes-At front rest (At-next a)) (ap some (omega arith))

deliver_message-At :
    (sm tail : List ℕ) {body : List ℕ} {offset : ℕ} (d : Deliver)
    → At body offset (length sm ∷ (sm ++ tail))
    → d.short_message ≡ []
    → deliver_message body offset d ≡ some (record d { short_message = sm })
unfolding deliver_message
deliver_message-At [] tail {body} {offset} d a e = rw (get_elem?-At a) (ground (arith, e))
deliver_message-At (b ∷ sm) tail {body} {offset} d a e =
    rw (get_elem?-At a, slice-At (b ∷ sm) tail (At-next a))
      (ground (arith, a.room, length-append sm tail))

deliver_rest-At :
    (esm pid priority registered replace coding default : ℕ) (schedule validity sm tail : List ℕ)
    {body : List ℕ} {offset : ℕ} (d : Deliver)
    → At body offset (
        esm
        ∷ pid
        ∷ priority
        ∷ (schedule
            ++ 0
              ∷ (validity
                  ++ 0 ∷ registered ∷ replace ∷ coding ∷ default ∷ length sm ∷ (sm ++ tail))))
    → NoNul schedule
    → NoNul validity
    → d.short_message ≡ []
    → deliver_rest body offset d ≡ record d { esm_class = esm; short_message = sm }
unfolding deliver_rest or_return
deliver_rest-At esm pid priority registered replace coding default schedule validity sm tail {body}
      {offset} d a hs hv e =
    let a1 = At-next a in
    let a3 = At-append (pid ∷ priority ∷ []) a1 in
    let a4 = At-c_string schedule a3 in
    let a5 = At-c_string validity a4 in
    let a6 = At-append (registered ∷ replace ∷ coding ∷ default ∷ []) a5 in
    rw (
      get_elem?-At a,
      skip_bytes-At (pid ∷ priority ∷ []) _ a1,
      read_c_string-At schedule _ a3 hs,
      read_c_string-At validity _ a4 hv,
      skip_bytes-At (registered ∷ replace ∷ coding ∷ default ∷ []) _ a5,
      deliver_message-At sm tail (record d { esm_class = esm }) a6 e,
    )

pub nonempty : (s rest : List ℕ) → (length (s ++ 0 ∷ rest) == 0) ≡ false
nonempty s rest = ground (arith, length-append s (0 ∷ rest))

-- ParseDeliverSM on a body with the deliver_sm layout, with any bytes behind it, returns its two
-- addresses, its ESM class and its short message, where no text of it holds a NUL. So the other
-- fields, and TLVs that follow, change nothing.
pub parse_deliver_sm-layout :
    (service source dest schedule validity sm tail : List ℕ)
    (s_ton s_npi d_ton d_npi esm pid priority registered replace coding default : ℕ)
    → NoNul service
    → NoNul source
    → NoNul dest
    → NoNul schedule
    → NoNul validity
    → parse_deliver_sm (
        service
        ++ 0
          ∷ s_ton
          ∷ s_npi
          ∷ (source
              ++ 0
                ∷ d_ton
                ∷ d_npi
                ∷ (dest
                    ++ 0
                      ∷ esm
                      ∷ pid
                      ∷ priority
                      ∷ (schedule
                          ++ 0
                            ∷ (validity
                                ++ 0
                                  ∷ registered
                                  ∷ replace
                                  ∷ coding
                                  ∷ default
                                  ∷ length sm
                                  ∷ (sm ++ tail))))))
      ≡ record { source_addr = source; dest_addr = dest; esm_class = esm; short_message = sm }
unfolding parse_deliver_sm deliver_dest or_return
parse_deliver_sm-layout service source dest schedule validity sm tail s_ton s_npi d_ton d_npi esm
      pid priority registered replace coding default hv hs hd hc hy =
    let a0 = At-start (service ++ 0 ∷ s_ton ∷ s_npi ∷ _) in
    let a1 = At-c_string service a0 in
    let a2 = At-append (s_ton ∷ s_npi ∷ []) a1 in
    let a3 = At-c_string source a2 in
    let a4 = At-append (d_ton ∷ d_npi ∷ []) a3 in
    let a5 = At-c_string dest a4 in
    let d = record no_deliver { source_addr = source; dest_addr = dest } in
    rw (
      nonempty service _,
      read_c_string-At service _ a0 hv,
      skip_bytes-At (s_ton ∷ s_npi ∷ []) _ a1,
      read_c_string-At source _ a2 hs,
      skip_bytes-At (d_ton ∷ d_npi ∷ []) _ a3,
      read_c_string-At dest _ a4 hd,
      deliver_rest-At esm pid priority registered replace coding default schedule validity sm tail d
          a5 hc hy refl,
    )
