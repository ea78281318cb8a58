-- ===== src/Gateway/Bodies/Rewrite.antt =====
-- Source address enforcement rewrites the source address and nothing else.
use go_smsc.Prelude.{
  ℕ, ◌+◌, ◌≡◌, sym, ap, ◌∙◌, List, [], ◌∷◌, ◌++◌, length, length-append, take, take-append,
  append_assoc, arith,
}
use go_smsc.Smpp.CString.Cursor.{NoNul, At-start, At-append, At-c_string, read_c_string-At}
use go_smsc.Smpp.Parsers.DeliverSm.{skip_bytes-At, nonempty}
use go_smsc.Gateway.Bodies.{dest_of, parse_submit_sm_addresses, rewrite_submit_sm_source}

-- A submit_sm body: the service type, the source, and what follows the source address.
abbrev pub submit_body : List ℕ → ℕ → ℕ → List ℕ → List ℕ → List ℕ
submit_body service ton npi source rest = service ++ 0 ∷ ton ∷ npi ∷ (source ++ 0 ∷ rest)

take_past : (s rest : List ℕ) → take (0 + length s + 1) (s ++ 0 ∷ rest) ≡ s ++ 0 ∷ []
take_past s rest =
    let e : 0 + length s + 1 ≡ length (s ++ 0 ∷ []) = omega (arith, length-append s (0 ∷ [])) in
    ap (λ n. take n (s ++ 0 ∷ rest)) e
    ∙ ap (λ l. take (length (s ++ 0 ∷ [])) l) (sym (append_assoc s (0 ∷ []) rest))
    ∙ take-append (s ++ 0 ∷ []) rest

-- RewriteSubmitSMSource on a submit_sm body puts the new TON, NPI and address in the place of the old
-- ones and keeps all other bytes, where the service type and the old address hold no NUL.
pub rewrite_submit_sm_source-submit_body :
    (service source rest new_addr : List ℕ) (ton npi new_ton new_npi : ℕ)
    → NoNul service
    → NoNul source
    → rewrite_submit_sm_source (submit_body service ton npi source rest) new_addr new_ton new_npi
      ≡ submit_body service new_ton new_npi new_addr rest
unfolding rewrite_submit_sm_source
rewrite_submit_sm_source-submit_body service source rest new_addr ton npi new_ton new_npi hv hs =
    let a0 = At-start (submit_body service ton npi source rest) in
    let a1 = At-c_string service a0 in
    let a2 = At-append (ton ∷ npi ∷ []) a1 in
    let a3 = At-c_string source a2 in
    rw (read_c_string-At service _ a0 hv, read_c_string-At source rest a2 hs, a3.tail)
      (ground (
        arith,
        take_past service (ton ∷ npi ∷ (source ++ 0 ∷ rest)),
        append_assoc service (0 ∷ []) (new_ton ∷ new_npi ∷ (new_addr ++ 0 ∷ rest)),
        length-append service (0 ∷ ton ∷ npi ∷ (source ++ 0 ∷ rest)),
        length-append source (0 ∷ rest),
      ))

-- ParseSubmitSMAddresses reads the two addresses of a submit_sm body, where no text before the end
-- of the destination address holds a NUL.
pub parse_submit_sm_addresses-submit_body :
    (service source dest rest : List ℕ) (s_ton s_npi d_ton d_npi : ℕ)
    → NoNul service
    → NoNul source
    → NoNul dest
    → parse_submit_sm_addresses
        (submit_body service s_ton s_npi source (d_ton ∷ d_npi ∷ (dest ++ 0 ∷ rest)))
      ≡ (source, dest)
unfolding parse_submit_sm_addresses
parse_submit_sm_addresses-submit_body service source dest rest s_ton s_npi d_ton d_npi hv hs hd =
    let a0 =
      At-start (submit_body service s_ton s_npi source (d_ton ∷ d_npi ∷ (dest ++ 0 ∷ rest))) in
    let a1 = At-c_string service a0 in
    let a2 = At-append (s_ton ∷ s_npi ∷ []) a1 in
    let a3 = At-c_string source a2 in
    let a4 = At-append (d_ton ∷ d_npi ∷ []) a3 in
    rw (
      nonempty service _,
      read_c_string-At service _ a0 hv,
      skip_bytes-At (s_ton ∷ s_npi ∷ []) _ a1,
      read_c_string-At source _ a2 hs,
      dest_of,
      skip_bytes-At (d_ton ∷ d_npi ∷ []) _ a3,
      read_c_string-At dest rest a4 hd,
    )
