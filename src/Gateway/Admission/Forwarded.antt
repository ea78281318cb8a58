-- ===== src/Gateway/Admission/Forwarded.antt =====
-- What an admitted submit_sm carries, and what the admission has checked.
use go_smsc.Prelude.{
  ℕ, ◌≡◌, inl, inr, ap, ◌∙◌, true, false, List, ◌∷◌, ◌++◌, some, Option-cases, ok, arith,
}
use go_smsc.Prelude.Int.{ℤ}
use go_smsc.Prelude.Keys.{Key}
use go_smsc.Smpp.CString.Cursor.{NoNul}
use go_smsc.Gateway.Bodies.{parse_submit_sm_addresses, rewrite_submit_sm_source}
use go_smsc.Gateway.Bodies.Rewrite.{
  submit_body, rewrite_submit_sm_source-submit_body, parse_submit_sm_addresses-submit_body,
}
use go_smsc.Gateway.ShardMap.{ShardMap}
use go_smsc.Gateway.Admission.{
  ConnectionConfig, Admission, enforce_source, prefix_allowed, limit_reached, effective_tps,
  blocked, rate_checked, admit,
}

-- A body with these addresses, whatever else it holds.
abbrev pub Carries : List ℕ → Key → Key → Type 0
Carries body source dest = parse_submit_sm_addresses body ≡ (source, dest)

module _ (service dest rest : List ℕ) (s_ton s_npi d_ton d_npi : ℕ) (service_plain : NoNul service)
    (dest_plain : NoNul dest) where
  abbrev body_of : Key → List ℕ
  body_of source = submit_body service s_ton s_npi source (d_ton ∷ d_npi ∷ (dest ++ 0 ∷ rest))

  rewritten :
      (source new_addr : Key) (ton npi : ℕ)
      → NoNul source
      → NoNul new_addr
      → Carries (rewrite_submit_sm_source (body_of source) new_addr ton npi) new_addr dest
  rewritten source new_addr ton npi h k =
      ap parse_submit_sm_addresses (
        rewrite_submit_sm_source-submit_body service source (d_ton ∷ d_npi ∷ (dest ++ 0 ∷ rest))
          new_addr s_ton s_npi ton npi service_plain h)
      ∙ parse_submit_sm_addresses-submit_body service new_addr dest rest ton npi d_ton d_npi
          service_plain k dest_plain

  -- Where HandleSubmit's source address enforcement lets a submit_sm body go on, the body that goes
  -- on carries the source address that goes on and the old destination, where no address of the
  -- body or of the configuration holds a NUL.
  pub enforce_source-Carries :
      (cfg : ConnectionConfig) (source source' : Key) (body' : List ℕ)
      → NoNul source
      → NoNul cfg.force_source_addr
      → NoNul cfg.default_source_addr
      → enforce_source cfg source (body_of source) ≡ some (source', body')
      → Carries body' source' dest
  unfolding enforce_source
  enforce_source-Carries cfg source source' body' h f d e =
      let same =
        parse_submit_sm_addresses-submit_body service source dest rest s_ton s_npi d_ton d_npi
          service_plain h dest_plain in
      let forced =
        rewritten source cfg.force_source_addr cfg.force_source_ton cfg.force_source_npi h f in
      let filled =
        rewritten source cfg.default_source_addr cfg.default_source_ton cfg.default_source_npi h
          d in
      ground (arith, e, same, forced, filled)

  module _ (fnv32a : Key → ℕ) (blacklist : ShardMap (Unit {0})) (rate_limit : ℤ) (current : ℕ) where
    -- Where HandleSubmit admits a submit_sm of a configured connection, the body that goes on
    -- carries the source and destination that are recorded, the destination is the client's, it is
    -- not on the blacklist and is allowed by the prefixes, and the rate limit is not reached. No
    -- address of the body or of the configuration holds a NUL.
    pub admit-Carries :
        (cfg : ConnectionConfig) (source : Key) (adm : Admission)
        → NoNul source
        → NoNul cfg.force_source_addr
        → NoNul cfg.default_source_addr
        → admit fnv32a blacklist rate_limit current (some (some cfg)) (body_of source) ≡ ok adm
        → Carries adm.raw_body adm.source_addr adm.dest_addr
          × (adm.dest_addr ≡ dest)
          × (blocked fnv32a blacklist dest ≡ false)
          × (prefix_allowed cfg dest ≡ true)
          × (limit_reached (effective_tps rate_limit cfg) current ≡ false)
    unfolding admit rate_checked
    admit-Carries cfg source adm h f d e =
        let same =
          parse_submit_sm_addresses-submit_body service source dest rest s_ton s_npi d_ton d_npi
            service_plain h dest_plain in
        elim (Option-cases (enforce_source cfg source (body_of source))) [
          | inl q ↦ absurd (ground (arith, e, same, q))
          | inr ((source', body'), q) ↦
              let carried = enforce_source-Carries cfg source source' body' h f d q in
              (
                ground (arith, e, same, q, carried),
                ground (arith, e, same, q),
                ground (arith, e, same, q),
                ground (arith, e, same, q),
                ground (arith, e, same, q),
              )
        ]
