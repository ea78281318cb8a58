-- ===== src/Gateway/Sessions/Framing.antt =====
-- ReadLoop of gateway/connection.go on the byte stream of an engine: how it cuts the stream into PDUs, and
-- where it ends.
use go_smsc.Prelude.{
  ℕ, zero, suc, ◌+◌, ◌<◌, ◌≡◌, ◌≤◌, ◌⊎◌, inl, inr, refl, ◌∙◌, ap, sym, arith, Bool, false, List, [],
  ◌∷◌, ◌++◌, Option, none, some, Option-cases, ltb, if◌then◌else◌, length, length-append, take,
  take-append, drop, drop-append, map, All, ok, err, stuck,
}
use go_smsc.Prelude.Bytes.{u32_at}
use go_smsc.Prelude.Keys.{Key}
use go_smsc.Smpp.Pdu.{Pdu, encode_pdu, decode_pdu}
use go_smsc.Smpp.Pdu.RoundTrip.{IsSendable, received, encode_pdu-frame}
use go_smsc.Gateway.Sessions.{BindConfig, Session, Effect, dispatch, read_loop}

-- What the surroundings do before each PDU that is read: `none` when the loop finds that `done` is closed,
-- else the server's answer to a bind.
abbrev pub Surroundings : Type 0
Surroundings = ℕ → Option (Key → Bool)

abbrev later : Surroundings → Surroundings
later env = λ n. env (suc n)

module _ (bcrypt : Key → Key → Bool) (cfg : BindConfig) (remote_ip : Key) where
  -- ReadLoop until the stream ends, a PDU is malformed, `done` is closed, the engine unbinds or the
  -- server closes the connection. A fuel above the number of bytes is enough, since a PDU has 16 at
  -- least.
  unfoldable pub read_stream : ℕ → Surroundings → Session → List ℕ → List Effect
  unfolding dispatch
  read_stream zero env s bytes = []
  read_stream (suc fuel) env s bytes =
      let cmd_len = u32_at bytes 0 in
      elim (env 0) [
        | none ↦ []
        | some keeps ↦
            if ltb (length bytes) 16
            then []
            else if ltb cmd_len 16
            then []
            else if ltb (length bytes) cmd_len
            then []
            else elim (decode_pdu (take cmd_len bytes)) [
              | ok pdu ↦
                  let (s', effects, goes_on) = dispatch bcrypt cfg remote_ip keeps s pdu in
                  let rest = read_stream fuel (later env) s' (drop cmd_len bytes) in
                  if goes_on then effects ++ rest else effects
              | err e ↦ []
              | stuck ↦ []
            ]
      ]

-- The bytes of PDUs that are sent one after the other, and then the end or bytes that are no PDU: too few,
-- or with a command_length that is below 16 or beyond the end.
pub data Stream : List Pdu → List ℕ → Type 0 where
  ends :
      (rest : List ℕ)
      → length rest < 16 ⊎ (u32_at rest 0 < 16 ⊎ length rest < u32_at rest 0)
      → Stream [] rest
  sends :
      (pdu sent : Pdu) (pdus : List Pdu) (bytes rest : List ℕ)
      → encode_pdu pdu ≡ some (sent, bytes)
      → Stream pdus rest
      → Stream (pdu ∷ pdus) (bytes ++ rest)

-- The PDUs with the answers of the surroundings, up to the closing of `done`.
unfoldable pub answered : Surroundings → List Pdu → List ((Key → Bool) × Pdu)
answered env [] = []
answered env (pdu ∷ pdus) =
    let rest = answered (later env) pdus in
    elim (env 0) [ none ↦ [] | some keeps ↦ (keeps, pdu) ∷ rest ]

module _ (bcrypt : Key → Key → Bool) (cfg : BindConfig) (remote_ip : Key) where
  stops_at_end :
      (fuel : ℕ) (env : Surroundings) (s : Session) (rest : List ℕ)
      → length rest < 16 ⊎ (u32_at rest 0 < 16 ⊎ length rest < u32_at rest 0)
      → read_stream bcrypt cfg remote_ip (suc fuel) env s rest ≡ []
  unfolding read_stream
  stops_at_end fuel env s rest h = ground (arith, h)

  closed_first :
      (fuel : ℕ) (env : Surroundings) (s : Session) (bytes : List ℕ)
      → env 0 ≡ none
      → read_stream bcrypt cfg remote_ip (suc fuel) env s bytes ≡ []
  unfolding read_stream
  closed_first fuel env s bytes h = rw (h, read_stream) refl

  one_frame :
      (fuel : ℕ) (env : Surroundings) (s : Session) (keeps : Key → Bool) (pdu : Pdu)
      (bytes rest : List ℕ) (n : ℕ)
      → env 0 ≡ some keeps
      → 16 ≤ n
      → length bytes ≡ n
      → u32_at (bytes ++ rest) 0 ≡ n
      → decode_pdu bytes ≡ ok pdu
      → let (s', effects, goes_on) = dispatch bcrypt cfg remote_ip keeps s pdu in
        read_stream bcrypt cfg remote_ip (suc fuel) env s (bytes ++ rest) ≡ (
          if goes_on
          then effects ++ read_stream bcrypt cfg remote_ip fuel (later env) s' rest
          else effects)
  unfolding read_stream
  one_frame fuel env s keeps pdu bytes rest n known big size first decoded =
      let all : length (bytes ++ rest) ≡ n + length rest =
        omega (arith, length-append bytes rest, size) in
      let a : ltb (length (bytes ++ rest)) 16 ≡ false = ground (arith, all, big) in
      let b : ltb n 16 ≡ false = ground (arith, big) in
      let c : ltb (length (bytes ++ rest)) n ≡ false = ground (arith, all) in
      let front : take n (bytes ++ rest) ≡ bytes =
        ap (λ k. take k (bytes ++ rest)) (sym size) ∙ take-append bytes rest in
      let back : drop n (bytes ++ rest) ≡ rest =
        ap (λ k. drop k (bytes ++ rest)) (sym size) ∙ drop-append bytes rest in
      let step = dispatch bcrypt cfg remote_ip keeps s pdu in
      rw (known, read_stream)
        (rw (a, first, b, c, front, decoded)
          (ap
            (λ x.
              if step.2
              then step.1 ++ read_stream bcrypt cfg remote_ip fuel (later env) step.0 x
              else step.1)
            (ap (λ k. drop k (bytes ++ rest)) first ∙ back)))

  -- ReadLoop does with a stream of PDUs what its switch does with the PDUs, each as DecodePDU gives it:
  -- its header, and its TLVs behind its fields. It takes them in the order in which they were sent, up to
  -- the one with which the engine unbinds, the server closes the connection or `done` is closed, and
  -- stops at bytes that are no PDU. The fuel is more than the number of bytes.
  pub read_stream-read_loop :
      (fuel : ℕ) (env : Surroundings) (s : Session) (pdus : List Pdu) (bytes : List ℕ)
      → All IsSendable pdus
      → Stream pdus bytes
      → length bytes < fuel
      → read_stream bcrypt cfg remote_ip fuel env s bytes
        ≡ read_loop bcrypt cfg remote_ip s (answered env (map received pdus))
  unfolding read_loop answered
  read_stream-read_loop zero env s pdus bytes h st enough = absurd (omega (arith, enough))
  read_stream-read_loop (suc fuel) env s pdus bytes h (ends rest stop) enough =
      stops_at_end fuel env s rest stop
  read_stream-read_loop (suc fuel) env s pdus bytes h (sends pdu sent ps b rest e st) enough =
      let (size, first, decoded) = encode_pdu-frame pdu sent b rest h.0 e in
      let smaller : length rest < fuel = omega (arith, size, length-append b rest, enough) in
      elim (Option-cases (env 0)) [
        | inl q ↦ rw (q) (closed_first fuel env s (b ++ rest) q)
        | inr (keeps, q) ↦
            let step = dispatch bcrypt cfg remote_ip keeps s (received pdu) in
            rw (q) (
              one_frame fuel env s keeps (received pdu) b rest _ q (omega arith) size first decoded
              ∙ ap (λ x. if step.2 then step.1 ++ x else step.1)
                  (read_stream-read_loop fuel (later env) step.0 ps rest h.1 st smaller))
      ]
