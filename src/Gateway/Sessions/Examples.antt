-- ===== src/Gateway/Sessions/Examples.antt =====
-- The theorems about the session of gateway/connection.go at a bind of "E" and a submit_sm, and at a
-- stream of an unbind and an enquire_link.
use go_smsc.Prelude.{ℕ, ◌≡◌, ◌⊎◌, inl, refl, Bool, true, false, List, [], ◌∷◌, none}
use go_smsc.Prelude.{some, ◌++◌, arith}
use go_smsc.Prelude.Keys.{Key, key_eq}
use go_smsc.Smpp.CString.{read_c_string, c_string_end}
use go_smsc.Smpp.Pdu.{Pdu, encode_pdu, tlv_bytes}
use go_smsc.Smpp.Pdu.RoundTrip.{IsSendable, received}
use go_smsc.Smpp.Bodies.{bind_transceiver}
use go_smsc.Gateway.Sessions.{
  BindConfig, Session, submit, respond, read_loop, dispatch, handle_bind, answer_bind, is_bind,
  verdict, check_bind, allowed,
}
use go_smsc.Gateway.Sessions.Bound.{Sent, LetIn, read_loop-submit}
use go_smsc.Gateway.Sessions.Framing.{
  Surroundings, Stream, ends, sends, read_stream, answered, read_stream-read_loop,
}
use mathlib.Core.List.{Memᴰ}
use mathlib.Core.List.Memᴰ.{head, tail}

abbrev no_hash : Key → Key → Bool
no_hash hash password = false

abbrev open_config : BindConfig
open_config = record {
  password = [];
  allowed_engines = [];
  server_system_id = 71 ∷ [];
  version_5 = false;
  clients = none;
}

abbrev fresh_session : Session
fresh_session = record {
  id = [];
  system_id = [];
  bind_mode = bind_transceiver;
  bound = false;
  config = none;
}

abbrev pdu_of : ℕ → ℕ → List ℕ → (Key → Bool) × Pdu
pdu_of cmd seq body = (
  λ system_id. true,
  record {
    command_length = 0;
    command_id = cmd;
    command_status = 0;
    sequence_number = seq;
    body = body;
    tlvs = none;
  },
)

abbrev two_pdus : List ((Key → Bool) × Pdu)
two_pdus = pdu_of 9 1 (69 ∷ 0 ∷ 0 ∷ []) ∷ pdu_of 4 2 (7 ∷ []) ∷ []

submitted :
    Memᴰ (submit (69 ∷ []) 2 (7 ∷ [])) (read_loop no_hash open_config [] fresh_session two_pdus)
unfolding read_loop dispatch handle_bind answer_bind is_bind verdict check_bind allowed
    read_c_string c_string_end key_eq
submitted = tail (tail (head refl))

read_loop-submit_example :
    ((x : (Key → Bool) × Pdu) × Memᴰ x two_pdus × Sent no_hash open_config [] x.1 2 (7 ∷ []))
    × (false ≡ true
        ⊎ ((y : (Key → Bool) × Pdu) × Memᴰ y two_pdus × LetIn no_hash open_config [] y.1))
read_loop-submit_example =
    read_loop-submit no_hash open_config [] fresh_session two_pdus (69 ∷ []) 2 (7 ∷ []) submitted

-- An enquire_link with sequence number 5, and what is sent for it.
abbrev link : Pdu
link = record {
  command_length = 0;
  command_id = 21;
  command_status = 0;
  sequence_number = 5;
  body = [];
  tlvs = none;
}

abbrev link_bytes : List ℕ
link_bytes = 0 ∷ 0 ∷ 0 ∷ 16 ∷ 0 ∷ 0 ∷ 0 ∷ 21 ∷ 0 ∷ 0 ∷ 0 ∷ 0 ∷ 0 ∷ 0 ∷ 0 ∷ 5 ∷ []

link_sent : encode_pdu link ≡ some (record link { command_length = 16 }, link_bytes)
unfolding encode_pdu
link_sent = refl

link-IsSendable : IsSendable link
unfolding tlv_bytes
link-IsSendable = record {
  id_fits = omega arith;
  status_fits = omega arith;
  sequence_fits = omega arith;
  length_fits = omega arith;
}

-- The engine unbinds with sequence number 5 before the enquire_link, which the loop does not read.
abbrev goodbye : Pdu
goodbye = record link { command_id = 6 }

abbrev goodbye_bytes : List ℕ
goodbye_bytes = 0 ∷ 0 ∷ 0 ∷ 16 ∷ 0 ∷ 0 ∷ 0 ∷ 6 ∷ 0 ∷ 0 ∷ 0 ∷ 0 ∷ 0 ∷ 0 ∷ 0 ∷ 5 ∷ []

goodbye_sent : encode_pdu goodbye ≡ some (record goodbye { command_length = 16 }, goodbye_bytes)
unfolding encode_pdu
goodbye_sent = refl

goodbye-IsSendable : IsSendable goodbye
unfolding tlv_bytes
goodbye-IsSendable = record {
  id_fits = omega arith;
  status_fits = omega arith;
  sequence_fits = omega arith;
  length_fits = omega arith;
}

goodbye_first : Stream (goodbye ∷ link ∷ []) (goodbye_bytes ++ (link_bytes ++ (0 ∷ [])))
goodbye_first =
    sends goodbye (record goodbye { command_length = 16 }) (link ∷ []) goodbye_bytes
      (link_bytes ++ (0 ∷ [])) goodbye_sent
      (sends link (record link { command_length = 16 }) [] link_bytes (0 ∷ []) link_sent
        (ends (0 ∷ []) (inl (omega arith))))

abbrev always : Surroundings
always n = some (λ system_id. true)

read_stream-read_loop_example :
    read_stream no_hash open_config [] 34 always fresh_session
      (goodbye_bytes ++ (link_bytes ++ (0 ∷ [])))
    ≡ read_loop no_hash open_config [] fresh_session
        (answered always (received goodbye ∷ received link ∷ []))
read_stream-read_loop_example =
    read_stream-read_loop no_hash open_config [] 34 always fresh_session (goodbye ∷ link ∷ [])
      (goodbye_bytes ++ (link_bytes ++ (0 ∷ []))) (goodbye-IsSendable, (link-IsSendable, tt))
      goodbye_first (omega arith)

-- What comes of it is the answer to the unbind alone.
only_unbound :
    read_loop no_hash open_config [] fresh_session
      (answered always (received goodbye ∷ received link ∷ []))
    ≡ respond 0x80000006 0 5 [] ∷ []
unfolding read_loop dispatch is_bind answered
only_unbound = refl
