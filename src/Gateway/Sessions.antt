-- ===== src/Gateway/Sessions.antt =====
-- The session of an engine in gateway/connection.go: handleBind, and what ReadLoop does with a PDU. The
-- socket is left out; what the session sends and whom it calls are effects. bcrypt, the record of a
-- client's configuration and the server's answer to onBind are parameters.
pub mod Bound
pub mod Framing
pub mod Examples
use go_smsc.Prelude.{
  ℕ, zero, suc, ◌+◌, ◌≡◌, Bool, true, false, not, ◌&&◌, ◌||◌, List, [], ◌∷◌, ◌++◌, Option, none,
  some, leb, ltb, ◌==◌, if◌then◌else◌, length, Result, ok, err, stuck,
}
use go_smsc.Prelude.Keys.{Key, key_eq}
use go_smsc.Smpp.Commands.{
  cmd_bind_receiver, cmd_bind_receiver_resp, cmd_bind_transmitter, cmd_bind_transmitter_resp,
  cmd_bind_transceiver, cmd_bind_transceiver_resp, cmd_submit_sm, cmd_submit_sm_resp,
  cmd_deliver_sm_resp, cmd_enquire_link, cmd_enquire_link_resp, cmd_unbind, cmd_unbind_resp,
}
use go_smsc.Smpp.CString.{read_c_string, write_c_string_bytes}
use go_smsc.Smpp.Pdu.{Pdu}
use go_smsc.Smpp.Bodies.{BindMode, bind_transceiver, bind_transmitter, bind_receiver}
use go_smsc.Gateway.Admission.{any_equal}

-- StatusOK, StatusInvBnd, StatusInvPaswd, StatusInvCmdID and CmdGenericNack
abbrev pub status_ok : ℕ
status_ok = 0

abbrev pub status_inv_bnd : ℕ
status_inv_bnd = 4

abbrev pub status_inv_paswd : ℕ
status_inv_paswd = 14

abbrev pub status_inv_cmd_id : ℕ
status_inv_cmd_id = 3

abbrev pub cmd_generic_nack : ℕ
cmd_generic_nack = 0x80000000

-- The fields of ConnectionConfig that a bind reads.
pub record ClientConfig : Type 0 where
  pub password_hash : Key
  pub enabled : Bool
  pub allowed_ips : List Key
  pub allowed_bind_modes : List Key

pub record BindConfig : Type 0 where
  pub password : Key
  pub allowed_engines : List Key
  pub server_system_id : Key
  pub version_5 : Bool
  -- ConnectionConfigStore.Get: `none` is an error, `some none` an unknown client. There may be no store.
  pub clients : Option (Key → Option (Option ClientConfig))

pub record Session : Type 0 where
  pub id : Key
  pub system_id : Key
  pub bind_mode : BindMode
  pub bound : Bool
  pub config : Option ClientConfig

pub data Effect : Type 0 where
  -- sendResponse: command, status, sequence number, body
  respond : ℕ → ℕ → ℕ → List ℕ → Effect
  -- onSubmit and onDeliverResp with the connection's identifier, and onBind
  submit : Key → ℕ → List ℕ → Effect
  deliver_resp : Key → ℕ → ℕ → Effect
  on_bind : Key → Effect

unfoldable pub bind_resp_command_id : ℕ → ℕ
bind_resp_command_id cmd =
    if cmd == cmd_bind_transmitter
    then cmd_bind_transmitter_resp
    else if cmd == cmd_bind_receiver
    then cmd_bind_receiver_resp
    else cmd_bind_transceiver_resp

unfoldable pub bind_mode_from_command_id : ℕ → BindMode
bind_mode_from_command_id cmd =
    if cmd == cmd_bind_transmitter
    then bind_transmitter
    else if cmd == cmd_bind_receiver
    then bind_receiver
    else bind_transceiver

-- "transmitter", "receiver" and "transceiver"
unfoldable pub bind_mode_name : BindMode → Key
bind_mode_name bind_transmitter =
    116 ∷ 114 ∷ 97 ∷ 110 ∷ 115 ∷ 109 ∷ 105 ∷ 116 ∷ 116 ∷ 101 ∷ 114 ∷ []
bind_mode_name bind_receiver = 114 ∷ 101 ∷ 99 ∷ 101 ∷ 105 ∷ 118 ∷ 101 ∷ 114 ∷ []
bind_mode_name bind_transceiver = 116 ∷ 114 ∷ 97 ∷ 110 ∷ 115 ∷ 99 ∷ 101 ∷ 105 ∷ 118 ∷ 101 ∷ 114 ∷ []

-- "SMSCGW"
abbrev pub default_server_id : Key
default_server_id = 83 ∷ 77 ∷ 83 ∷ 67 ∷ 71 ∷ 87 ∷ []

unfoldable pub is_bind : ℕ → Bool
is_bind cmd =
    cmd == cmd_bind_transceiver || (cmd == cmd_bind_transmitter || cmd == cmd_bind_receiver)

module _ (bcrypt : Key → Key → Bool) (cfg : BindConfig) (remote_ip : Key) where
  -- An empty list allows everything.
  unfoldable pub allowed : Key → List Key → Bool
  allowed key keys = length keys == 0 || any_equal key keys

  -- Authenticate of gateway/conn_config.go, with the statuses that handleBind gives its results.
  unfoldable pub authenticate :
      (Key → Option (Option ClientConfig)) → Key → Key → Result ℕ ClientConfig
  authenticate clients system_id password = elim (clients system_id) [
    | none ↦ err status_inv_paswd
    | some none ↦ err status_inv_bnd
    | some (some client) ↦
        if client.enabled && bcrypt client.password_hash password
        then ok client
        else err status_inv_paswd
  ]

  -- The checks of handleBind: the client's configuration, or the status to answer with.
  unfoldable pub check_bind : BindMode → Key → Key → Result ℕ (Option ClientConfig)
  unfolding authenticate allowed bind_mode_name
  check_bind mode system_id password = elim cfg.clients [
    | some clients ↦ elim (authenticate clients system_id password) [
      | ok client ↦
          if allowed remote_ip client.allowed_ips
            && allowed (bind_mode_name mode) client.allowed_bind_modes
          then ok (some client)
          else err status_inv_bnd
      | err status ↦ err status
      | stuck ↦ stuck
    ]
    | none ↦
        if not (key_eq cfg.password []) && not (key_eq password cfg.password)
        then err status_inv_bnd
        else if allowed system_id cfg.allowed_engines
        then ok none
        else err status_inv_bnd
  ]

  -- The system id and the password of a bind's body, and the checks of them.
  unfoldable pub verdict : Pdu → Key × Result ℕ (Option ClientConfig)
  unfolding read_c_string check_bind bind_mode_from_command_id
  verdict pdu =
      let (system_id, offset) = read_c_string pdu.body 0 in
      let (password, _) = read_c_string pdu.body offset in
      (system_id, check_bind (bind_mode_from_command_id pdu.command_id) system_id password)

  -- The body of a bind's response; the TLV is sc_interface_version with 0x50.
  unfoldable pub bind_resp_body : List ℕ
  unfolding write_c_string_bytes
  bind_resp_body =
      let server_id =
        if key_eq cfg.server_system_id [] then default_server_id else cfg.server_system_id in
      write_c_string_bytes server_id ++ (if cfg.version_5 then 2 ∷ 16 ∷ 0 ∷ 1 ∷ 80 ∷ [] else [])

  -- The end of handleBind, and the call of onBind that follows it: `keeps` says whether the server keeps
  -- the connection and names it, or closes it. A bind without a configuration leaves the one from before.
  unfoldable pub answer_bind :
      (Key → Bool)
      → Session
      → Key
      → ℕ
      → ℕ
      → Result ℕ (Option ClientConfig)
      → Session × List Effect × Bool
  unfolding bind_resp_body
  answer_bind keeps s system_id resp seq (err status) =
      (s, respond resp status seq (0 ∷ []) ∷ [], true)
  answer_bind keeps s system_id resp seq stuck = (s, [], false)
  answer_bind keeps s system_id resp seq (ok config) = (
    record s {
      id = if keeps system_id then system_id else s.id;
      bound = true;
      config = elim config [ none ↦ s.config | some client ↦ some client ];
    },
    respond resp status_ok seq bind_resp_body ∷ on_bind system_id ∷ [],
    keeps system_id,
  )

  unfoldable pub handle_bind : (Key → Bool) → Session → Pdu → Session × List Effect × Bool
  unfolding verdict bind_resp_command_id answer_bind
  handle_bind keeps s pdu =
      let (system_id, checked) = verdict pdu in
      let mode = bind_mode_from_command_id pdu.command_id in
      answer_bind keeps (record s { system_id = system_id; bind_mode = mode }) system_id
        (bind_resp_command_id pdu.command_id) pdu.sequence_number checked

  -- The switch of ReadLoop; the Boolean says whether the loop goes on.
  unfoldable pub dispatch : (Key → Bool) → Session → Pdu → Session × List Effect × Bool
  unfolding handle_bind is_bind
  dispatch keeps s pdu =
      let seq = pdu.sequence_number in
      let bind = handle_bind keeps s pdu in
      if is_bind pdu.command_id
      then bind
      else if pdu.command_id == cmd_submit_sm
      then (
        s,
        (if s.bound
            then submit s.id seq pdu.body ∷ []
            else respond cmd_submit_sm_resp status_inv_bnd seq (0 ∷ []) ∷ []),
        true,
      )
      else if pdu.command_id == cmd_enquire_link
      then (s, respond cmd_enquire_link_resp status_ok seq [] ∷ [], true)
      else if pdu.command_id == cmd_deliver_sm_resp
      then (s, deliver_resp s.id seq pdu.command_status ∷ [], true)
      else if pdu.command_id == cmd_unbind
      then (s, respond cmd_unbind_resp status_ok seq [] ∷ [], false)
      else (s, respond cmd_generic_nack status_inv_cmd_id seq [] ∷ [], true)

  -- ReadLoop over the PDUs that it reads; before each of them, the server may answer anew.
  unfoldable pub read_loop : Session → List ((Key → Bool) × Pdu) → List Effect
  unfolding dispatch
  read_loop s [] = []
  read_loop s ((keeps, pdu) ∷ pdus) =
      let (s', effects, goes_on) = dispatch keeps s pdu in
      let rest = read_loop s' pdus in if goes_on then effects ++ rest else effects
