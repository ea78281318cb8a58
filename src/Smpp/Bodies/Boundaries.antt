-- ===== src/Smpp/Bodies/Boundaries.antt =====
-- MandatoryBodyLen on what the encoders build, with TLV bytes behind it: it finds the end of the
-- encoded body.
use go_smsc.Prelude.{ℕ, ◌≡◌, refl, List, [], ◌∷◌, ◌++◌, some, length, append-nil}
use go_smsc.Smpp.Commands.{
  cmd_bind_receiver, cmd_bind_transmitter, cmd_bind_transceiver, cmd_query_sm, cmd_cancel_sm,
  cmd_replace_sm, cmd_data_sm, cmd_broadcast_sm, cmd_query_broadcast_sm, cmd_cancel_broadcast_sm,
}
use go_smsc.Smpp.CString.Cursor.{NoNul}
use go_smsc.Smpp.Fields.{mandatory_body_len}
use go_smsc.Smpp.Fields.Boundary.{layout_of}
use go_smsc.Smpp.Fields.Layout.{
  Parses, bind_layout, query_layout, cancel_layout, replace_layout, data_layout, broadcast_layout,
  cancel_broadcast_layout,
}
use go_smsc.Smpp.Pdu.Extract.{mandatory_body_len-append}
use go_smsc.Smpp.Bodies.{
  BindMode, Address, encode_bind, encode_query_sm, encode_cancel_sm, encode_replace_sm,
  encode_data_sm, encode_broadcast_sm, encode_query_broadcast_sm, encode_cancel_broadcast_sm,
}

-- For each of the three bind commands, MandatoryBodyLen on an encoded bind body with any bytes
-- behind it gives the length of the encoded body, where no text of it holds a NUL.
pub encode_bind-boundary :
    (mode : BindMode) (system_id password system_type : List ℕ) (version : ℕ) (tail : List ℕ)
    → NoNul system_id
    → NoNul password
    → NoNul system_type
    → let body = encode_bind mode system_id password system_type version in
      (mandatory_body_len cmd_bind_transceiver (body ++ tail) ≡ some (length body))
      × (mandatory_body_len cmd_bind_transmitter (body ++ tail) ≡ some (length body))
      × (mandatory_body_len cmd_bind_receiver (body ++ tail) ≡ some (length body))
unfolding encode_bind layout_of
encode_bind-boundary mode system_id password system_type version tail a b c =
    let body : List ℕ = encode_bind mode system_id password system_type version in
    let p : Parses bind_layout body [] = (
      system_id,
      _,
      a,
      refl,
      (
        password,
        _,
        b,
        refl,
        (system_type, _, c, refl, (version ∷ 0 ∷ 0 ∷ [], _, refl, refl, ([], [], tt, refl, refl))),
      ),
    ) in
    (
      mandatory_body_len-append cmd_bind_transceiver bind_layout body tail refl tt p,
      mandatory_body_len-append cmd_bind_transmitter bind_layout body tail refl tt p,
      mandatory_body_len-append cmd_bind_receiver bind_layout body tail refl tt p,
    )

-- MandatoryBodyLen on an encoded query_sm, cancel_sm or data_sm body with any bytes behind it gives
-- the length of the encoded body, where no text of it holds a NUL.
pub operations-boundary :
    (service_type message_id : List ℕ) (source dest : Address)
    (esm_class registered_delivery data_coding : ℕ) (tail : List ℕ)
    → NoNul service_type
    → NoNul message_id
    → NoNul source.addr
    → NoNul dest.addr
    → let query = encode_query_sm message_id source in
      let cancel = encode_cancel_sm service_type message_id source dest in
      let body =
        encode_data_sm service_type source dest esm_class registered_delivery data_coding in
      (mandatory_body_len cmd_query_sm (query ++ tail) ≡ some (length query))
      × (mandatory_body_len cmd_cancel_sm (cancel ++ tail) ≡ some (length cancel))
      × (mandatory_body_len cmd_data_sm (body ++ tail) ≡ some (length body))
unfolding encode_query_sm encode_cancel_sm encode_data_sm layout_of
operations-boundary service_type message_id source dest esm_class registered_delivery data_coding
      tail hs hm ha hd =
    let p : Parses query_layout (encode_query_sm message_id source) [] = (
      message_id,
      _,
      hm,
      refl,
      (source.ton ∷ source.npi ∷ [], _, refl, refl, (source.addr, [], ha, refl, refl)),
    ) in
    let q : Parses cancel_layout (encode_cancel_sm service_type message_id source dest) [] = (
      service_type,
      _,
      hs,
      refl,
      (
        message_id,
        _,
        hm,
        refl,
        (
          source.ton ∷ source.npi ∷ [],
          _,
          refl,
          refl,
          (
            source.addr,
            _,
            ha,
            refl,
            (dest.ton ∷ dest.npi ∷ [], _, refl, refl, (dest.addr, [], hd, refl, refl)),
          ),
        ),
      ),
    ) in
    let r : Parses data_layout
        (encode_data_sm service_type source dest esm_class registered_delivery data_coding) [] =
      (
        service_type,
        _,
        hs,
        refl,
        (
          source.ton ∷ source.npi ∷ [],
          _,
          refl,
          refl,
          (
            source.addr,
            _,
            ha,
            refl,
            (
              dest.ton ∷ dest.npi ∷ [],
              _,
              refl,
              refl,
              (
                dest.addr,
                _,
                hd,
                refl,
                (esm_class ∷ registered_delivery ∷ data_coding ∷ [], [], refl, refl, refl),
              ),
            ),
          ),
        ),
      ) in
    (
      mandatory_body_len-append cmd_query_sm query_layout _ tail refl tt p,
      mandatory_body_len-append cmd_cancel_sm cancel_layout _ tail refl tt q,
      mandatory_body_len-append cmd_data_sm data_layout _ tail refl tt r,
    )

-- MandatoryBodyLen on an encoded replace_sm body with any bytes behind it gives the length of the
-- encoded body, where no text of it holds a NUL and the caller passed the message's own length.
pub encode_replace_sm-boundary :
    (message_id : List ℕ) (source : Address) (schedule validity : List ℕ)
    (registered_delivery data_coding sm_length : ℕ) (short_message tail : List ℕ)
    → NoNul message_id
    → NoNul source.addr
    → NoNul schedule
    → NoNul validity
    → sm_length ≡ length short_message
    → let body =
        encode_replace_sm message_id source schedule validity registered_delivery data_coding
          sm_length short_message in
      mandatory_body_len cmd_replace_sm (body ++ tail) ≡ some (length body)
unfolding encode_replace_sm layout_of
encode_replace_sm-boundary message_id source schedule validity registered_delivery data_coding
      sm_length short_message tail hm ha hs hv e =
    let p : Parses replace_layout
        (encode_replace_sm message_id source schedule validity registered_delivery data_coding
          sm_length short_message)
        [] =
      (
        message_id,
        _,
        hm,
        refl,
        (
          source.ton ∷ source.npi ∷ [],
          _,
          refl,
          refl,
          (
            source.addr,
            _,
            ha,
            refl,
            (
              schedule,
              _,
              hs,
              refl,
              (
                validity,
                _,
                hv,
                refl,
                (
                  registered_delivery ∷ 0 ∷ [],
                  _,
                  refl,
                  refl,
                  (short_message, [], cc (append-nil short_message), refl),
                ),
              ),
            ),
          ),
        ),
      ) in
    mandatory_body_len-append cmd_replace_sm replace_layout _ tail refl tt p

-- MandatoryBodyLen on an encoded broadcast_sm, query_broadcast_sm or cancel_broadcast_sm body with
-- any bytes behind it gives the length of the encoded body, where no text of it holds a NUL.
pub broadcast-boundary :
    (service_type message_id : List ℕ) (source : Address) (schedule validity : List ℕ)
    (priority replace_if_present data_coding default_id : ℕ) (tail : List ℕ)
    → NoNul service_type
    → NoNul message_id
    → NoNul source.addr
    → NoNul schedule
    → NoNul validity
    → let body =
        encode_broadcast_sm service_type source message_id priority schedule validity
          replace_if_present data_coding default_id in
      let query = encode_query_broadcast_sm message_id source in
      let cancel = encode_cancel_broadcast_sm service_type message_id source in
      (mandatory_body_len cmd_broadcast_sm (body ++ tail) ≡ some (length body))
      × (mandatory_body_len cmd_query_broadcast_sm (query ++ tail) ≡ some (length query))
      × (mandatory_body_len cmd_cancel_broadcast_sm (cancel ++ tail) ≡ some (length cancel))
unfolding encode_broadcast_sm encode_query_broadcast_sm encode_cancel_broadcast_sm layout_of
broadcast-boundary service_type message_id source schedule validity priority replace_if_present
      data_coding default_id tail hs hm ha hd hv =
    let p : Parses broadcast_layout
        (encode_broadcast_sm service_type source message_id priority schedule validity
          replace_if_present data_coding default_id)
        [] =
      (
        service_type,
        _,
        hs,
        refl,
        (
          source.ton ∷ source.npi ∷ [],
          _,
          refl,
          refl,
          (
            source.addr,
            _,
            ha,
            refl,
            (
              message_id,
              _,
              hm,
              refl,
              (
                priority ∷ [],
                _,
                refl,
                refl,
                (
                  schedule,
                  _,
                  hd,
                  refl,
                  (
                    validity,
                    _,
                    hv,
                    refl,
                    (replace_if_present ∷ data_coding ∷ default_id ∷ [], [], refl, refl, refl),
                  ),
                ),
              ),
            ),
          ),
        ),
      ) in
    let q : Parses query_layout (encode_query_broadcast_sm message_id source) [] = (
      message_id,
      _,
      hm,
      refl,
      (source.ton ∷ source.npi ∷ [], _, refl, refl, (source.addr, [], ha, refl, refl)),
    ) in
    let r : Parses cancel_broadcast_layout
        (encode_cancel_broadcast_sm service_type message_id source) [] =
      (
        service_type,
        _,
        hs,
        refl,
        (
          message_id,
          _,
          hm,
          refl,
          (source.ton ∷ source.npi ∷ [], _, refl, refl, (source.addr, [], ha, refl, refl)),
        ),
      ) in
    (
      mandatory_body_len-append cmd_broadcast_sm broadcast_layout _ tail refl tt p,
      mandatory_body_len-append cmd_query_broadcast_sm query_layout _ tail refl tt q,
      mandatory_body_len-append cmd_cancel_broadcast_sm cancel_broadcast_layout _ tail refl tt r,
    )
