-- ===== src/Smpp/Commands.antt =====
-- Command ids, status codes and names of smpp/pdu.go and smpp/constants.go that the codec uses.
use go_smsc.Prelude.{ℕ}

abbrev pub cmd_bind_receiver : ℕ
cmd_bind_receiver = 0x00000001

abbrev pub cmd_bind_receiver_resp : ℕ
cmd_bind_receiver_resp = 0x80000001

abbrev pub cmd_bind_transmitter : ℕ
cmd_bind_transmitter = 0x00000002

abbrev pub cmd_bind_transmitter_resp : ℕ
cmd_bind_transmitter_resp = 0x80000002

abbrev pub cmd_query_sm : ℕ
cmd_query_sm = 0x00000003

abbrev pub cmd_query_sm_resp : ℕ
cmd_query_sm_resp = 0x80000003

abbrev pub cmd_submit_sm : ℕ
cmd_submit_sm = 0x00000004

abbrev pub cmd_submit_sm_resp : ℕ
cmd_submit_sm_resp = 0x80000004

abbrev pub cmd_deliver_sm : ℕ
cmd_deliver_sm = 0x00000005

abbrev pub cmd_deliver_sm_resp : ℕ
cmd_deliver_sm_resp = 0x80000005

abbrev pub cmd_unbind : ℕ
cmd_unbind = 0x00000006

abbrev pub cmd_unbind_resp : ℕ
cmd_unbind_resp = 0x80000006

abbrev pub cmd_replace_sm : ℕ
cmd_replace_sm = 0x00000007

abbrev pub cmd_replace_sm_resp : ℕ
cmd_replace_sm_resp = 0x80000007

abbrev pub cmd_cancel_sm : ℕ
cmd_cancel_sm = 0x00000008

abbrev pub cmd_cancel_sm_resp : ℕ
cmd_cancel_sm_resp = 0x80000008

abbrev pub cmd_bind_transceiver : ℕ
cmd_bind_transceiver = 0x00000009

abbrev pub cmd_bind_transceiver_resp : ℕ
cmd_bind_transceiver_resp = 0x80000009

abbrev pub cmd_enquire_link : ℕ
cmd_enquire_link = 0x00000015

abbrev pub cmd_enquire_link_resp : ℕ
cmd_enquire_link_resp = 0x80000015

abbrev pub cmd_submit_multi : ℕ
cmd_submit_multi = 0x00000021

abbrev pub cmd_submit_multi_resp : ℕ
cmd_submit_multi_resp = 0x80000021

abbrev pub cmd_alert_notification : ℕ
cmd_alert_notification = 0x00000102

abbrev pub cmd_data_sm : ℕ
cmd_data_sm = 0x00000103

abbrev pub cmd_data_sm_resp : ℕ
cmd_data_sm_resp = 0x80000103

abbrev pub cmd_broadcast_sm : ℕ
cmd_broadcast_sm = 0x00000111

abbrev pub cmd_broadcast_sm_resp : ℕ
cmd_broadcast_sm_resp = 0x80000111

abbrev pub cmd_query_broadcast_sm : ℕ
cmd_query_broadcast_sm = 0x00000112

abbrev pub cmd_query_broadcast_sm_resp : ℕ
cmd_query_broadcast_sm_resp = 0x80000112

abbrev pub cmd_cancel_broadcast_sm : ℕ
cmd_cancel_broadcast_sm = 0x00000113

abbrev pub cmd_cancel_broadcast_sm_resp : ℕ
cmd_cancel_broadcast_sm_resp = 0x80000113

abbrev pub cmd_generic_nack : ℕ
cmd_generic_nack = 0x80000000
