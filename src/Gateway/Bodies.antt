-- ===== src/Gateway/Bodies.antt =====
-- The submit_sm and deliver_sm bodies of gateway/connection.go: what the gateway reads of a body,
-- how it replaces the source address, and what it builds itself.
pub mod Rewrite
pub mod Built
use go_smsc.Prelude.{
  ℕ, ◌+◌, ◌%◌, Bool, List, [], ◌∷◌, ◌++◌, Option, none, some, ltb, leb, ◌==◌, if◌then◌else◌, ◌>>=◌,
  length, take, drop,
}
use go_smsc.Prelude.Bytes.{put_u16}
use go_smsc.Smpp.CString.{read_c_string}
use go_smsc.Smpp.Parsers.{skip_bytes}

-- `appendCString(buf, s)`, and what is appended after it.
abbrev pub append_c_string : List ℕ → List ℕ → List ℕ
append_c_string s rest = s ++ 0 ∷ rest

-- The results of ParseSubmitSMAddresses: an early return gives what was read so far.
dest_of : List ℕ → ℕ → List ℕ
dest_of body offset = elim (skip_bytes 2 body offset) [
  | none ↦ []
  | some ton_npi ↦ (read_c_string body ton_npi).0
]

pub parse_submit_sm_addresses : List ℕ → List ℕ × List ℕ
unfolding dest_of
parse_submit_sm_addresses body =
    if length body == 0 then ([], []) else elim (skip_bytes 2 body (read_c_string body 0).1) [
      | none ↦ ([], [])
      | some ton_npi ↦
          let (source_addr, offset) = read_c_string body ton_npi in
          (source_addr, dest_of body offset)
    ]

-- RewriteSubmitSMSource: a body that is too short comes back unchanged.
pub rewrite_submit_sm_source : List ℕ → List ℕ → ℕ → ℕ → List ℕ
rewrite_submit_sm_source body new_addr new_ton new_npi =
    let service_type_end = (read_c_string body 0).1 in
    let source_addr_end = (read_c_string body (service_type_end + 2)).1 in
    if length body == 0
    then body
    else if leb (length body) service_type_end
    then body
    else if ltb (length body) (service_type_end + 2)
    then body
    else if ltb (length body) source_addr_end
    then body
    else take service_type_end body
      ++ new_ton ∷ new_npi ∷ append_c_string new_addr (drop source_addr_end body)

put_message : List ℕ → List ℕ
put_message message =
    if ltb 254 (length message)
    then 0 ∷ 0x04 ∷ 0x24 ∷ (put_u16 (length message) ++ message)
    else (length message % 256) ∷ message

pub build_deliver_sm_body : List ℕ → List ℕ → ℕ → List ℕ → List ℕ
unfolding put_message
build_deliver_sm_body source_addr dest_addr esm_class short_message = append_c_string [] (
    0
    ∷ 0
    ∷ append_c_string source_addr (
        1
        ∷ 1
        ∷ append_c_string dest_addr (
            esm_class
            ∷ 0
            ∷ 0
            ∷ append_c_string [] (append_c_string [] (0 ∷ 0 ∷ 0 ∷ 0 ∷ put_message short_message)))))

pub build_submit_sm_body : List ℕ → List ℕ → List ℕ → List ℕ
unfolding put_message
build_submit_sm_body source_addr dest_addr message = append_c_string [] (
    0
    ∷ 0
    ∷ append_c_string source_addr (
        1
        ∷ 1
        ∷ append_c_string dest_addr (
            0
            ∷ 0
            ∷ 0
            ∷ append_c_string [] (append_c_string [] (1 ∷ 0 ∷ 0 ∷ 0 ∷ put_message message)))))
