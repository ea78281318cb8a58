-- ===== src/Lib.antt =====
-- Verification library of go-smsc: the SMPP codec (smpp/) and the message routing state of the
-- gateway (gateway/) as functions on values, with the theorems that make them correct.
--
-- How the parts interact. A northbound client and a southbound SMSC exchange PDUs: a header of 16
-- bytes, the fields of the command, and TLVs. EncodePDU and DecodePDU frame them; ExtractTLVs finds
-- the end of the fields by the layout of the command (MandatoryBodyLen) and decodes what follows.
-- The gateway reads addresses out of submit_sm bodies and rewrites their source, chooses a
-- southbound pool by the route tables and the pool manager's health, and builds deliver_sm bodies
-- for what comes back. Its tables of connections and messages are sharded maps with a common
-- counter.
--
-- Files and the code they model:
--   Prelude and its children       numbers, lists, byte order, texts as byte lists, signed integers,
--                                  and what sort.Slice documents
--   Smpp/Commands                  the command ids of smpp/pdu.go and smpp/constants.go
--   Smpp/CString                   readCString, ReadCString, writeCString, WriteCStringBytes
--                                  (smpp/pdu.go) and skipCString (smpp/pdu_fields.go)
--   Smpp/Fields                    MandatoryBodyLen and the mandatoryLen functions of
--                                  smpp/pdu_fields.go; Fields/Layout describes the layouts as data
--   Smpp/Tlv                       TLVSet, its getters and setters, Encode and DecodeTLVs (smpp/tlv.go)
--   Smpp/Pdu                       EncodePDU, DecodePDU (smpp/pdu.go), ExtractTLVs
--   Smpp/Bodies                    EncodeBind, EncodeSubmitSM and the other body encoders of
--                                  smpp/bind.go, smpp/pdu.go, smpp/operations.go, smpp/broadcast.go
--   Smpp/Parsers                   the body parsers of the same files
--   Smpp/Coding                    the GSM 7-bit alphabet, DetectCoding, EncodeLatin1 and EncodeIA5
--                                  (smpp/coding.go)
--   Smpp/Receipts                  ParseDLRReceipt (smpp/handler.go) and translateDLRMessageID
--                                  (gateway/router.go)
--   Smpp/Segments                  gsm7CharCount, splitTextBySeptets, splitRuneChunks and prependUDH
--                                  (smpp/segment.go)
--   Gateway/Bodies                 ParseSubmitSMAddresses, RewriteSubmitSMSource, BuildDeliverSMBody
--                                  and BuildSubmitSMBody (gateway/connection.go)
--   Gateway/ShardMap               ShardMap (gateway/shardmap.go)
--   Gateway/Pools                  PoolManager (gateway/pool_manager.go) and SMPPSubmitter
--                                  (gateway/smpp_submitter.go)
--   Gateway/Routes                 MTRouteTable and MORouteTable (gateway/route_table.go)
--   Gateway/Admission              the first half of HandleSubmit (gateway/router.go), with
--                                  ConnectionConfig (gateway/conn_config.go)
--   Gateway/Store                  MessageStore (gateway/store.go): submit records and the batch
--                                  writer (Store/Writer), the retry queues (Store/Queues, Store/Drain,
--                                  Store/Order, Store/Fifo), statuses and the message log (Store/Status)
--   Gateway/Router                 the Router of gateway/router.go: deliverWithGrace and drainRetries
--                                  (Router/Delivery), forwardSubmitRaw, enqueueSubmitRetryOrFail,
--                                  sendSyntheticDLR and drainSubmitRetries (Router/Forwarding),
--                                  HandleDeliver, handleDLR and handleMO (Router/Inbound), the second
--                                  half of HandleSubmit and HandleHTTPSubmit of gateway/rest_api.go
--                                  (Router/Submit), and gateway/callback.go (Router/Callbacks)
--   Gateway/Sessions               handleBind and ReadLoop (gateway/connection.go), Authenticate
--                                  (gateway/conn_config.go)
--   Gateway/Server                 onBind, handleConnection and the table of connections
--                                  (gateway/server.go)
--   Gateway/Decimal                Go's %d
--
-- How state and operations correspond to the code. A byte string is a list of numbers; a function
-- that may panic returns `stuck` or `none` there, and an error is a value. A Go map is an
-- association list, or a function where no one iterates it. A mutex makes a call one step; where
-- ShardMap works outside its lock, the call is two steps, and Gateway/ShardMap/Interleaving lets
-- steps of other calls come between. The store's calls and the steps of its writer are interleaved
-- as a list of actions. The router asks a world for the answers of the engines, the SMSCs and the
-- clock; the world knows how many questions came before, so the answers can change at any time, and
-- what reaches the network is a list of events. A handler of the router runs in one step. The
-- server's table maps names to handles into a heap of connections, as the source's pointers do.
-- Numbers wrap as the code's types do, where a value can leave its type.
--
-- Bounds and fuel. The loop of DecodeTLVs runs on fuel: one more than the length of the input,
-- since every round uses up four bytes at least, and it is proved that the answer never is "out of
-- fuel". That of splitRuneChunks has the number of runes and one, which is enough for every chunk
-- size above 0. ReadLoop's is above the number of bytes, and a PDU has 16 at
-- least. All other loops are
-- recursions on lists. A PDU is below 2 ^ 32 bytes, a TLV value below 2 ^ 16.
--
-- Numbers in decimal have at most 20 digits, which holds every 64-bit number.
--
-- Parameters. Pebble is a record of operations with the laws that it documents: Get finds what was
-- last set and not deleted, and an iterator yields the entries of its range that Get finds, in
-- the order of their keys. Its errors are left
-- out, as the router ignores them. The layout of times in the keys of the message log is a
-- parameter. bcrypt, the FNV hash, sort.Slice, the order of float64 costs and the connecting of a
-- pool are arguments. Of sort.Slice it is assumed that it permutes, and sorts by a strict weak
-- ordering.
--
-- Close of the store is one step, which no StoreSubmit overlaps.
--
-- Not modelled: sockets, timers, HTTP, metrics, the cleanup and the search of the message log, the
-- client's window, the packing of GSM 7-bit text, UCS-2 and SplitMessage.
pub mod Prelude
pub mod Smpp
pub mod Gateway
