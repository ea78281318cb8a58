-- ===== src/Smpp.antt =====
-- The package `smpp` of the repository: PDU codec, TLVs, field layouts, codings, segmentation.
pub mod Commands
pub mod CString
pub mod Fields
pub mod Tlv
pub mod Pdu
pub mod Bodies
pub mod Parsers
pub mod Receipts
pub mod Coding
pub mod Segments
pub mod Examples
