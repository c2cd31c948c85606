-- ===== src/Encoding.antt =====
-- Encodings of numbers and bytes: hexadecimal text (`common/encoding/src/encoding/hex.c`),
-- integers in bytes (`common/encoding/src/encoding/int.c`) and the byte helpers of
-- `platform/osal/src/common.c`.
pub mod Hex
pub mod Integer
