-- ===== src/Der.antt =====
-- The DER encoding (`common/encoding/src/encoding/der.c`): the return codes of `DerRC`, and buffers
-- in memory. A result is `done`, a return code other than `DER_OK`, or `fault`, where the code reads
-- or writes outside of a buffer, shifts by the width of an `int` or more, or follows a null pointer.
-- The calls of `malloc` succeed, and the pointers that a caller hands over are not null, save the
-- output buffer of an encoder, which is null to ask for the size.
pub mod Outcome
pub mod Memory
pub mod Length
pub mod Primitive
pub mod Sequence
pub mod Update
pub mod Context
pub mod Stream
