-- ===== src/Encode.antt =====
-- art_common.hpp (`key_encoder`, `key_decoder`), portability_builtins.hpp (`bswap`), and the key
-- comparison and `key_buffer` of art_internal.hpp.
pub mod Bytes
pub mod Buffer
pub mod Integral
pub mod Encoder
pub mod Decoder
