-- ===== src/Xdr.antt =====
-- src/xdr/xdr.hpp and src/xdr/xdr.cpp: the XDR encoder and decoder.
pub mod Encoder
pub mod Decoder
pub mod Wire
pub mod Emits
pub mod Reads
pub mod Safe
pub mod Carries
pub mod RoundTrip
pub mod Sizes
