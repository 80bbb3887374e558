-- ===== src/Crypto.antt =====
-- pkg/crypto, with internal/client/cryptoimpl and the frames of internal/client/usecase/secret.
pub mod Bytes
pub mod Aead
pub mod Lists
pub mod Frame
pub mod Stream
pub mod Binary
pub mod Examples
