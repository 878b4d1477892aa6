-- ===== src/Sha.antt =====
-- The digests: words and memory (Words), the abstract view of a hash that takes a message in
-- pieces (Absorb), generic/sha1.c (Sha1), generic/sha2.c (Sha256) and their use in
-- generic/lsha.c.
pub mod Words
pub mod ByteOrder
pub mod Absorb
pub mod Window
pub mod Sha1
pub mod Sha2
pub mod Sha256
pub mod Sha512
pub mod Lsha
