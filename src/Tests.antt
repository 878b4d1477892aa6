-- ===== src/Tests.antt =====
-- Runs of the models, and the theorems at concrete inputs.
mod Builds
mod Sets
mod Files
mod Generic
mod Rounds
mod Sha1
mod Helper
mod Hash
mod Bindings
mod Streams
mod System
mod Wrapper
mod Sha256
mod Sha512
mod Stream256
