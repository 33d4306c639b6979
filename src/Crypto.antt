-- ===== src/Crypto.antt =====
-- The package `crypto`, one module for each part.
pub mod Entity
pub mod Samples
pub mod Key
pub mod KeyClear
pub mod KeyLife
pub mod KeyRing
pub mod SessionKey
pub mod Packets
pub mod SessionPackets
pub mod Message
pub mod Signature
pub mod VerifyReader
pub mod EncryptionHandle
pub mod DecryptionHandle
pub mod Config
pub mod Reading
pub mod DetachedReader
pub mod DecryptionCore
pub mod Writers
pub mod SignHandle
pub mod EncryptionCore
pub mod VerifyHandle
pub mod KeyGeneration
