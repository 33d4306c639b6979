-- ===== src/Lib.antt =====
-- gopenpgp: a model of the library's own logic on top of go-crypto, and what it guarantees.
--
-- The parts and how they interact. A program builds a handle (crypto/encryption_handle_builder.go and its
-- kin) and gives it data. To encrypt, the handle checks itself, chooses a stream and writes a message of
-- key packets, data and detached signatures. To decrypt, it tries its session keys, its key ring and its
-- passwords; the data are then read through a reader that sanitizes text, and the signatures that
-- go-crypto has looked at become a result that names one of them. Keys, key rings and session keys are the
-- material of all of this. The cryptography, the packet formats and the armor are go-crypto's.
--
-- Which file models which part:
--   Base, Base/Tests, Base/Lists, Base/Errors, Base/Int: names that all parts share. `Result` is Go's pair of
--     a value and an error, with `panic` for a run that panics; numbers are natural, times are `ℤ`.
--   Crypto/Entity, Crypto/Packets: the fields of go-crypto's entities and packets that are read.
--   Crypto/Key: crypto/key.go, the state of a key (IsPrivate, IsLocked, IsUnlocked). Key/State compares them.
--   Crypto/KeyLife: crypto/key.go, readFrom, Copy, lock and Unlock, over the record `KeyCodec` of go-crypto's
--     functions. KeyLife/Sound and KeyLife/Locking say what locking and unlocking guarantee.
--   Crypto/KeyClear: crypto/key_clear.go, on the words in memory. KeyClear/Zeroed.
--   Crypto/KeyRing: crypto/keyring.go, over `KeyQueries`. KeyRing/Unlocked and KeyRing/Expiry.
--   Crypto/SessionKey: crypto/sessionkey.go. SessionKey/Algorithms on the tables of algorithms.
--   Crypto/SessionPackets: crypto/encryption_session.go, over `SessionCodec`. SessionPackets/Opened (which
--     private keys are used), SessionPackets/Password, SessionPackets/Recipients.
--   Crypto/Message: crypto/message.go, over `MessageCodec`. Message/Split and Message/KeyIds.
--   Crypto/Signature: crypto/signature.go. Signature/Selected, Signature/Context and Signature/Verdict.
--   Crypto/EncryptionHandle: crypto/encryption_handle.go and its builder, EncryptionHandle/Routes, /Builder.
--   Crypto/DecryptionHandle: crypto/decryption_handle.go and its builder, DecryptionHandle/Attempts.
--   Crypto/EncryptionCore: crypto/encryption_core.go, over `EncryptCodec`; EncryptionCore/Stream has the streams
--     with a detached signature, and EncryptionCore/Detached is about them.
--   Crypto/DecryptionCore: crypto/decryption_core.go, over `DecryptCodec`: the loops over passwords, session
--     keys and packets. DecryptionCore/Streams has decryptStream, decryptStreamWithSession and
--     decryptStreamAndVerifyDetached; /Prompts, /Passwords, /SessionKeys and /Packets are about them.
--   Crypto/Writers: the writers that the handles compose (crypto/encryption_core.go, crypto/encryption_handle.go,
--     noOpWriteCloser of internal/common.go), on one shared state. Writers/Detached.
--   Crypto/SignHandle: crypto/sign_handle.go and its builder, over `SignCodec`. SignHandle/Signers, /Builder.
--   Crypto/VerifyHandle: crypto/verify_handle.go and unarmorInput of crypto/encoding.go, over `VerifyCodec`;
--     VerifyHandle/Builder has the builder, VerifyHandle/Cleartext has VerifyCleartext. VerifyHandle/Inline is
--     about VerifyInline.
--   Crypto/KeyGeneration: crypto/key_generation_handle.go and its builder, over `KeyGenCodec`.
--     KeyGeneration/Identities, /Lifetime.
--   Crypto/Config, Crypto/Reading, Crypto/DetachedReader: what these share, the fields of go-crypto's configuration
--     and message details, and verifyingDetachedReader.
--   Profile: profile/profile.go and profile/preset.go.
--   Crypto/VerifyReader: crypto/verify_reader.go, the reader that verifies at the end. VerifyReader/Guard, /Whole.
--   Internal/Reader: Go's io.Reader and io.WriteCloser as interfaces with laws.
--   Internal/Text: internal/common.go, Text/Lines (line ends), Text/Trim.
--   Internal/ResetReader: internal/common.go, ResetReader, with ResetReader/Again.
--   Internal/Sanitize: internal/sanitize_string.go, Sanitize/Lines and Sanitize/Faults.
--   Internal/SanitizeUtf8: internal/sanitize_string.go, the reader that sanitizes UTF-8 around the other one.
--     SanitizeUtf8/Runes and SanitizeUtf8/Rounds.
--   Internal/Utf8: internal/utf8.go, Utf8/Decode (one rune), /Whole (`valid`), /Stream (`check`), /Writer.
--   Mobile: mobile/mobile_stream.go, Mobile/Readers and Mobile/Hashing.
--   The modules named Tests run the code on the small values of Crypto/Samples.
--
-- How state is modelled. A method that changes its receiver returns the changed one beside its answer. A
-- reader is a function from a state and a length to bytes, an error and a state; a writer likewise. A nil
-- pointer or slice is `none` where the code tells it from an empty one. Two pointers to one key ring are
-- two equal values: that adding a key to a builder changes the caller's ring is not modelled. A Go map is
-- the list of its entries; where the code loops over one, the order is an argument.
--
-- Fuel and bounds. The loop of `valid` gets the number of bytes as fuel and goes on by at least one byte,
-- so it looks at all of them; the loop that hashes gets the number of written bytes, which is enough for a
-- hash that takes what it is given. The loop that skips key packets gets a number of rounds, which is
-- enough where every packet makes a measure of the input smaller; the UTF-8 sanitizing reader gets more
-- rounds than its source has bytes, which is enough; io.ReadAll gets the lengths of its buffers. All other
-- loops are structural. Lifetimes and times that become 32-bit
-- numbers are reduced modulo 2^32. No other arithmetic of the modelled code comes near the width of an int; differences are
-- written where the code has checked the order.
--
-- Parameters and hypotheses. go-crypto's functions are fields of the records named above, and the theorems
-- that depend on their behaviour name it: `IsFaithfulAt` (a key is read back as it was serialized),
-- `IsUndoneAt` (a password opens the packet that it made), `IsFresh` (the parser leaves a session key
-- nil), `IsParser` (whether a password opens a message depends on the bytes of the message),
-- `DecryptsNothing` (reading a decrypted packet sets no cipher), `AddsIds` (an entity has the user ids
-- that it was given), `IsReader` and `IsSink` (the contracts of io.Reader and of a writer that does not
-- fail), `IsHash`.
--
-- Not modelled: MIME; Sign, which writes to a buffer; armor; the constructors of split
-- writers; and the JSON getters and hexadecimal, which only call libraries.
pub mod Base
pub mod Crypto
pub mod Internal
pub mod Mobile
pub mod Profile
