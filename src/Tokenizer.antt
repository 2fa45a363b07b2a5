-- ===== src/Tokenizer.antt =====
-- crates/invisibool-engine/src/tokenizer: how fakes are made, recognised and undone.
pub mod Alphabet
pub mod Crypto
pub mod Fpe
pub mod Mac
pub mod Reserved
pub mod Session
