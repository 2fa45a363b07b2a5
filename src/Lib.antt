-- ===== src/Lib.antt =====
-- Verification of inVisibool: the engine that replaces registered secrets in a text by fakes and brings
-- them back, the files and keys that it keeps, and the control channel, clipboard and commands around it.
--
-- An `Engine` holds registrations. On scrub the exact matcher (Detection) finds the registered values in
-- the text, the idempotence check (Idempotence) leaves alone what is a fake already, and a tokenizer
-- makes the replacement: FF1 for FF1 registrations, and for the session-mapped ones a fake in a
-- reserved range or one with a MAC tail, which a session map may remember. On restore, the fakes of a
-- session map are put back, and spans with the profile of a registration are decrypted on trial. The
-- registrations are the entries of an encrypted vault file, whose key is in a keychain, and the pairs of
-- a session map outlive a command in an encrypted session file. The commands read and write both.
--
-- Prelude: bytes, lists, maps and the type `Run` of a call that may panic. A Rust string or byte slice
--   is a list of bytes; a slice at an index inside a character is a panic, and so is `expect` on `None`.
-- Tokenizer.Alphabet: crates/invisibool-engine/src/tokenizer/alphabet.rs.
-- Tokenizer.Crypto: the cryptographic crates, as a record of functions (`Crypto`) and what the code
--   relies on of them (`HashLaws`, `Ff1Laws`).
-- Tokenizer.Fpe: crates/invisibool-engine/src/tokenizer/fpe.rs.
-- Tokenizer.Mac: crates/invisibool-engine/src/tokenizer/mac.rs.
-- Tokenizer.Reserved: crates/invisibool-engine/src/tokenizer/reserved.rs.
-- Tokenizer.Session: crates/invisibool-engine/src/tokenizer/session.rs. A `HashMap` is an association
--   list, an `Instant` a number of time units, and the two maps are the two fields of `SessionMap`.
--   `SessionMap::restore` is `restore_real` and `SessionMap::import` is `import_pairs`.
-- Idempotence: crates/invisibool-engine/src/idempotence.rs.
-- Detection: crates/invisibool-engine/src/detection. The automaton of `aho-corasick` and the engine of
--   `regex` are parameters (`Automata`, `Regexes`).
-- Engine: crates/invisibool-engine/src/engine.rs, with `Engine::restore` in Engine.Restore and
--   `Engine::restore_with_session` in Engine.Restore.Session. State that the code changes is passed on:
--   the loop of `scrub_impl` carries a `ScrubState`.
-- Storage: `chacha20poly1305` and `serde_json` as parameters, the errors of the system, and the layout
--   that both files share.
-- Keychain: crates/invisibool-engine/src/keychain. `Backend` is the trait `KeychainBackend` with its state
--   passed on, `in_memory` and `os_keychain` are its two implementations, and the `keyring` crate is a
--   parameter (`Keyring`).
-- Disk: crates/invisibool-engine/src/vault/io.rs. A directory maps names to files, and what each call
--   answers is an argument (`WriteAnswers`), so that every failure is covered.
-- SessionFile: crates/invisibool-engine/src/session_file.rs, with save and wipe in SessionFile.Disk.
-- Vault: crates/invisibool-engine/src/vault/mod.rs, vault/format.rs and vault/path.rs. Vault.Saved has
--   `Vault::open` and `Vault::save` with the directory and the keychain, Vault.Listed the listing and the
--   paths.
-- Control: crates/invisibool-control/src. Control has wire.rs and error.rs, Control.Framing the frames,
--   `serve_one` and `dial_once` on a connection whose input, room and errors are given, Control.Paths
--   path.rs, Control.Transport the calls of transport.rs, peer.rs and lifecycle.rs with what the system
--   answers, and Control.Startup the single-instance lock as steps of daemons on one kernel.
-- Clipboard: crates/invisibool-clipboard/src, without x11. A callback is a number, and the events that it
--   gets are recorded.
-- Cli: crates/invisibool/src/cli/commands.rs. A command changes a `World` of two directories, the
--   keychain and the two outputs; `System` is what the system answers.
-- Examples: stand-ins for the parameters, and the theorems at concrete values.
--
-- Machine integers: `checked_pow` and the shifts of the MAC encoding are on 64 bits; `u32` and `u16`
-- conversions panic where they do not fit, and the length of a frame is 32 bits. Lengths and counts stay
-- below the size of memory and do not wrap. Subtraction on numbers stops at 0, as
-- `saturating_duration_since` and `saturating_sub` do; where the code subtracts lengths it has compared
-- them first. The search loop of `Engine::restore` runs on fuel, one more than the length of the text,
-- and each round moves the search on, so that the fuel is enough.
--
-- Not modelled: the zeroizing of memory, the X11 clipboard (crates/invisibool-clipboard/src/x11), the
-- parsing of arguments and of the secret's input (crates/invisibool/src/cli/args.rs and
-- secret_input.rs), the wording of messages, the paths on Windows, and the unsafe system calls
-- themselves. Test, benchmark and demo code is left out.
pub mod Prelude
pub mod Tokenizer
pub mod Idempotence
pub mod Detection
pub mod Engine
pub mod Storage
pub mod Keychain
pub mod Disk
pub mod Control
pub mod SessionFile
pub mod Vault
pub mod Clipboard
pub mod Cli
pub mod Examples
