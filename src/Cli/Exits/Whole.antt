-- ===== src/Cli/Exits/Whole.antt =====
-- The exit codes of `watch`, `status` and `run`.
use in_visibool.Cli.{CommandError, Line, World, System}
use in_visibool.Prelude.{ℕ, Run}
use in_visibool.Tokenizer.Alphabet.{Floats}
use in_visibool.Tokenizer.Crypto.{Crypto}
use in_visibool.Detection.{Automata}
use in_visibool.Storage.{Result, Aead, Json}
use in_visibool.Keychain.{Backend}
use in_visibool.SessionFile.{SessionContents}
use in_visibool.Vault.{VaultContents}
use in_visibool.Cli.Ends.{Ends}
use in_visibool.Cli.Dispatch.{Subcommand, Surroundings}
use in_visibool.Cli.Exits.{Succeeds, Explains, ExitsAs}

module _ (ac : Automata) (f : Floats) (c : Crypto) (a : Aead) (jv : Json VaultContents)
    (js : Json SessionContents) {S : Type 0} (b : Backend S) (sys : System) where
  module _ {V : Type 0} (around : Surroundings V) (w0 : World S) where
    abbrev As : Subcommand → Run (Result CommandError ℕ × World S) → Type 0
    As = ExitsAs ac f c a jv js b sys around w0

    abbrev Why : Subcommand → Line → ℕ → Type 0
    Why = Explains ac f c a jv js b sys around w0

    abbrev Good : Subcommand → Type 0
    Good = Succeeds ac f c a jv js b sys around w0
