-- ===== src/Examples/Engines.antt =====
-- The theorems on the engine, at a concrete engine and text.
use in_visibool.Prelude.{
  length, All, Str, codes, slice, find_str, ◌>>=◌, ret, ◌≤◌, ◌≡◌, refl, List, [], ◌∷◌, arith,
}
use in_visibool.Tokenizer.Fpe.{new_tokenizer, fpe}
use in_visibool.Detection.Choice.{AreSeparate, IsDisplaced, resolve_lem}
use in_visibool.Detection.{scan_exact, resolve, exact, pattern_rule, Match}
use in_visibool.Engine.{
  register_one, register_all, new_engine, scrub_impl, fpe_at, Engine, SessionStore, no_store,
  EngineScrubResult, built,
}
use in_visibool.Engine.Linked.{IsLinked, new_engine-IsLinked}
use in_visibool.Engine.ScrubSpec.{AreHits, expected, counted, scrub_impl_lem}
use in_visibool.Engine.Totality.{scrub_impl_total, IsSound}
use in_visibool.Engine.Restore.RoundTrip.{restore-scrub}
use in_visibool.Engine.Restore.{restore, EngineRestoreResult}
use in_visibool.Engine.Restore.Candidates.{restore_total}
use in_visibool.Examples.{
  toy_crypto, toy_hashes, toy_ff1, toy_floats, toy_tail, toy_tokenizer, toy_reg, toy_scrub,
  toy-IsRegistered, toy_unique, toy_automata,
}

abbrev toy_engine : Engine
toy_engine = record {
  fpe_tokenizer = toy_tokenizer;
  fpe_registered = toy_reg ∷ [];
  session_registered = [];
  retired = [];
  values = codes "k-0123456" ∷ [];
  session_mac_key = codes "key";
  value_id_to_ref = fpe_at 0 ∷ [];
}

toy_built :
    new_engine toy_automata toy_crypto (codes "vault key") (fpe toy_reg ∷ []) [] (codes "key")
    ≡ ret (built toy_engine)
unfolding new_engine register_all register_one new_tokenizer
toy_built = refl

toy-IsLinked : IsLinked toy_engine
toy-IsLinked =
    (new_engine-IsLinked toy_automata toy_crypto (codes "vault key") (fpe toy_reg ∷ []) []
      (codes "key") toy_built).1

abbrev toy_input : Str
toy_input = codes "id k-0123456."

toy_hits :
    AreHits toy_engine.values toy_input 0 (scan_exact toy_automata toy_engine.values toy_input)
unfolding scan_exact find_str slice
toy_hits =
    (0, codes "k-0123456", refl, refl, refl, omega arith, omega arith, omega arith, omega arith)

toy-IsSound : IsSound toy_floats toy_engine
toy-IsSound = record { key = refl; fpes = (toy-IsRegistered, tt); sessions = tt; tail = toy_tail }

scrub_impl_lem_example :
    scrub_impl toy_automata toy_floats toy_crypto toy_engine toy_input no_store ≡ (
      expected toy_floats toy_crypto toy_engine toy_input 0 no_store
        (scan_exact toy_automata toy_engine.values toy_input)
      >>= λ r. ret (counted (length (scan_exact toy_automata toy_engine.values toy_input)) r))
scrub_impl_lem_example =
    scrub_impl_lem toy_floats toy_crypto toy_engine toy-IsLinked toy_input toy_automata no_store
      toy_hits

scrub_impl_total_example :
    (r : EngineScrubResult × SessionStore) × (scrub_impl toy_automata toy_floats toy_crypto
        toy_engine toy_input no_store
      ≡ ret r)
    × (r.0.scrubbed_count ≡ length (scan_exact toy_automata toy_engine.values toy_input))
scrub_impl_total_example =
    scrub_impl_total toy_floats toy_crypto toy_hashes toy_ff1 toy_engine toy-IsSound toy_automata
      toy_input no_store toy-IsLinked refl toy_hits

restore_total_example :
    (r : EngineRestoreResult) × (restore toy_crypto toy_engine (codes "id k-6543210.") ≡ ret r)
restore_total_example =
    restore_total toy_crypto toy_hashes toy_ff1 toy_engine refl (toy-IsRegistered, tt)
      (codes "id k-6543210.") refl

abbrev toy_candidates : List Match
toy_candidates =
    record { start = 0; finish = 5; kind = exact 0 }
    ∷ record { start = 3; finish = 9; kind = pattern_rule 2 }
    ∷ record { start = 9; finish = 12; kind = exact 1 }
    ∷ []

resolve_lem_example :
    AreSeparate (resolve toy_candidates)
    × All (IsDisplaced (resolve toy_candidates)) toy_candidates
    × All (λ (m : Match). m.finish ≤ 12) (resolve toy_candidates)
resolve_lem_example =
    resolve_lem toy_candidates (λ (m : Match). m.finish ≤ 12)
      (omega arith, (omega arith, (omega arith, tt)))
      (omega arith, (omega arith, (omega arith, tt)))

restore-scrub_example :
    restore toy_crypto toy_engine (codes "k-6543210")
    ≡ ret (record { output = codes "k-0123456"; restored_count = 1 })
restore-scrub_example =
    restore-scrub toy_crypto toy_hashes toy_ff1 toy_engine refl (toy-IsRegistered, tt) 0 refl
      toy_scrub refl toy_unique (omega arith, tt)
