-- ===== src/Vault/Built.antt =====
-- The engine that a vault builds knows the vault's entries.
use in_visibool.Prelude.{
  Option-cases, Str, codes, ◌>>=◌, >>=-eq-ret, ret_inj, Run, ret, ◌≡◌, refl, sym, ap, ◌∙◌, inl, inr,
  List, [], ◌∷◌, map,
}
use in_visibool.Tokenizer.Crypto.{Crypto}
use in_visibool.Tokenizer.Fpe.{RegisteredValue, fpe}
use in_visibool.Detection.{Automata}
use in_visibool.Engine.{new_engine, Engine, BuildResult, built, exact_matcher_failed}
use in_visibool.Engine.Linked.{IsLinked, value_of, new_engine-IsLinked}
use in_visibool.Storage.{Result-cases, ok_inj, err-ne-ok, Result, ok, err, other_error}
use in_visibool.Vault.{
  fpe_entry, session_entry, vault_io_failed, unknown_alphabet, resolve_alphabet, registered_kind,
  entry_to_registered, collect_registered, registered_values, derive_mac_key, build_engine,
  VaultEntryKind, VaultEntry, VaultError, Vault,
}

registered_kind-value :
    (entry : VaultEntry) (kind : VaultEntryKind) {r : RegisteredValue}
    → registered_kind entry kind ≡ ok r
    → value_of r ≡ entry.value
unfolding registered_kind
registered_kind-value entry (session_entry kind) h = ap value_of (sym (ok_inj h))
registered_kind-value entry (fpe_entry tweak prefix alphabet) {r} h =
    elim (Option-cases (resolve_alphabet alphabet)) [
      | inl e ↦
          let refused : registered_kind entry (fpe_entry tweak prefix alphabet)
              ≡ err (unknown_alphabet alphabet) =
            rw (e, registered_kind) refl in
          absurd (err-ne-ok (sym refused ∙ h))
      | inr (a, e) ↦
          let made : registered_kind entry (fpe_entry tweak prefix alphabet)
              ≡ ok (
                  fpe (record {
                    label = entry.label;
                    value = entry.value;
                    tweak = tweak;
                    alphabet = a;
                    prefix = prefix;
                  })) =
            rw (e, registered_kind) refl in
          ap value_of (sym (ok_inj (sym made ∙ h)))
    ]

collect_registered-values :
    (es : List VaultEntry) {rs : List RegisteredValue}
    → collect_registered es ≡ ok rs
    → map value_of rs ≡ map (λ (e : VaultEntry). e.value) es
unfolding collect_registered entry_to_registered
collect_registered-values [] h = ap (map value_of) (sym (ok_inj h))
collect_registered-values (e ∷ es) {rs} h = elim (Result-cases (registered_kind e e.entry_kind)) [
  | inl (problem, p) ↦
      let refused : collect_registered (e ∷ es) ≡ err problem = rw (p, collect_registered) refl in
      absurd (err-ne-ok (sym refused ∙ h))
  | inr (r, p) ↦ elim (Result-cases (collect_registered es)) [
    | inl (problem, q) ↦
        let refused : collect_registered (e ∷ es) ≡ err problem =
          rw (p, q, collect_registered) refl in
        absurd (err-ne-ok (sym refused ∙ h))
    | inr (others, q) ↦
        let made : collect_registered (e ∷ es) ≡ ok (r ∷ others) =
          rw (p, q, collect_registered) refl in
        let here = registered_kind-value e e.entry_kind p in
        let later = collect_registered-values es q in
        ap (map value_of) (sym (ok_inj (sym made ∙ h))) ∙ cong_cons here later
  ]
]
  where
    cong_cons : {x y : Str} {xs ys : List Str} → x ≡ y → xs ≡ ys → (x ∷ xs) ≡ (y ∷ ys)
    cong_cons p q = cc

-- An engine that `build_engine` returns matches exactly the values of the vault's entries, in their
-- order, and leads from each of them to a registration with that value.
pub build_engine-IsLinked :
    (ac : Automata) (c : Crypto) (v : Vault) {e : Engine}
    → build_engine ac c v ≡ ret (ok e)
    → (e.values ≡ map (λ (x : VaultEntry). x.value) v.contents.vault_entries) × IsLinked e
unfolding build_engine registered_values
build_engine-IsLinked ac c v {e} h = elim (Result-cases (registered_values v)) [
  | inl (problem, p) ↦
      let refused : build_engine ac c v ≡ ret (err problem) = rw (p, build_engine) refl in
      absurd (err-ne-ok (ret_inj (sym refused ∙ h)))
  | inr (rs, p) ↦
      let run : build_engine ac c v ≡ engine_from rs = rw (p, build_engine) refl in
      let (mac_key, m, h') =
        >>=-eq-ret (derive_mac_key c v.vault_key) (λ k. engine_with rs k) (sym run ∙ h) in
      let (result, n, h'') =
        >>=-eq-ret (new_engine ac c v.vault_key rs [] mac_key) (λ r. ret (to_engine r)) h' in
      let made = to_engine-built result (ret_inj h'') in
      let (values, linked) = new_engine-IsLinked ac c v.vault_key rs [] mac_key (n ∙ ap ret made) in
      (values ∙ collect_registered-values v.contents.vault_entries p, linked)
]
  where
    to_engine : BuildResult → Result VaultError Engine
    to_engine r = elim r [
      | built found ↦ ok found
      | exact_matcher_failed ↦ err (vault_io_failed (other_error (codes "engine build failed")))
    ]

    engine_with : List RegisteredValue → Str → Run (Result VaultError Engine)
    engine_with rs mac_key = new_engine ac c v.vault_key rs [] mac_key >>= λ r. ret (to_engine r)

    engine_from : List RegisteredValue → Run (Result VaultError Engine)
    engine_from rs = derive_mac_key c v.vault_key >>= λ k. engine_with rs k

    to_engine-built : (r : BuildResult) → to_engine r ≡ ok e → r ≡ built e
    to_engine-built (built found) q = ap built (ok_inj q)
    to_engine-built exact_matcher_failed q = absurd (err-ne-ok q)
