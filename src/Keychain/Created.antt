-- ===== src/Keychain/Created.antt =====
-- What `fetch_or_create` of crates/invisibool-engine/src/keychain/mod.rs promises, and that both backends
-- keep the laws that it needs.
use in_visibool.Prelude.{
  ◌==◌, ==_iff, Bool-cases, length, Str, ◌≡◌, refl, sym, ap, ◌∙◌, subst, ◌≢◌, ◌⊎◌, inl, inr, Option,
  none, some,
}
use in_visibool.Storage.{ok_inj, err-ne-ok, Result, ok, err}
use in_visibool.Keychain.{
  key_len, malformed_key, Done, stored, fetch_or_create, in_memory, KeychainSlot, KeychainError,
  Backend, BackendLaws,
}
use in_visibool.Keychain.Os.{
  map_keyring_error, entry_for, fetched, os_fetch, set_result, os_store, delete_result, os_delete,
  os_keychain, KeyringError, no_entry, platform_failure, no_storage_access, bad_encoding,
  other_keyring, too_long, invalid, ambiguous, Keyring, KeyringLaws,
}

module _ {S : Type 0} (b : Backend S) where
  stored-ok :
      (r : Result KeychainError Done) (s s' : S) (new_key key : Str)
      → stored b new_key (r, s) ≡ (ok key, s')
      → (r ≡ ok tt) × (new_key ≡ key) × (s ≡ s')
  unfolding stored
  stored-ok (err e) s s' new_key key h = absurd (err-ne-ok (ap (λ x. x.0) h))
  stored-ok (ok u) s s' new_key key h = (refl, ok_inj (ap (λ x. x.0) h), ap (λ x. x.1) h)

  found_or_stored :
      (laws : BackendLaws b) (s s' : S) (slot : KeychainSlot) (new_key key : Str)
      (r : Result KeychainError (Option Str))
      → length new_key ≡ key_len
      → b.fetch s slot ≡ r
      → fetch_or_create b s slot new_key ≡ (ok key, s')
      → b.fetch s' slot ≡ ok (some key)
  unfolding fetch_or_create
  found_or_stored laws s s' slot new_key key (err e) full f h =
      let out : fetch_or_create b s slot new_key ≡ (err e, s) = rw (f, fetch_or_create) refl in
      absurd (err-ne-ok (ap (λ x. x.0) (sym out ∙ h)))
  found_or_stored laws s s' slot new_key key (ok (some old)) full f h =
      let out : fetch_or_create b s slot new_key ≡ (ok old, s) = rw (f, fetch_or_create) refl in
      let same = sym out ∙ h in
      subst (λ t. b.fetch t slot ≡ ok (some key)) (ap (λ x. x.1) same)
        (f ∙ ap (λ k. ok (some k)) (ok_inj (ap (λ x. x.0) same)))
  found_or_stored laws s s' slot new_key key (ok none) full f h =
      let out : fetch_or_create b s slot new_key ≡ stored b new_key (b.store s slot new_key) =
        rw (f, fetch_or_create) refl in
      let (r, same, t) =
        stored-ok (b.store s slot new_key).0 (b.store s slot new_key).1 s' new_key key
          (sym out ∙ h) in
      subst (λ x. b.fetch x slot ≡ ok (some key)) t
        (laws.fetch-store s slot new_key full r ∙ ap (λ k. ok (some k)) same)

  -- Crash safety: a key that `fetch_or_create` returns is in the slot when it returns, so that the next
  -- call returns the same key, whatever key it would have generated, and changes nothing.
  pub fetch_or_create_stable :
      (laws : BackendLaws b) (s s' : S) (slot : KeychainSlot) (new_key other key : Str)
      → length new_key ≡ key_len
      → fetch_or_create b s slot new_key ≡ (ok key, s')
      → (b.fetch s' slot ≡ ok (some key)) × (fetch_or_create b s' slot other ≡ (ok key, s'))
  unfolding fetch_or_create
  fetch_or_create_stable laws s s' slot new_key other key full h =
      let there = found_or_stored laws s s' slot new_key key (b.fetch s slot) full refl h in
      (there, rw (there, fetch_or_create) refl)

-- The keychain in memory keeps the laws of a backend.
pub in_memory_laws : BackendLaws in_memory
in_memory_laws = record { fetch-store = λ s slot key full h. refl; fetch-delete = λ s slot h. refl }

module _ {S : Type 0} (k : Keyring S) where
  set_result-ok :
      (r : Result KeyringError Done) (s : S)
      → (set_result k (r, s)).0 ≡ ok tt
      → (r ≡ ok tt) × ((set_result k (r, s)).1 ≡ s)
  unfolding set_result
  set_result-ok (ok u) s h = (refl, refl)
  set_result-ok (err e) s h = absurd (err-ne-ok h)

  fetched_full : (key : Str) → length key ≡ key_len → fetched k (ok key) ≡ ok (some key)
  unfolding fetched
  fetched_full key full = rw ((==_iff (length key) key_len).1 full) refl

  os_fetch-store :
      (laws : KeyringLaws k) (s : S) (slot : KeychainSlot) (key : Str)
      (made : Result KeychainError k.Entry)
      → entry_for k slot ≡ made
      → length key ≡ key_len
      → (os_store k s slot key).0 ≡ ok tt
      → os_fetch k (os_store k s slot key).1 slot ≡ ok (some key)
  unfolding os_fetch os_store
  os_fetch-store laws s slot key (err e) f full h =
      let out : os_store k s slot key ≡ (err e, s) = rw (f, os_store) refl in
      absurd (err-ne-ok (sym (ap (λ x. x.0) out) ∙ h))
  os_fetch-store laws s slot key (ok entry) f full h =
      let out : os_store k s slot key ≡ set_result k (k.set_secret s entry key) =
        rw (f, os_store) refl in
      let (r, same) =
        set_result-ok (k.set_secret s entry key).0 (k.set_secret s entry key).1
          (sym (ap (λ x. x.0) out) ∙ h) in
      let back = laws.get-set s entry key r in
      subst (λ t. os_fetch k t slot ≡ ok (some key)) (sym (ap (λ x. x.1) out ∙ same))
        (rw (f, os_fetch) (ap (fetched k) back ∙ fetched_full key full))

  delete_result-ok :
      (r : Result KeyringError Done) (s : S)
      → (delete_result k (r, s)).0 ≡ ok tt
      → ((r ≡ ok tt) ⊎ (r ≡ err no_entry)) × ((delete_result k (r, s)).1 ≡ s)
  unfolding delete_result map_keyring_error
  delete_result-ok (ok u) s h = (inl refl, refl)
  delete_result-ok (err no_entry) s h = (inr refl, refl)
  delete_result-ok (err (platform_failure t)) s h = absurd (err-ne-ok h)
  delete_result-ok (err (no_storage_access t)) s h = absurd (err-ne-ok h)
  delete_result-ok (err (bad_encoding t)) s h = absurd (err-ne-ok h)
  delete_result-ok (err (other_keyring t)) s h = absurd (err-ne-ok h)
  delete_result-ok (err (too_long a n)) s h = absurd (err-ne-ok h)
  delete_result-ok (err (invalid a t)) s h = absurd (err-ne-ok h)
  delete_result-ok (err (ambiguous n)) s h = absurd (err-ne-ok h)

  os_fetch-delete :
      (laws : KeyringLaws k) (s : S) (slot : KeychainSlot) (made : Result KeychainError k.Entry)
      → entry_for k slot ≡ made
      → (os_delete k s slot).0 ≡ ok tt
      → os_fetch k (os_delete k s slot).1 slot ≡ ok none
  unfolding os_fetch os_delete fetched map_keyring_error
  os_fetch-delete laws s slot (err e) f h =
      let out : os_delete k s slot ≡ (err e, s) = rw (f, os_delete) refl in
      absurd (err-ne-ok (sym (ap (λ x. x.0) out) ∙ h))
  os_fetch-delete laws s slot (ok entry) f h =
      let out : os_delete k s slot ≡ delete_result k (k.delete_credential s entry) =
        rw (f, os_delete) refl in
      let (r, same) =
        delete_result-ok (k.delete_credential s entry).0 (k.delete_credential s entry).1
          (sym (ap (λ x. x.0) out) ∙ h) in
      let gone : k.get_secret (k.delete_credential s entry).1 entry ≡ err no_entry = elim r [
        | inl p ↦ laws.get-delete s entry p
        | inr p ↦ laws.delete_nothing s entry p
      ] in
      subst (λ t. os_fetch k t slot ≡ ok none) (sym (ap (λ x. x.1) out ∙ same))
        (rw (f, os_fetch) (ap (fetched k) gone))

  -- The keychain of the system keeps the laws of a backend, where the `keyring` crate keeps its own.
  pub os_keychain_laws : (laws : KeyringLaws k) → BackendLaws (os_keychain k)
  os_keychain_laws laws = record {
    fetch-store =
        λ s slot key full h. os_fetch-store laws s slot key (entry_for k slot) refl full h;
    fetch-delete = λ s slot h. os_fetch-delete laws s slot (entry_for k slot) refl h;
  }

  -- An error other than `NoEntry` is never read as an empty slot.
  fetched-none : (r : Result KeyringError Str) → fetched k r ≡ ok none → r ≡ err no_entry
  unfolding fetched map_keyring_error
  fetched-none (ok bytes) h = elim (Bool-cases (length bytes == key_len)) [
    | inl e ↦ let full : fetched k (ok bytes) ≡ ok (some bytes) = rw e refl in cc
    | inr e ↦
        let wrong : fetched k (ok bytes) ≡ err (malformed_key key_len (length bytes)) = rw e refl in
        cc
  ]
  fetched-none (err no_entry) h = refl
  fetched-none (err (platform_failure t)) h = absurd (err-ne-ok h)
  fetched-none (err (no_storage_access t)) h = absurd (err-ne-ok h)
  fetched-none (err (bad_encoding t)) h = absurd (err-ne-ok h)
  fetched-none (err (other_keyring t)) h = absurd (err-ne-ok h)
  fetched-none (err (too_long a n)) h = absurd (err-ne-ok h)
  fetched-none (err (invalid a t)) h = absurd (err-ne-ok h)
  fetched-none (err (ambiguous n)) h = absurd (err-ne-ok h)

  unchanged :
      (s : S) (slot : KeychainSlot) (new_key : Str) (r : Result KeychainError (Option Str))
      → os_fetch k s slot ≡ r
      → r ≢ ok none
      → (fetch_or_create (os_keychain k) s slot new_key).1 ≡ s
  unfolding fetch_or_create
  unchanged s slot new_key (err e) f h = rw (f, fetch_or_create) refl
  unchanged s slot new_key (ok (some old)) f h = rw (f, fetch_or_create) refl
  unchanged s slot new_key (ok none) f h = absurd (h refl)

  -- The vault key is never overwritten: where reading the entry gives anything but `NoEntry`, a key or
  -- an error such as a locked keychain, `fetch_or_create` on the keychain of the system leaves it as it
  -- is.
  pub os_key_kept :
      (s : S) (slot : KeychainSlot) (new_key : Str) {entry : k.Entry}
      → entry_for k slot ≡ ok entry
      → k.get_secret s entry ≢ err no_entry
      → (fetch_or_create (os_keychain k) s slot new_key).1 ≡ s
  unfolding os_fetch
  os_key_kept s slot new_key {entry} e other =
      let read : os_fetch k s slot ≡ fetched k (k.get_secret s entry) = rw (e, os_fetch) refl in
      unchanged s slot new_key (os_fetch k s slot) refl
        (λ h. other (fetched-none (k.get_secret s entry) (sym read ∙ h)))
