-- ===== src/Engine/Linked.antt =====
-- `Engine::new` links each value that the matcher knows to its registration.

use in_visibool.Prelude.{
  ℕ, Bool-cases, length, get_elem?, length-append, push, get_elem?-push_old, get_elem?-push_new,
  get_elem?-push_inv, Str, >>=-eq-ret, ret, ◌+◌, ◌≡◌, refl, sym, ap, ◌∙◌, subst, inl, inr, some,
  List, [], ◌∷◌, ◌++◌, map, append-nil, append_assoc, arith,
}
use in_visibool.Tokenizer.Crypto.{Crypto}
use in_visibool.Tokenizer.Fpe.{
  new_tokenizer, FpeRegistration, SessionRegistration, RegisteredValue, fpe, session_mapped,
}
use in_visibool.Detection.{exact_builds, Automata}
use in_visibool.Engine.{
  register_one, register_all, nothing_registered, built, engine_of, new_engine, RegistrationRef,
  fpe_at, session_at, Engine, Building,
}

-- The registration under a reference has the value `v`.
abbrev pub Denotes :
    List FpeRegistration → List SessionRegistration → RegistrationRef → Str → Type 0
Denotes fpes sessions (fpe_at idx) v =
    (reg : FpeRegistration) × (get_elem? fpes idx ≡ some reg) × (reg.value ≡ v)
Denotes fpes sessions (session_at idx) v =
    (reg : SessionRegistration) × (get_elem? sessions idx ≡ some reg) × (reg.value ≡ v)

-- The reference at index `id` is to a registration with the value at index `id`.
abbrev pub Links :
    List FpeRegistration → List SessionRegistration → List RegistrationRef → List Str → Type 0
Links fpes sessions refs values =
    (id : ℕ) (v : Str)
    → get_elem? values id ≡ some v
    → (ref : RegistrationRef) × (get_elem? refs id ≡ some ref) × Denotes fpes sessions ref v

pub record IsBuilding (b : Building) : Type 0 where
  same_length : length b.refs ≡ length b.values_for_matcher
  links : Links b.fpe_list b.session_list b.refs b.values_for_matcher

Denotes-push_fpe :
    (fpes : List FpeRegistration) (sessions : List SessionRegistration) (f : FpeRegistration)
    (ref : RegistrationRef) (v : Str)
    → Denotes fpes sessions ref v
    → Denotes (push fpes f) sessions ref v
Denotes-push_fpe fpes sessions f (fpe_at idx) v (reg, at, e) =
    (reg, get_elem?-push_old fpes f idx at, e)
Denotes-push_fpe fpes sessions f (session_at idx) v d = d

Denotes-push_session :
    (fpes : List FpeRegistration) (sessions : List SessionRegistration) (s : SessionRegistration)
    (ref : RegistrationRef) (v : Str)
    → Denotes fpes sessions ref v
    → Denotes fpes (push sessions s) ref v
Denotes-push_session fpes sessions s (fpe_at idx) v d = d
Denotes-push_session fpes sessions s (session_at idx) v (reg, at, e) =
    (reg, get_elem?-push_old sessions s idx at, e)

-- One more value and one more reference, to a registration with that value.
Links-push :
    (fpes : List FpeRegistration) (sessions : List SessionRegistration)
    (refs : List RegistrationRef) (values : List Str) (ref : RegistrationRef) (value : Str)
    → length refs ≡ length values
    → Links fpes sessions refs values
    → Denotes fpes sessions ref value
    → Links fpes sessions (push refs ref) (push values value)
Links-push fpes sessions refs values ref value len links d id v h =
    elim (get_elem?-push_inv values value id h) [
      | inl old ↦ let (r, at, dr) = links id v old in (r, get_elem?-push_old refs ref id at, dr)
      | inr (e, same) ↦
          let at : get_elem? (push refs ref) id ≡ some ref =
            rw (e, ← len) (get_elem?-push_new refs ref) in
          (ref, at, subst (Denotes fpes sessions ref) same d)
    ]

register_one-IsBuilding :
    (b : Building) (r : RegisteredValue) → IsBuilding b → IsBuilding (register_one b r)
unfolding register_one
register_one-IsBuilding b (fpe f) w = record {
  same_length =
      length-append b.refs _
      ∙ ap (λ n. n + 1) w.same_length
      ∙ sym (length-append b.values_for_matcher _);
  links =
      Links-push (push b.fpe_list f) b.session_list b.refs b.values_for_matcher
        (fpe_at (length b.fpe_list)) f.value w.same_length
        (λ id v h.
          let (ref, at, d) = w.links id v h in
          (ref, at, Denotes-push_fpe b.fpe_list b.session_list f ref v d))
        (f, get_elem?-push_new b.fpe_list f, refl);
}
register_one-IsBuilding b (session_mapped s) w = record {
  same_length =
      length-append b.refs _
      ∙ ap (λ n. n + 1) w.same_length
      ∙ sym (length-append b.values_for_matcher _);
  links =
      Links-push b.fpe_list (push b.session_list s) b.refs b.values_for_matcher
        (session_at (length b.session_list)) s.value w.same_length
        (λ id v h.
          let (ref, at, d) = w.links id v h in
          (ref, at, Denotes-push_session b.fpe_list b.session_list s ref v d))
        (s, get_elem?-push_new b.session_list s, refl);
}

register_all-IsBuilding :
    (rs : List RegisteredValue) (b : Building) → IsBuilding b → IsBuilding (register_all b rs)
unfolding register_all
register_all-IsBuilding [] b w = w
register_all-IsBuilding (r ∷ rs) b w =
    register_all-IsBuilding rs (register_one b r) (register_one-IsBuilding b r w)

abbrev pub IsLinked : Engine → Type 0
IsLinked e = Links e.fpe_registered e.session_registered e.value_id_to_ref e.values

abbrev pub value_of : RegisteredValue → Str
value_of (fpe f) = f.value
value_of (session_mapped s) = s.value

register_all-values :
    (rs : List RegisteredValue) (b : Building)
    → (register_all b rs).values_for_matcher ≡ b.values_for_matcher ++ map value_of rs
unfolding register_all register_one
register_all-values [] b = sym (append-nil b.values_for_matcher)
register_all-values (fpe f ∷ rs) b =
    register_all-values rs (register_one b (fpe f))
    ∙ append_assoc b.values_for_matcher (f.value ∷ []) (map value_of rs)
register_all-values (session_mapped s ∷ rs) b =
    register_all-values rs (register_one b (session_mapped s))
    ∙ append_assoc b.values_for_matcher (s.value ∷ []) (map value_of rs)

-- An engine that `Engine::new` built knows the registered values in their order, and its table leads
-- from the index of each value to a registration, FF1 or session-mapped, of that value.
pub new_engine-IsLinked :
    (ac : Automata) (c : Crypto) (vault_key : Str) (registered : List RegisteredValue)
    (retired : List FpeRegistration) (session_mac_key : Str) {e : Engine}
    → new_engine ac c vault_key registered retired session_mac_key ≡ ret (built e)
    → (e.values ≡ map value_of registered) × IsLinked e
unfolding new_engine
new_engine-IsLinked ac c vault_key registered retired session_mac_key {e} h =
    let b = register_all nothing_registered registered in
    elim (Bool-cases (exact_builds ac b.values_for_matcher)) [
      | inl ok ↦
          let h' = rw (ok, new_engine) at h in
          let (t, _, h'') =
            >>=-eq-ret (new_tokenizer c vault_key)
              (λ t. ret (built (engine_of b t retired session_mac_key))) h' in
          let same : engine_of b t retired session_mac_key ≡ e = cc (h'') in
          (
            ap (λ (z : Engine). z.values) (sym same)
                ∙ register_all-values registered nothing_registered,
            subst IsLinked same
                (register_all-IsBuilding registered nothing_registered
                  (record { same_length = refl; links = λ id v h. absurd (cc) })).links,
          )
      | inr no_automaton ↦ absurd (ground arith)
    ]
