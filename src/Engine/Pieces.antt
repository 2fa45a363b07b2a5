-- ===== src/Engine/Pieces.antt =====
-- What stands in the output for a registered value, without a look at the candidate.
use in_visibool.Tokenizer.Session.{get_or_insert}
use in_visibool.Prelude.{
  if◌then◌else◌, get_elem?, push, Str, ◌>>=◌, expect, Run, ret, panic, ◌+◌, ◌≡◌, refl, sym, ap,
  Option, none, some, List, [], ◌∷◌, ◌++◌, append-nil,
}
use in_visibool.Tokenizer.Alphabet.{Floats}
use in_visibool.Tokenizer.Crypto.{Crypto}
use in_visibool.Tokenizer.Fpe.{
  scrub, FpeRegistration, SessionFakeKind, card, pii, formatless, SessionRegistration, FpeResult,
  fake, failed,
}
use in_visibool.Idempotence.Precedence.{classify_precedence}
use in_visibool.Engine.{
  no_store, map_store, store, redaction_placeholder, session_mapped_unrestorable,
  redacted_formatless, redacted_internal_failure, idempotence_context, emit_fpe, emit_session,
  scrub_fpe, generate, scrub_session, scrub_ref, RegistrationRef, fpe_at, session_at, Engine,
  SessionStore, ff1_scrub_failed, generator_returned_none, ScrubNotice, ScrubState,
}
use in_visibool.Engine.Linked.{Denotes}

-- A replacement: its text, its notices, and the store that it leaves.
pub record Piece : Type 0 where
  pub text : Str
  pub notes : List ScrubNotice
  pub left : SessionStore

-- The FF1 fake, or the placeholder with its notice.
abbrev pub fpe_piece : SessionStore → FpeRegistration → FpeResult → Piece
fpe_piece s reg (fake t) = record { text = t; notes = []; left = s }
fpe_piece s reg (failed e) = record {
  text = redaction_placeholder;
  notes = redacted_internal_failure reg.label ff1_scrub_failed ∷ [];
  left = s;
}

abbrev pub redacted_notice : SessionRegistration → SessionFakeKind → ScrubNotice
redacted_notice reg formatless = redacted_formatless reg.label
redacted_notice reg kind = redacted_internal_failure reg.label generator_returned_none

-- The generator's fake, with a notice if no store keeps the pair; or the placeholder.
abbrev pub session_piece : SessionStore → SessionRegistration → Option Str → Piece
session_piece s reg (some t) = record {
  text = t;
  notes =
      if (store s reg.value t).1 then [] else session_mapped_unrestorable reg.label reg.kind ∷ [];
  left = (store s reg.value t).0;
}
session_piece s reg none = record {
  text = redaction_placeholder;
  notes = redacted_notice reg reg.kind ∷ [];
  left = s;
}

abbrev pub add_piece : ScrubState → Piece → ScrubState
add_piece st p = record {
  output = st.output ++ p.text;
  notices = st.notices ++ p.notes;
  scrubbed_count = st.scrubbed_count + 1;
  cursor = st.cursor;
  session_store = p.left;
}

module _ (f : Floats) (c : Crypto) (e : Engine) where
  abbrev pub ref_piece : SessionStore → RegistrationRef → Run Piece
  ref_piece s (fpe_at idx) = do
    reg ← expect (get_elem? e.fpe_registered idx)
    result ← scrub c e.fpe_tokenizer reg
    ret (fpe_piece s reg result)
  ref_piece s (session_at idx) = do
    reg ← expect (get_elem? e.session_registered idx)
    t ← generate f c e reg reg.kind
    ret (session_piece s reg t)

  emit_fpe_lem :
      (st : ScrubState) (reg : FpeRegistration) (r : FpeResult)
      → emit_fpe st reg r ≡ add_piece st (fpe_piece st.session_store reg r)
  unfolding emit_fpe
  emit_fpe_lem st reg (fake t) = λ i. record st {
    output = st.output ++ t;
    scrubbed_count = st.scrubbed_count + 1;
    notices = sym (append-nil st.notices) i;
  }
  emit_fpe_lem st reg (failed x) = refl

  emit_session_lem :
      (st : ScrubState) (reg : SessionRegistration) (t : Option Str)
      → emit_session st reg t reg.kind ≡ add_piece st (session_piece st.session_store reg t)
  unfolding emit_session store
  emit_session_lem st reg (some t) = some_case st.session_store refl
    where
      some_case :
          (s : SessionStore)
          → st.session_store ≡ s
          → emit_session st reg (some t) reg.kind
            ≡ add_piece st (session_piece st.session_store reg (some t))
      some_case no_store same = rw same (λ i. record st {
        output = st.output ++ t;
        scrubbed_count = st.scrubbed_count + 1;
        notices = push st.notices (session_mapped_unrestorable reg.label reg.kind);
        session_store = no_store;
      })
      some_case (map_store m now) same = rw same (λ i. record st {
        output = st.output ++ t;
        scrubbed_count = st.scrubbed_count + 1;
        notices = sym (append-nil st.notices) i;
        session_store = map_store (get_or_insert m reg.value now (λ _. t)).0 now;
      })
  emit_session_lem st reg none = none_case reg.kind refl
    where
      none_case :
          (k : SessionFakeKind)
          → reg.kind ≡ k
          → emit_session st reg none reg.kind
            ≡ add_piece st (session_piece st.session_store reg none)
      none_case formatless same = rw same refl
      none_case card same = rw same refl
      none_case (pii k) same = rw same refl

  -- A candidate that equals the value of the reference is replaced by the piece of the reference.
  pub scrub_ref_lem :
      (st : ScrubState) (candidate : Str) (ref : RegistrationRef)
      → Denotes e.fpe_registered e.session_registered ref candidate
      → scrub_ref f c e st candidate ref
        ≡ (ref_piece st.session_store ref >>= λ p. ret (add_piece st p))
  unfolding scrub_ref scrub_fpe scrub_session
  scrub_ref_lem st candidate (fpe_at idx) (reg, at, same) =
      let precedence =
        classify_precedence f c (idempotence_context e) candidate reg.alphabet idx at (sym same) in
      rw (at, precedence) (fpe_case (scrub c e.fpe_tokenizer reg))
    where
      fpe_case :
          (r : Run FpeResult)
          → (r >>= λ result. ret (emit_fpe st reg result)) ≡ (
              (r >>= λ result. ret (fpe_piece st.session_store reg result)) >>= λ p.
              ret (add_piece st p))
      fpe_case panic = refl
      fpe_case (ret result) = ap ret (emit_fpe_lem st reg result)
  scrub_ref_lem st candidate (session_at idx) (reg, at, same) =
      rw at (session_case (generate f c e reg reg.kind))
    where
      session_case :
          (r : Run (Option Str))
          → (r >>= λ t. ret (emit_session st reg t reg.kind)) ≡ (
              (r >>= λ t. ret (session_piece st.session_store reg t)) >>= λ p. ret (add_piece st p))
      session_case panic = refl
      session_case (ret t) = ap ret (emit_session_lem st reg t)
