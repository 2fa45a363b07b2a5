-- ===== src/Engine.antt =====
-- crates/invisibool-engine/src/engine.rs: `Engine::scrub` and `Engine::restore` over the detection,
-- idempotence and tokenizer parts.
pub mod Linked
pub mod Pieces
pub mod ScrubSpec
pub mod Totality
pub mod Restore
use in_visibool.Prelude.{
  ℕ, if◌then◌else◌, length, get_elem?, push, Str, codes, slice, ◌>>=◌, expect, Run, ret, ◌+◌, Bool,
  true, false, not, Option, none, some, List, [], ◌∷◌, ◌++◌,
}
use in_visibool.Tokenizer.Alphabet.{base62, Floats}
use in_visibool.Tokenizer.Crypto.{Crypto}
use in_visibool.Tokenizer.Fpe.{
  new_tokenizer, scrub, FpeRegistration, email, ipv4, phone, SessionFakeKind, card, pii, formatless,
  SessionRegistration, RegisteredValue, fpe, session_mapped, FpeResult, fake, failed, FpeTokenizer,
}
use in_visibool.Tokenizer.Mac.{make_macfake}
use in_visibool.Tokenizer.Reserved.{fake_email, fake_ipv4, fake_phone, fake_card_visa16}
use in_visibool.Tokenizer.Session.{get_or_insert, SessionMap}
use in_visibool.Idempotence.{classify, scrub_it, no_op, IdempotenceContext}
use in_visibool.Detection.{
  exact_builds, scan_exact, MatchKind, exact, pattern_rule, Match, Automata,
}

pub data RegistrationRef : Type 0 where
  fpe_at session_at : ℕ → RegistrationRef

pub record Engine : Type 0 where
  pub fpe_tokenizer : FpeTokenizer
  pub fpe_registered : List FpeRegistration
  pub session_registered : List SessionRegistration
  pub retired : List FpeRegistration
  -- what `exact_matcher` was built from
  pub values : List Str
  pub session_mac_key : Str
  pub value_id_to_ref : List RegistrationRef

pub data SessionStore : Type 0 where
  no_store : SessionStore
  map_store : SessionMap → ℕ → SessionStore

-- `SessionStore::store`
pub store : SessionStore → Str → Str → SessionStore × Bool
store no_store real fake_text = (no_store, false)
store (map_store session now) real fake_text =
    (map_store (get_or_insert session real now (λ _. fake_text)).0 now, true)

abbrev pub redaction_placeholder : Str
redaction_placeholder = codes "[INVISIBOOL_UNRESTORABLE]"

-- The two texts of `RedactedInternalFailure`.
pub data Reason : Type 0 where
  ff1_scrub_failed generator_returned_none : Reason

pub data ScrubNotice : Type 0 where
  session_mapped_unrestorable : Str → SessionFakeKind → ScrubNotice
  redacted_formatless : Str → ScrubNotice
  redacted_internal_failure : Str → Reason → ScrubNotice

pub record EngineScrubResult : Type 0 where
  pub output : Str
  pub scrubbed_count : ℕ
  pub notices : List ScrubNotice

-- The four vectors that the loop of `Engine::new` fills.
pub record Building : Type 0 where
  pub fpe_list : List FpeRegistration
  pub session_list : List SessionRegistration
  pub refs : List RegistrationRef
  pub values_for_matcher : List Str

unfoldable pub register_one : Building → RegisteredValue → Building
register_one b (fpe f) = record b {
  fpe_list = push b.fpe_list f;
  refs = push b.refs (fpe_at (length b.fpe_list));
  values_for_matcher = push b.values_for_matcher f.value;
}
register_one b (session_mapped s) = record b {
  session_list = push b.session_list s;
  refs = push b.refs (session_at (length b.session_list));
  values_for_matcher = push b.values_for_matcher s.value;
}

unfoldable pub register_all : Building → List RegisteredValue → Building
register_all b [] = b
register_all b (r ∷ rs) = register_all (register_one b r) rs

abbrev pub nothing_registered : Building
nothing_registered = record { fpe_list = []; session_list = []; refs = []; values_for_matcher = [] }

pub data BuildResult : Type 0 where
  built : Engine → BuildResult
  exact_matcher_failed : BuildResult

abbrev pub engine_of : Building → FpeTokenizer → List FpeRegistration → Str → Engine
engine_of b t retired session_mac_key = record {
  fpe_tokenizer = t;
  fpe_registered = b.fpe_list;
  session_registered = b.session_list;
  retired = retired;
  values = b.values_for_matcher;
  session_mac_key = session_mac_key;
  value_id_to_ref = b.refs;
}

-- What the loop of `scrub_impl` carries.
pub record ScrubState : Type 0 where
  pub output : Str
  pub notices : List ScrubNotice
  pub scrubbed_count : ℕ
  pub cursor : ℕ
  pub session_store : SessionStore

abbrev pub push_str : ScrubState → Str → ScrubState
push_str st s = record st { output = st.output ++ s }

-- `output.push_str(s); scrubbed_count += 1;`
abbrev pub push_scrubbed : ScrubState → Str → ScrubState
push_scrubbed st s = record st { output = st.output ++ s; scrubbed_count = st.scrubbed_count + 1 }

abbrev pub push_notice : ScrubState → ScrubNotice → ScrubState
push_notice st n = record st { notices = push st.notices n }

module _ (ac : Automata) (c : Crypto) where
  -- `Engine::new`, from the vault key
  unfoldable pub new_engine :
      Str → List RegisteredValue → List FpeRegistration → Str → Run BuildResult
  new_engine vault_key registered retired session_mac_key =
      let b = register_all nothing_registered registered in
      if not (exact_builds ac b.values_for_matcher)
      then ret exact_matcher_failed
      else do t ← new_tokenizer c vault_key; ret (built (engine_of b t retired session_mac_key))

abbrev pub idempotence_context : Engine → IdempotenceContext
idempotence_context e = record {
  registered = e.fpe_registered;
  retired = e.retired;
  fpe_tokenizer = e.fpe_tokenizer;
  session_mac_key = e.session_mac_key;
}

-- The arms of `match self.fpe.scrub(fpe_reg)`.
pub emit_fpe : ScrubState → FpeRegistration → FpeResult → ScrubState
emit_fpe st reg (fake s) = push_scrubbed st s
emit_fpe st reg (failed e) =
    push_notice (push_scrubbed st redaction_placeholder)
      (redacted_internal_failure reg.label ff1_scrub_failed)

-- `match (fake, session_reg.kind) { … }`
pub emit_session : ScrubState → SessionRegistration → Option Str → SessionFakeKind → ScrubState
emit_session st reg (some s) kind =
    let (stored_in, stored) = store st.session_store reg.value s in
    let st' : ScrubState = record (push_scrubbed st s) { session_store = stored_in } in
    if stored then st' else push_notice st' (session_mapped_unrestorable reg.label kind)
emit_session st reg none formatless =
    push_notice (push_scrubbed st redaction_placeholder) (redacted_formatless reg.label)
emit_session st reg none kind =
    push_notice (push_scrubbed st redaction_placeholder)
      (redacted_internal_failure reg.label generator_returned_none)

module _ (f : Floats) (c : Crypto) where
  pub scrub_fpe : Engine → ScrubState → Str → FpeRegistration → Run ScrubState
  scrub_fpe e st candidate reg =
      classify f c (idempotence_context e) candidate reg.alphabet >>= elim [
        | no_op _ ↦ ret (push_str st candidate)
        | scrub_it ↦ (do result ← scrub c e.fpe_tokenizer reg; ret (emit_fpe st reg result))
      ]

  -- `let fake = match session_reg.kind { … }`
  pub generate : Engine → SessionRegistration → SessionFakeKind → Run (Option Str)
  generate e reg (pii email) = ret (some (fake_email c reg.value))
  generate e reg (pii ipv4) = ret (some (fake_ipv4 c reg.value))
  generate e reg (pii phone) = ret (some (fake_phone c reg.value))
  generate e reg card = fake_card_visa16 c reg.value reg.value
  generate e reg formatless = make_macfake f c e.session_mac_key reg.value base62

  pub scrub_session : Engine → ScrubState → SessionRegistration → Run ScrubState
  scrub_session e st reg = do s ← generate e reg reg.kind; ret (emit_session st reg s reg.kind)

  pub scrub_ref : Engine → ScrubState → Str → RegistrationRef → Run ScrubState
  scrub_ref e st candidate (fpe_at idx) = do
    reg ← expect (get_elem? e.fpe_registered idx)
    scrub_fpe e st candidate reg
  scrub_ref e st candidate (session_at idx) = do
    reg ← expect (get_elem? e.session_registered idx)
    scrub_session e st reg

  pub scrub_kind : Engine → ScrubState → Str → MatchKind → Run ScrubState
  scrub_kind e st candidate (pattern_rule _) = ret (push_str st candidate)
  scrub_kind e st candidate (exact value_id) = do
    ref ← expect (get_elem? e.value_id_to_ref value_id)
    scrub_ref e st candidate ref

  -- One round of the loop over the matches.
  pub scrub_match : Engine → Str → ScrubState → Match → Run ScrubState
  scrub_match e input st m = do
    gap ← slice input st.cursor m.start
    candidate ← slice input m.start m.finish
    scrub_kind e (record (push_str st gap) { cursor = m.finish }) candidate m.kind

  pub scrub_loop : Engine → Str → ScrubState → List Match → Run ScrubState
  scrub_loop e input st [] = ret st
  scrub_loop e input st (m ∷ ms) = do st' ← scrub_match e input st m; scrub_loop e input st' ms

module _ (ac : Automata) (f : Floats) (c : Crypto) where
  -- `scrub_impl`, with the session store that it leaves.
  pub scrub_impl : Engine → Str → SessionStore → Run (EngineScrubResult × SessionStore)
  scrub_impl e input session_store = do
    st ←
        scrub_loop f c e input
          (record {
            output = [];
            notices = [];
            scrubbed_count = 0;
            cursor = 0;
            session_store = session_store;
          })
          (scan_exact ac e.values input)
    rest ← slice input st.cursor (length input)
    ret (
      record {
        output = st.output ++ rest;
        scrubbed_count = st.scrubbed_count;
        notices = st.notices;
      },
      st.session_store,
    )
