-- ===== src/Control/Codec.antt =====
-- The messages of crates/invisibool-control/src/wire.rs, to bytes and back.
use in_visibool.Prelude.{
  Bool-cases, All, Str, codes, str_eq, str_eq_iff, ret, ◌≡◌, refl, ap, ◌∙◌, ◌↔◌, inl, inr, Bool,
  true, false, some, [], ◌∷◌, arith,
}
use in_visibool.Prelude.Maps.{HashMap, lookup}
use in_visibool.Storage.{ok}
use in_visibool.Control.{
  status, pause, resume, restore_clipboard, session_ls, session_clear, wire_verb, match_str,
  from_wire_verb, not_implemented_kind, frame_too_large_kind, bad_json_kind, unknown_cmd_kind,
  bad_args_kind, internal_kind, kind_str, from_wire_str, ok_response, err_response,
  request_to_bytes, request_of, request_from_bytes, envelope, response_to_bytes, str_field,
  bool_field, error_of, response_of, response_from_bytes, JsonValues, JsonValuesLaws, Request,
  ErrorKind, ErrorPayload, Response,
}

match_str_sound {ℓ} :
    {A : Type ℓ} (f : A → Str) (arms : HashMap A) (s : Str) {a : A}
    → All (λ arm. arm.0 ≡ f arm.1) arms
    → match_str arms s ≡ some a
    → s ≡ f a
match_str_sound f [] s spelt h = cc
match_str_sound f ((literal, b) ∷ arms) s {a} (e, spelt) h = elim (Bool-cases (str_eq s literal)) [
  | inl same ↦ let found : b ≡ a = ground arith in (str_eq_iff s literal).0 same ∙ e ∙ ap f found
  | inr other ↦ match_str_sound f arms s {a = a} spelt (ground arith)
]

from_wire_verb-wire_verb : (r : Request) → from_wire_verb (wire_verb r) ≡ some r
unfolding from_wire_verb wire_verb
from_wire_verb-wire_verb status = refl
from_wire_verb-wire_verb pause = refl
from_wire_verb-wire_verb resume = refl
from_wire_verb-wire_verb restore_clipboard = refl
from_wire_verb-wire_verb session_ls = refl
from_wire_verb-wire_verb session_clear = refl

abbrev verb_arms : HashMap Request
verb_arms =
    (codes "status", status)
    ∷ (codes "pause", pause)
    ∷ (codes "resume", resume)
    ∷ (codes "restore-clipboard", restore_clipboard)
    ∷ (codes "session-ls", session_ls)
    ∷ (codes "session-clear", session_clear)
    ∷ []

spelt_verbs : All (λ arm. arm.0 ≡ wire_verb arm.1) verb_arms
unfolding wire_verb
spelt_verbs = (refl, (refl, (refl, (refl, (refl, (refl, tt))))))

-- A text is the wire verb of a request exactly if it decodes to this request: the six verbs are the only
-- ones, and no two requests share one.
pub from_wire_verb_iff : (s : Str) (r : Request) → (from_wire_verb s ≡ some r) ↔ (s ≡ wire_verb r)
unfolding from_wire_verb wire_verb
from_wire_verb_iff s r = (
  λ h. match_str_sound wire_verb verb_arms s {a = r} spelt_verbs h,
  λ e. ap from_wire_verb e ∙ from_wire_verb-wire_verb r,
)

from_wire_str-kind_str : (k : ErrorKind) → from_wire_str (kind_str k) ≡ some k
unfolding from_wire_str kind_str
from_wire_str-kind_str not_implemented_kind = refl
from_wire_str-kind_str frame_too_large_kind = refl
from_wire_str-kind_str bad_json_kind = refl
from_wire_str-kind_str unknown_cmd_kind = refl
from_wire_str-kind_str bad_args_kind = refl
from_wire_str-kind_str internal_kind = refl

abbrev kind_arms : HashMap ErrorKind
kind_arms =
    (codes "not-implemented", not_implemented_kind)
    ∷ (codes "frame-too-large", frame_too_large_kind)
    ∷ (codes "bad-json", bad_json_kind)
    ∷ (codes "unknown-cmd", unknown_cmd_kind)
    ∷ (codes "bad-args", bad_args_kind)
    ∷ (codes "internal", internal_kind)
    ∷ []

spelt_kinds : All (λ arm. arm.0 ≡ kind_str arm.1) kind_arms
unfolding kind_str
spelt_kinds = (refl, (refl, (refl, (refl, (refl, (refl, tt))))))

-- A text is the wire spelling of an error kind exactly if it decodes to this kind.
from_wire_str_iff : (s : Str) (k : ErrorKind) → (from_wire_str s ≡ some k) ↔ (s ≡ kind_str k)
unfolding from_wire_str kind_str
from_wire_str_iff s k = (
  λ h. match_str_sound kind_str kind_arms s {a = k} spelt_kinds h,
  λ e. ap from_wire_str e ∙ from_wire_str-kind_str k,
)

module _ (j : JsonValues) (laws : JsonValuesLaws j) where
  -- Every request is written, and what is written is read back as this request.
  pub request_round_trip :
      (r : Request)
      → (bytes : Str) × (request_to_bytes j r ≡ ret bytes) × (request_from_bytes j bytes ≡ ok r)
  unfolding request_to_bytes request_from_bytes request_of
  request_round_trip r =
      let (bytes, e) = laws.to_vec_total (j.object ((codes "cmd", j.string (wire_verb r)) ∷ [])) in
      let raw = laws.raw_cmd-to_vec (wire_verb r) bytes e in
      (bytes, rw e refl, rw (raw, request_of) (rw (from_wire_verb-wire_verb r) refl))

  -- What a response carries is read back as it was written.
  abbrev pub Carries : Response j.Value → Type 0
  Carries (ok_response body) = laws.IsExact 126 body
  Carries (err_response payload) = Unit

  str_field_lem :
      (fields : HashMap j.Value) (k s : Str)
      → lookup k fields ≡ some (j.string s)
      → str_field j (j.object fields) k ≡ some s
  unfolding str_field
  str_field_lem fields k s h = rw (laws.get-object fields k, h, str_field) (laws.as_str-string s)

  bool_field_lem :
      (fields : HashMap j.Value) (k : Str) (b : Bool)
      → lookup k fields ≡ some (j.bool b)
      → bool_field j (j.object fields) k ≡ some b
  unfolding bool_field
  bool_field_lem fields k b h = rw (laws.get-object fields k, h, bool_field) (laws.as_bool-bool b)

  abbrev error_fields : ErrorPayload → HashMap j.Value
  error_fields payload =
      (codes "kind", j.string (kind_str payload.kind))
      ∷ (codes "message", j.string payload.message)
      ∷ []

  error_of_lem :
      (payload : ErrorPayload)
      → error_of j (j.object (error_fields payload)) ≡ ok (err_response payload)
  unfolding error_of lookup
  error_of_lem payload =
      let kind = str_field_lem (error_fields payload) (codes "kind") (kind_str payload.kind) refl in
      let message = str_field_lem (error_fields payload) (codes "message") payload.message refl in
      rw (kind, message, from_wire_str-kind_str payload.kind, error_of) refl

  abbrev ok_fields : j.Value → HashMap j.Value
  ok_fields body = (codes "ok", j.bool true) ∷ (codes "data", body) ∷ []

  abbrev failure_fields : ErrorPayload → HashMap j.Value
  failure_fields payload =
      (codes "ok", j.bool false) ∷ (codes "error", j.object (error_fields payload)) ∷ []

  response_of-envelope : (r : Response j.Value) → response_of j (envelope j r) ≡ ok r
  unfolding response_of envelope lookup
  response_of-envelope (ok_response body) =
      let flag = bool_field_lem (ok_fields body) (codes "ok") true refl in
      rw (flag, laws.get-object (ok_fields body) (codes "data"), response_of) refl
  response_of-envelope (err_response payload) =
      let flag = bool_field_lem (failure_fields payload) (codes "ok") false refl in
      rw (flag, laws.get-object (failure_fields payload) (codes "error"), response_of)
        (error_of_lem payload)

  envelope-IsExact : (r : Response j.Value) → Carries r → laws.IsExact 127 (envelope j r)
  unfolding envelope
  envelope-IsExact (ok_response body) h =
      laws.object-IsExact 126 (ok_fields body) (laws.bool-IsExact 126 true, (h, tt))
  envelope-IsExact (err_response payload) h =
      let error = laws.object-IsExact 125 (error_fields payload) (
        laws.string-IsExact 125 (kind_str payload.kind),
        (laws.string-IsExact 125 payload.message, tt),
      ) in
      laws.object-IsExact 126 (failure_fields payload) (laws.bool-IsExact 126 false, (error, tt))

  -- Every response is written. What is written is read back as this response, if it is an error, or if
  -- its data have no fractions and are nested at most 126 deep.
  pub response_round_trip :
      (r : Response j.Value)
      → Carries r
      → (bytes : Str) × (response_to_bytes j r ≡ ret bytes) × (response_from_bytes j bytes ≡ ok r)
  unfolding response_to_bytes response_from_bytes
  response_round_trip r h =
      let (bytes, e) = laws.to_vec_total (envelope j r) in
      let read = laws.from_slice-to_vec (envelope j r) bytes (envelope-IsExact r h) e in
      (bytes, rw e refl, rw (read, response_from_bytes) (response_of-envelope r))
