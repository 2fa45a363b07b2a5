-- ===== src/Engine/Restore/Session.antt =====
-- crates/invisibool-engine/src/engine.rs: `Engine::restore_with_session`.
use in_visibool.Prelude.{
  ℕ, ltb, leb, if◌then◌else◌, length, Str, str_eq_refl, find_str, slice-whole, ◌>>=◌, Run, ret, ◌+◌,
  ◌-◌, ◌≤◌, ◌<◌, ◌≡◌, refl, ap, ◌∙◌, false, Option, none, some, List, [], ◌∷◌, ◌++◌, arith,
}
use in_visibool.Prelude.Maps.{lookup, insert}
use in_visibool.Prelude.Replace.{
  contains_str, matches_count, replace, replace-occurs, count-occurs, replace-absent, count-absent,
}
use in_visibool.Tokenizer.Crypto.{Crypto}
use in_visibool.Tokenizer.Session.{
  new_session, prune, touch, insert_pair, make_room, get_or_insert, restore_real, entries,
  SessionMap,
}
use in_visibool.Detection.{sort_by}
use in_visibool.Engine.{Engine}
use in_visibool.Engine.Restore.{all_candidates, dedup, restore_loop, restore, EngineRestoreResult}

-- The fakes of the session that the text contains.
unfoldable pub candidate_fakes : Str → List (Str × Str) → List Str
candidate_fakes input [] = []
candidate_fakes input ((fake, real) ∷ pairs) =
    let others = candidate_fakes input pairs in
    if contains_str fake input then fake ∷ others else others

-- The first pass: the session, the working text and the number of restores.
abbrev pub put_back : Str → Str → Str → ℕ → Str × ℕ
put_back fake real working restored =
    let count = matches_count fake working in
    if ltb 0 count then (replace fake real working, restored + count) else (working, restored)

abbrev pub put_back_some : Str → SessionMap × Option Str → Str → ℕ → SessionMap × Str × ℕ
put_back_some fake (session, none) working restored = (session, working, restored)
put_back_some fake (session, some real) working restored =
    (session, (put_back fake real working restored).0, (put_back fake real working restored).1)

unfoldable pub session_pass : List Str → SessionMap → ℕ → Str → ℕ → SessionMap × Str × ℕ
session_pass [] session now working restored = (session, working, restored)
session_pass (fake ∷ fakes) session now working restored =
    let (session', working', restored') =
      put_back_some fake (restore_real session fake now) working restored in
    session_pass fakes session' now working' restored'

module _ (c : Crypto) where
  -- The session after the first pass, and the second pass over its text.
  unfoldable pub restore_with_session :
      Engine → Str → SessionMap → ℕ → SessionMap × Run EngineRestoreResult
  restore_with_session e input session now =
      let (session', working, restored) =
        session_pass (candidate_fakes input (entries session)) session now input 0 in
      (
        session',
        restore c e working >>= (λ ff1.
            ret (record { output = ff1.output; restored_count = restored + ff1.restored_count })),
      )

  -- Without a registration of FF1, restore gives the text back.
  pub restore-none :
      (e : Engine) (input : Str)
      → e.fpe_registered ≡ []
      → restore c e input ≡ ret (record { output = input; restored_count = 0 })
  unfolding restore all_candidates dedup restore_loop sort_by
  restore-none e input h = rw (h, slice-whole input, restore) refl

  -- The session of one entry.
  abbrev pub one_pair : ℕ → ℕ → Str → Str → ℕ → SessionMap
  one_pair max_entries ttl fake real now = record {
    max_entries = max_entries;
    ttl = ttl;
    by_fake = (fake, record { real = real; last_touched = now }) ∷ [];
    by_real = (real, fake) ∷ [];
  }

  get_or_insert-new :
      (max_entries ttl now : ℕ) (real : Str) (make_fake : Unit {0} → Str)
      → 0 < max_entries
      → get_or_insert (new_session max_entries ttl) real now make_fake
        ≡ (one_pair max_entries ttl (make_fake tt) real now, make_fake tt)
  unfolding get_or_insert prune insert_pair make_room lookup insert
  get_or_insert-new max_entries ttl now real make_fake h =
      let space : leb max_entries 0 ≡ false = ground arith in rw (space, get_or_insert) refl

  restore_one :
      (max_entries ttl now later : ℕ) (fake real : Str)
      → later ≤ now + ttl
      → (restore_real (one_pair max_entries ttl fake real now) fake later).1 ≡ some real
  unfolding restore_real prune lookup touch
  restore_one max_entries ttl now later fake real h =
      let live : ltb ttl (later - now) ≡ false = ground arith in
      rw (live, restore_real, str_eq_refl fake) refl

  put_back_found :
      (session : SessionMap) (o : Option Str) (fake real working : Str) (restored : ℕ)
      → o ≡ some real
      → put_back_some fake (session, o) working restored ≡ (
        session,
        (put_back fake real working restored).0,
        (put_back fake real working restored).1,
      )
  put_back_found session o fake real working restored h =
      ap (λ x. put_back_some fake (session, x) working restored) h

  -- The first pass over a text with one fake in one place.
  pass_one :
      (session : SessionMap) (now b0 : ℕ) (real rest before after : Str)
      → (restore_real session (b0 ∷ rest) now).1 ≡ some real
      → find_str (b0 ∷ rest) (before ++ ((b0 ∷ rest) ++ after)) ≡ some (length before)
      → find_str (b0 ∷ rest) after ≡ none
      → session_pass ((b0 ∷ rest) ∷ []) session now (before ++ ((b0 ∷ rest) ++ after)) 0
        ≡ ((restore_real session (b0 ∷ rest) now).0, before ++ (real ++ after), 1)
  unfolding session_pass
  pass_one session now b0 real rest before after found once absent =
      let text = before ++ ((b0 ∷ rest) ++ after) in
      let count : matches_count (b0 ∷ rest) text ≡ 1 =
        count-occurs b0 rest before after once
        ∙ ap (λ n. 1 + n) (count-absent b0 rest after absent) in
      let new : replace (b0 ∷ rest) real text ≡ before ++ (real ++ after) =
        replace-occurs b0 rest real before after once
        ∙ ap (λ t. before ++ (real ++ t)) (replace-absent b0 rest real after absent) in
      let put : put_back (b0 ∷ rest) real text 0 ≡ (before ++ (real ++ after), 1) =
        rw (count, new) refl in
      put_back_found (restore_real session (b0 ∷ rest) now).0
        (restore_real session (b0 ∷ rest) now).1 (b0 ∷ rest) real text 0 found
      ∙ ap (λ x. ((restore_real session (b0 ∷ rest) now).0, x.0, x.1)) put

  -- Round trip in a session: a value gets its fake from a new session, and a text with this fake once
  -- in it, restored while the entry lives, has the value in the place of the fake, and one restore is
  -- counted. The engine has no FF1 registration, the session has room for an entry, and the fake is not
  -- empty.
  pub restore_with_session-get_or_insert :
      (e : Engine) (max_entries ttl now later b0 : ℕ) (real fake_tail before after : Str)
      → e.fpe_registered ≡ []
      → 0 < max_entries
      → later ≤ now + ttl
      → find_str (b0 ∷ fake_tail) (before ++ ((b0 ∷ fake_tail) ++ after)) ≡ some (length before)
      → find_str (b0 ∷ fake_tail) after ≡ none
      → (restore_with_session e
          (before ++ ((b0 ∷ fake_tail) ++ after))
          (get_or_insert (new_session max_entries ttl) real now (λ _. b0 ∷ fake_tail)).0
          later).1
        ≡ ret (record { output = before ++ (real ++ after); restored_count = 1 })
  unfolding restore_with_session candidate_fakes entries contains_str
  restore_with_session-get_or_insert e max_entries ttl now later b0 real fake_tail before after
        none_registered space live once absent =
      let fake : Str = b0 ∷ fake_tail in
      let text = before ++ (fake ++ after) in
      let session = one_pair max_entries ttl fake real now in
      let contained : candidate_fakes text ((fake, real) ∷ []) ≡ fake ∷ [] =
        rw (once, contains_str) refl in
      let pass =
        pass_one session later b0 real fake_tail before after
          (restore_one max_entries ttl now later fake real live) once absent in
      ap (λ m. (restore_with_session e text m later).1)
        (ap (λ x. x.0) (get_or_insert-new max_entries ttl now real (λ _. fake) space))
      ∙ rw (contained, pass, restore-none e (before ++ (real ++ after)) none_registered) refl
