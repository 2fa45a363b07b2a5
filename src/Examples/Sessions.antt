-- ===== src/Examples/Sessions.antt =====
-- The theorems on the session map, at concrete maps.
use in_visibool.Prelude.{◌↔◌, length, Str, codes, ◌≤◌, ◌≡◌, refl, subst, some, [], ◌∷◌, arith}
use in_visibool.Prelude.Maps.{lookup, insert}
use in_visibool.Tokenizer.Session.{
  new_session, prune, insert_pair, make_room, get_or_insert, restore_real, clear, SessionMap,
}
use in_visibool.Tokenizer.Session.Consistent.{IsConsistent-new}
use in_visibool.Tokenizer.Session.Operations.{
  get_or_insert-IsSession, operations-IsSession, IsSession,
}
use in_visibool.Tokenizer.Session.Live.{HoldsFor, restore_exact, restore-get_or_insert}
use in_visibool.Tokenizer.Session.Bounded.{get_or_insert_bounded}

toy_new-IsSession : IsSession (new_session 1 60)
toy_new-IsSession = record { distinct = tt; consistent = IsConsistent-new 1 60 }

abbrev some_fake : Unit {0} → Str
some_fake _ = codes "fake"

-- A map of one pair, which is full.
abbrev toy_map : SessionMap
toy_map = record {
  max_entries = 1;
  ttl = 60;
  by_fake = (codes "fake", record { real = codes "secret"; last_touched = 5 }) ∷ [];
  by_real = (codes "secret", codes "fake") ∷ [];
}

toy_map_lem :
    (get_or_insert (new_session 1 60) (codes "secret") 5 some_fake) ≡ (toy_map, codes "fake")
unfolding get_or_insert prune make_room insert_pair lookup insert
toy_map_lem = refl

toy_map-IsSession : IsSession toy_map
toy_map-IsSession =
    subst (λ (p : SessionMap × Str). IsSession p.0) toy_map_lem
      (get_or_insert-IsSession (new_session 1 60) (codes "secret") 5 some_fake toy_new-IsSession)

operations-IsSession_example :
    IsSession (new_session 1 60)
    × IsSession (get_or_insert toy_map (codes "other") 6 some_fake).0
    × IsSession (restore_real toy_map (codes "other") 6).0
    × IsSession (clear toy_map)
operations-IsSession_example =
    operations-IsSession toy_map 1 60 6 (codes "other") some_fake toy_map-IsSession

restore_exact_example :
    ((restore_real toy_map (codes "fake") 65).1 ≡ some (codes "secret"))
    ↔ HoldsFor 60 65 (lookup (codes "fake") toy_map.by_fake) (codes "secret")
restore_exact_example = restore_exact toy_map (codes "fake") 65 (codes "secret") toy_map-IsSession

restore-get_or_insert_example : (restore_real toy_map (codes "fake") 65).1 ≡ some (codes "secret")
unfolding get_or_insert prune make_room insert_pair lookup insert
restore-get_or_insert_example =
    restore-get_or_insert (new_session 1 60) toy_new-IsSession (codes "secret") 5 some_fake 65
      (omega arith)

get_or_insert_bounded_example :
    length (get_or_insert toy_map (codes "other") 6 some_fake).0.by_fake ≤ 1
unfolding get_or_insert prune make_room insert_pair lookup insert
get_or_insert_bounded_example =
    get_or_insert_bounded toy_map (codes "other") 6 some_fake toy_map-IsSession (omega arith)
