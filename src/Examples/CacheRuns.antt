-- ===== src/Examples/CacheRuns.antt =====
-- cache.go on a short history.
use maniflex.Prelude.{ℕ, ◌≡◌, refl, none, some, List, [], ◌∷◌, arith}
use maniflex.Request.Context.Map.{lookup, insert, delete, has}
use maniflex.Memo.MemoryCache.{new_cache, get, set, remove}
use maniflex.Memo.Transparent.{
  Call, gets, sets, removes, answers, reference_answers, answers-new_cache,
}

-- A value of 10 that lives 5, read in time, at its last instant and late, and set anew.
abbrev history : List (ℕ × Call ℕ)
history =
    (1, sets 0 "k" 10 5)
    ∷ (3, gets "k")
    ∷ (6, gets "k")
    ∷ (7, gets "k")
    ∷ (8, sets 1 "k" 11 5)
    ∷ (9, removes "j")
    ∷ (14, gets "k")
    ∷ []

its_answers :
    answers history new_cache ≡ none ∷ some 10 ∷ some 10 ∷ none ∷ none ∷ none ∷ some 11 ∷ []
unfolding answers new_cache get set remove lookup insert delete has
its_answers = refl

answers-new_cache_example : answers history new_cache ≡ reference_answers history []
answers-new_cache_example = answers-new_cache history (omega arith)
