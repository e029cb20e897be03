-- ===== src/Http/Library/Tests.antt =====
-- Two threads that set up and clean up cURL.
use libstreamlike.Common.{ℕ, ◌≡◌, refl, true, List, [], ◌∷◌, ◌++◌}
use libstreamlike.Http.Library.{Op, inits, cleans, fresh, run}
use libstreamlike.Http.Library.Once.{IsByTurns, run-IsByTurns}

-- Both enter to set up, and the second waits; once it has found that it need not call cURL, it cleans up.
abbrev both_init : List (ℕ × Op)
both_init =
    (0, inits)
    ∷ (0, inits)
    ∷ (1, inits)
    ∷ (0, inits)
    ∷ (1, inits)
    ∷ (0, inits)
    ∷ (0, inits)
    ∷ (1, inits)
    ∷ (1, inits)
    ∷ (1, inits)
    ∷ []

abbrev then_cleans : List (ℕ × Op)
then_cleans = both_init ++ (1, cleans) ∷ (1, cleans) ∷ (1, cleans) ∷ (1, cleans) ∷ []

run-both_init : ((run both_init fresh).calls ≡ inits ∷ []) × ((run both_init fresh).done ≡ true)
unfolding run
run-both_init = (refl, refl)

run-then_cleans : (run then_cleans fresh).calls ≡ cleans ∷ inits ∷ []
unfolding run
run-then_cleans = refl

run-IsByTurns_example : IsByTurns (run then_cleans fresh)
run-IsByTurns_example = run-IsByTurns then_cleans
