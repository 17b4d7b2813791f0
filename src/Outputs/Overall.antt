-- ===== src/Outputs/Overall.antt =====
-- The outcome of a whole run, as Prometheus counts it.
use goss.Base.{◌≡◌, refl, List, [], ◌∷◌, ◌++◌}
use goss.TestResult.{unknown, TestResult, Outcome}
use goss.Outputs.{group_outcome, Groups, overall_outcome}

overall-append :
    (o : Outcome) (gs hs : Groups)
    → overall_outcome o (gs ++ hs) ≡ overall_outcome (overall_outcome o gs) hs
unfolding overall_outcome
overall-append o [] hs = refl
overall-append o (g ∷ gs) hs = overall-append (group_outcome o g) gs hs

-- Only the last group that arrives decides the outcome of the run, if it has a result: whatever the
-- groups before it hold, failures included, the outcome is the one of the last group alone.
pub overall_last_group :
    (o : Outcome) (gs : Groups) (t : TestResult) (ts : List TestResult)
    → overall_outcome o (gs ++ (t ∷ ts) ∷ []) ≡ overall_outcome unknown ((t ∷ ts) ∷ [])
unfolding overall_outcome
overall_last_group o gs t ts = rw (overall-append o gs ((t ∷ ts) ∷ [])) refl
