-- ===== src/Exec/Tasks.antt =====
-- Tasks of one process that take turns. A turn takes a task through its next call that may give way
-- to the others; the order of the turns is up to the event loop, and is a list of the places of the
-- tasks.
use supply_chain_tracker.Prelude.{ℕ, zero, suc, List, [], ◌∷◌}

module _ {P S : Type 0} (turn : P → S → P × S) where
  -- a turn of the task at a place
  unfoldable pub turn_at : ℕ → List P → S → List P × S
  turn_at i [] s = ([], s)
  turn_at zero (p ∷ ps) s = let (p', s') = turn p s in (p' ∷ ps, s')
  turn_at (suc i) (p ∷ ps) s = let (ps', s') = turn_at i ps s in (p ∷ ps', s')

  unfoldable pub interleave : List ℕ → List P → S → List P × S
  interleave [] ps s = (ps, s)
  interleave (i ∷ order) ps s = let (ps', s') = turn_at i ps s in interleave order ps' s'
