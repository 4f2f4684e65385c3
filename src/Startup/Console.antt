-- ===== src/Startup/Console.antt =====
-- What the programs print.
use snowglobe.Prelude.{String, Bool, List, [], ◌∷◌, ◌++◌, if◌then◌else◌}
use snowglobe.Exec.{Error, Exec, ok}

-- A line of the standard output, or the line of an error on the other.
pub data Message : Type 0 where
  line : String → Message
  failed : Error → Message

-- What was printed before a state, and the state.
pub record Console (S : Type 0) : Type 0 where
  pub state : S
  pub printed : List Message

module _ {S : Type 0} where
  unfoldable pub print : Message → Console S → Console S
  print message c = record c { printed = c.printed ++ message ∷ [] }

  unfoldable pub say : String → Exec (Console S) (Unit {0})
  unfolding print
  say text c = (ok tt, print (line text) c)

  -- `if progress is not None: progress(text)`
  unfoldable pub progress : Bool → String → Exec (Console S) (Unit {0})
  unfolding print
  progress wanted text c = (ok tt, if wanted then print (line text) c else c)

  -- an action on the state that prints nothing
  unfoldable pub beneath {ℓ} : {A : Type ℓ} → Exec S A → Exec (Console S) A
  beneath m c = let (r, s) = m c.state in (r, record c { state = s })
