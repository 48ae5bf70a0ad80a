-- ===== src/ChunkReview/After.antt =====
-- Rules for what holds when a part of an execution returns.
use code_astra.Base.{List, ◌∷◌, if◌then◌else◌}
use code_astra.ChunkReview.Errors.{Failure}
use code_astra.ChunkReview.{
  Outcome, returns, raises, cancels, Event, Surroundings, Task, follow, handle, ◌then◌, try, note,
}
use code_astra.ChunkReview.Execute.{write}

-- If it returns, what it returns and the log are so.
abbrev pub WhenReturned :
    {F A : Type 0} → (A → List (Event F) → Type 0) → Outcome A × List (Event F) → Type 0
WhenReturned P (returns a, log) = P a log
WhenReturned P (raises e, log) = Unit
WhenReturned P (cancels, log) = Unit

module _ {F : Type 0} where
  pub after_then :
      {A B : Type 0} (P : B → List (Event F) → Type 0) (m : Task F A) (f : A → Task F B)
      → ((a : A) (log : List (Event F)) → WhenReturned P (f a log))
      → (log : List (Event F)) → WhenReturned P ((m then f) log)
  after_then {A} {B} P m f h log = go (m log)
    where
      go : (r : Outcome A × List (Event F)) → WhenReturned P (follow f r)
      go (returns a, log') = h a log'
      go (raises e, log') = tt
      go (cancels, log') = tt

  pub after_knowing :
      {A B : Type 0} (Q : A → List (Event F) → Type 0) (P : B → List (Event F) → Type 0)
      (m : Task F A) (f : A → Task F B)
      → ((log : List (Event F)) → WhenReturned Q (m log))
      → ((a : A) (log : List (Event F)) → Q a log → WhenReturned P (f a log))
      → (log : List (Event F)) → WhenReturned P ((m then f) log)
  after_knowing {A} {B} Q P m f q h log = go (m log) (q log)
    where
      go : (r : Outcome A × List (Event F)) → WhenReturned Q r → WhenReturned P (follow f r)
      go (returns a, log') k = h a log' k
      go (raises e, log') k = tt
      go (cancels, log') k = tt

  pub after_try :
      {A : Type 0} (P : A → List (Event F) → Type 0) (m : Task F A) (f : Failure → Task F A)
      → ((log : List (Event F)) → WhenReturned P (m log))
      → ((e : Failure) (log : List (Event F)) → WhenReturned P (f e log))
      → (log : List (Event F)) → WhenReturned P (try m f log)
  after_try {A} P m f h k log = go (m log) (h log)
    where
      go : (r : Outcome A × List (Event F)) → WhenReturned P r → WhenReturned P (handle f r)
      go (returns a, log') s = s
      go (raises e, log') s = k e log'
      go (cancels, log') s = tt

module _ {F X : Type 0} (around : Surroundings F X) where
  -- A write that returns is the newest event.
  pub after_write :
      {B : Type 0} (P : B → List (Event F) → Type 0) (event : Event F) (f : Unit {0} → Task F B)
      (log : List (Event F))
      → WhenReturned P (f tt (event ∷ log))
      → WhenReturned P ((write around event then f) log)
  unfolding write
  after_write P event f log h = go (around.accepts event log)
    where
      go : (o : Outcome (Unit {0})) → WhenReturned P (follow f (note event o log))
      go (returns a) = h
      go (raises e) = tt
      go cancels = tt

  pub last_write :
      (P : Unit {0} → List (Event F) → Type 0) (event : Event F) (log : List (Event F))
      → P tt (event ∷ log)
      → WhenReturned P (write around event log)
  unfolding write
  last_write P event log h = go (around.accepts event log)
    where
      go : (o : Outcome (Unit {0})) → WhenReturned P (note event o log)
      go (returns a) = h
      go (raises e) = tt
      go cancels = tt
