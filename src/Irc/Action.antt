-- ===== src/Irc/Action.antt =====
-- Handlers: a call changes a state and returns, returns an error, or panics; what it has written before
-- stays.
use soju.Irc.Result.{Error, Result, ok, err, panic, Step}

abbrev pub Action : Type 0 → Type 0 → Type 0
Action S A = S → Step S A

module _ {S : Type 0} where
  abbrev pub pure : {A : Type 0} → A → Action S A
  pure a s = (ok a, s)

  -- The end of a handler that returns nil.
  abbrev pub finish : Action S (Unit {0})
  finish s = (ok tt, s)

  abbrev pub lift : {A : Type 0} → Result A → Action S A
  lift r s = (r, s)

  abbrev pub fail : {A : Type 0} → Error → Action S A
  fail e s = (err e, s)

  abbrev pub continue : {A B : Type 0} → Result A → (A → Action S B) → S → Step S B
  continue (ok a) f s = f a s
  continue (err e) f s = (err e, s)
  continue panic f s = (panic, s)

  infixl 5 ◌>>=◌ ◌>>◌
  unfoldable pub ◌>>=◌ : {A B : Type 0} → Action S A → (A → Action S B) → Action S B
  ◌>>=◌ m f s = let (r, s') = m s in continue r f s'

  abbrev pub ◌>>◌ : {B : Type 0} → Action S (Unit {0}) → Action S B → Action S B
  m >> n = m >>= λ _. n

  abbrev pub get : Action S S
  get s = (ok s, s)

  abbrev pub update : (S → S) → Action S (Unit {0})
  update f s = (ok tt, f s)
