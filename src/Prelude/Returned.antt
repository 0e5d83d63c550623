-- ===== src/Prelude/Returned.antt =====
-- Postconditions of what an action returns, from every state; exceptions meet them.
use mathlib.Core.Bool.{Bool, true, false}
use mathlib.Core.Path.{◌≡◌, refl}
use data_engineer.Prelude.Tests.{if◌then◌else◌}
use mathlib.Core.Option.{Option, none, some}
use data_engineer.Prelude.World.{attempted}
use data_engineer.Prelude.Exec.{
  failure, infrastructure, cancelled, Exec, Result, ok, raised, answer, proceed, ◌>>=◌,
}

abbrev pub Yields : {A : Type 0} → (A → Type 0) → Result A → Type 0
Yields Q (ok a) = Q a
Yields Q (raised e) = Unit

pub record Returns {S A : Type 0} (Q : A → Type 0) (m : Exec S A) : Type 0 where
  pub at : (s : S) → Yields Q (m s).0

any-Yields : {A : Type 0} (r : Result A) → Yields (λ a. Unit) r
any-Yields (ok a) = tt
any-Yields (raised e) = tt

-- What holds of every value holds of the one returned.
pub Returns-any : {S A : Type 0} (m : Exec S A) → Returns (λ a. Unit) m
Returns-any m = record { at = λ s. any-Yields (m s).0 }

module _ {S A B : Type 0} {R : A → Type 0} {Q : B → Type 0} where
  proceed-Yields :
      (r : Result A) (rest : A → Exec S B) (s : S)
      → Yields R r
      → ((a : A) → R a → Returns Q (rest a))
      → Yields Q (proceed r rest s).0
  proceed-Yields (ok a) rest s y each = (each a y).at s
  proceed-Yields (raised e) rest s y each = tt

  pub Returns-bind :
      (m : Exec S A) (rest : A → Exec S B)
      → Returns R m
      → ((a : A) → R a → Returns Q (rest a))
      → Returns Q (m >>= rest)
  unfolding ◌>>=◌
  Returns-bind m rest first each = record {
    at = λ s. proceed-Yields (m s).0 rest (m s).1 (first.at s) each;
  }

module _ {S : Type 0} where
  pub Returns-pure :
      {A : Type 0} {Q : A → Type 0} (a : A) → Q a → Returns {S = S} Q (answer (λ s. ok a))
  unfolding answer
  Returns-pure a q = record { at = λ s. q }

  pub Returns-branch :
      {A : Type 0} {Q : A → Type 0} (test : Bool) (m n : Exec S A)
      → (test ≡ true → Returns Q m)
      → (test ≡ false → Returns Q n)
      → Returns Q (if test then m else n)
  Returns-branch true m n left right = left refl
  Returns-branch false m n left right = right refl

-- A postcondition of what an action returns, where nothing but a cancellation is raised.
abbrev pub OrCancelled : {A : Type 0} → (A → Type 0) → Result A → Type 0
OrCancelled Q (ok a) = Q a
OrCancelled Q (raised e) = e ≡ cancelled

pub record Settles {S A : Type 0} (Q : A → Type 0) (m : Exec S A) : Type 0 where
  pub at : (s : S) → OrCancelled Q (m s).0

module _ {S A B : Type 0} {R : A → Type 0} {Q : B → Type 0} where
  proceed-OrCancelled :
      (r : Result A) (rest : A → Exec S B) (s : S)
      → OrCancelled R r
      → ((a : A) → R a → Settles Q (rest a))
      → OrCancelled Q (proceed r rest s).0
  proceed-OrCancelled (ok a) rest s y each = (each a y).at s
  proceed-OrCancelled (raised e) rest s y each = y

  pub Settles-bind :
      (m : Exec S A) (rest : A → Exec S B)
      → Settles R m
      → ((a : A) → R a → Settles Q (rest a))
      → Settles Q (m >>= rest)
  unfolding ◌>>=◌
  Settles-bind m rest first each = record {
    at = λ s. proceed-OrCancelled (m s).0 rest (m s).1 (first.at s) each;
  }

pub Settles-pure :
    {S A : Type 0} {Q : A → Type 0} (a : A) → Q a → Settles {S = S} Q (answer (λ s. ok a))
unfolding answer
Settles-pure a q = record { at = λ s. q }

OrCancelled-Yields : {A : Type 0} (Q : A → Type 0) (r : Result A) → OrCancelled Q r → Yields Q r
OrCancelled-Yields Q (ok a) h = h
OrCancelled-Yields Q (raised e) h = tt

pub Settles-Returns : {S A : Type 0} {Q : A → Type 0} (m : Exec S A) → Settles Q m → Returns Q m
Settles-Returns {Q = Q} m h = record { at = λ s. OrCancelled-Yields Q (m s).0 (h.at s) }

-- A postcondition of an optional value.
abbrev pub Given : {A : Type 0} → (A → Type 0) → Option A → Type 0
Given Q none = Unit
Given Q (some a) = Q a

-- `try … except Exception` lets only a cancellation through.
pub attempted-OrCancelled :
    {A : Type 0} (Q : A → Type 0) (r : Result A) → Yields Q r → OrCancelled (Given Q) (attempted r)
attempted-OrCancelled Q (ok a) h = h
attempted-OrCancelled Q (raised (failure message)) h = tt
attempted-OrCancelled Q (raised infrastructure) h = tt
attempted-OrCancelled Q (raised cancelled) h = refl
