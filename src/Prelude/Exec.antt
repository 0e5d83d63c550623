-- ===== src/Prelude/Exec.antt =====
-- Actions on a state that may raise an exception. The state comes back in either case, since what
-- an action wrote before the exception stays written.
use Prim.Native.String.{String}
use mathlib.Core.Bool.{Bool, true, false}
use data_engineer.Prelude.Tests.{if◌then◌else◌}

-- The exceptions that some handler tells apart: an ordinary `Exception` with its text, the two
-- infrastructure errors that every handler passes on, and a cancelled task.
pub data Exn : Type 0 where
  failure : String → Exn
  infrastructure : Exn
  cancelled : Exn

pub data Result (A : Type 0) : Type 0 where
  ok : A → Result A
  raised : Exn → Result A

abbrev pub Exec : Type 0 → Type 0 → Type 0
Exec S A = S → Result A × S

-- An action that only looks at the state: what returns a value, raises or passes a result on is one.
unfoldable pub answer : {S A : Type 0} → (S → Result A) → Exec S A
answer view s = (view s, s)

module _ {S A : Type 0} where
  abbrev pub lift : Result A → Exec S A
  lift r = answer (λ s. r)

  abbrev pub raise : Exn → Exec S A
  raise e = lift (raised e)

  abbrev pub pure : A → Exec S A
  pure a = lift (ok a)

  abbrev pub gets : (S → A) → Exec S A
  gets field = answer (λ s. ok (field s))

unfoldable pub modify : {S : Type 0} → (S → S) → Exec S (Unit {0})
modify f s = (ok tt, f s)

module _ {S A B : Type 0} where
  abbrev pub proceed : Result A → (A → Exec S B) → Exec S B
  proceed (ok a) f s = f a s
  proceed (raised e) f s = (raised e, s)

  infixl 10 ◌>>=◌ ◌>>◌
  unfoldable pub ◌>>=◌ : Exec S A → (A → Exec S B) → Exec S B
  ◌>>=◌ m f s = let (r, s') = m s in proceed r f s'

  abbrev pub ◌>>◌ : Exec S A → Exec S B → Exec S B
  m >> n = m >>= λ _. n

-- `try … except Exception`: the text of an ordinary exception, and the others go on.
pub data Caught (A : Type 0) : Type 0 where
  value : A → Caught A
  caught : String → Caught A

abbrev pub catch_result : {A : Type 0} → Result A → Result (Caught A)
catch_result (ok a) = ok (value a)
catch_result (raised (failure message)) = ok (caught message)
catch_result (raised infrastructure) = raised infrastructure
catch_result (raised cancelled) = raised cancelled

unfoldable pub catch : {S A : Type 0} → Exec S A → Exec S (Caught A)
catch m s = let (r, s') = m s in (catch_result r, s')

-- A triple: the action takes a state with `P` to one with `Q`, however it ends.
pub record Leads {S A : Type 0} (P Q : S → Type 0) (m : Exec S A) : Type 0 where
  pub at : (s : S) → P s → Q (m s).1

-- An invariant of the action.
abbrev pub Keeps : {S A : Type 0} → (S → Type 0) → Exec S A → Type 0
Keeps P = Leads P P

module _ {S B : Type 0} {P Q : S → Type 0} where
  -- A write leads over, and the rest keeps.
  pub Leads-modify :
      (write : S → S) (m : Exec S B)
      → ((s : S) → P s → Q (write s))
      → Keeps Q m
      → Leads P Q (modify write >>= λ _. m)
  unfolding ◌>>=◌ modify
  Leads-modify write m over rest = record { at = λ s start. rest.at (write s) (over s start) }

-- The rest of a block leads on from where its first part stopped; `weaken` serves its exceptions.
Leads-proceed :
    {S A B : Type 0} (P Q : S → Type 0) (rest : A → Exec S B) (r : Result A) (s : S)
    → ((s : S) → P s → Q s)
    → ((a : A) → Leads P Q (rest a))
    → P s
    → Q (proceed r rest s).1
Leads-proceed P Q rest (raised e) s weaken leads here = weaken s here
Leads-proceed P Q rest (ok a) s weaken leads here = (leads a).at s here

module _ {S A B : Type 0} {P Q : S → Type 0} where
  -- The first part keeps `P`, and the rest leads on.
  pub Leads-bind :
      (m : Exec S A) (rest : A → Exec S B)
      → ((s : S) → P s → Q s)
      → Keeps P m
      → ((a : A) → Leads P Q (rest a))
      → Leads P Q (m >>= rest)
  unfolding ◌>>=◌
  Leads-bind m rest weaken keeps leads = record {
    at = λ s start. let (r, t) = m s in Leads-proceed P Q rest r t weaken leads (keeps.at s start);
  }

module _ {S A B : Type 0} {P : S → Type 0} where
  pub Keeps-bind :
      (m : Exec S A) (rest : A → Exec S B)
      → Keeps P m
      → ((a : A) → Keeps P (rest a))
      → Keeps P (m >>= rest)
  Keeps-bind m rest = Leads-bind m rest (λ s start. start)

module _ {S : Type 0} {P : S → Type 0} where
  pub Keeps-modify : (write : S → S) → ((s : S) → P s → P (write s)) → Keeps P (modify write)
  unfolding modify
  Keeps-modify write over = record { at = over }

  pub Keeps-answer : {A : Type 0} (view : S → Result A) → Keeps P (answer view)
  unfolding answer
  Keeps-answer view = record { at = λ s start. start }

  pub Keeps-catch : {A : Type 0} (m : Exec S A) → Keeps P m → Keeps P (catch m)
  unfolding catch
  Keeps-catch m inside = record { at = inside.at }

  pub Keeps-branch :
      {A : Type 0} (test : Bool) (m n : Exec S A)
      → Keeps P m
      → Keeps P n
      → Keeps P (if test then m else n)
  Keeps-branch false m n left right = right
  Keeps-branch true m n left right = left

-- A postcondition of the result and the state, for a return.
abbrev pub Holds : {S A : Type 0} → (A → S → Type 0) → Result A × S → Type 0
Holds Q (ok a, s) = Q a s
Holds Q (raised e, s) = Unit

pub record Gives {S A : Type 0} (P : S → Type 0) (m : Exec S A) (Q : A → S → Type 0) : Type 0 where
  pub at : (s : S) → P s → Holds Q (m s)

module _ {S A : Type 0} where
  Keeps-Holds : (P : S → Type 0) (r : Result A) (s : S) → P s → Holds (λ a. P) (r, s)
  Keeps-Holds P (ok a) s h = h
  Keeps-Holds P (raised e) s h = tt

module _ {S A : Type 0} {P : S → Type 0} where
  pub Gives-Keeps : (m : Exec S A) → Keeps P m → Gives P m (λ a. P)
  Gives-Keeps m k = record { at = λ s h. let (r, s') = m s in Keeps-Holds P r s' (k.at s h) }

module _ {S A B : Type 0} {R : A → S → Type 0} {Q : B → S → Type 0} where
  Holds-proceed :
      (r : Result A) (s : S) (f : A → Exec S B)
      → Holds R (r, s)
      → ((a : A) → Gives (R a) (f a) Q)
      → Holds Q (proceed r f s)
  Holds-proceed (ok a) s f h g = (g a).at s h
  Holds-proceed (raised e) s f h g = tt

module _ {S A B : Type 0} {P : S → Type 0} {R : A → S → Type 0} {Q : B → S → Type 0} where
  pub Gives-bind :
      (m : Exec S A) (f : A → Exec S B)
      → Gives P m R
      → ((a : A) → Gives (R a) (f a) Q)
      → Gives P (m >>= f) Q
  unfolding ◌>>=◌
  Gives-bind m f gm gf = record {
    at = λ s h. let (r, s') = m s in Holds-proceed r s' f (gm.at s h) gf;
  }

pub Gives-modify :
    {S : Type 0} {P Q : S → Type 0} (f : S → S)
    → ((s : S) → P s → Q (f s))
    → Gives P (modify f) (λ a. Q)
unfolding modify
Gives-modify f k = record { at = k }

pub ruleset keeps_rules = (Keeps-answer, Keeps-branch, Keeps-bind, Keeps-catch)
