-- ===== src/Prelude/World.antt =====
-- A component's own state beside a world that the code it calls acts on.
use mathlib.Core.Path.{◌≡◌, refl}
use mathlib.Core.Option.{Option, none, some}
use data_engineer.Prelude.Exec.{
  Exec, Result, ok, raised, Keeps, Gives, Holds, failure, infrastructure, cancelled,
}

pub record With (L W : Type 0) : Type 0 where
  pub own : L
  pub world : W

abbrev pub attempted : {A : Type 0} → Result A → Result (Option A)
attempted (ok a) = ok (some a)
attempted (raised cancelled) = raised cancelled
attempted (raised (failure message)) = ok none
attempted (raised infrastructure) = ok none

module _ {L W : Type 0} where
  abbrev pub on_own : (L → L) → With L W → With L W
  on_own f s = record s { own = f s.own }

  unfoldable pub outside : {A : Type 0} → Exec W A → Exec (With L W) A
  outside m s = let (r, w) = m s.world in (r, record s { world = w })

  -- `try … except Exception`: the exception, if it is one that `except Exception` catches.
  unfoldable pub attempt : {A : Type 0} → Exec W A → Exec (With L W) (Option A)
  attempt m s = let (r, w) = m s.world in (attempted r, record s { world = w })

-- What the outside action returned in some world.
abbrev pub Returned : {W A : Type 0} → Exec W A → A → Type 0
Returned {W = W} m a = (w : W) × ((m w).0 ≡ ok a)

module _ {L W A : Type 0} where
  outside-Returned :
      (P : L → Type 0) (m : Exec W A) (r : Result A) (w : W) (s : With L W)
      → (m s.world).0 ≡ r
      → P s.own
      → Holds {S = With L W} (λ a t. P t.own × Returned m a) (r, record s { world = w })
  outside-Returned P m (ok a) w s e h = (h, (s.world, e))
  outside-Returned P m (raised x) w s e h = tt

  -- A call outside leaves the component's state, and what it returns is an answer of the callee.
  pub Gives-outside :
      (P : L → Type 0) (m : Exec W A)
      → Gives (λ s. P s.own) (outside m) (λ a s. P s.own × Returned m a)
  unfolding outside
  Gives-outside P m = record {
    at = λ s h. outside-Returned P m (m s.world).0 (m s.world).1 s refl h;
  }

  pub Keeps-outside : (P : L → Type 0) (m : Exec W A) → Keeps (λ s. P s.own) (outside m)
  unfolding outside
  Keeps-outside P m = record { at = λ s h. h }
