-- ===== src/Base/Exec/Keeps.antt =====
-- Invariants of actions: an invariant is kept by a block if each of its parts keeps it, whichever of
-- them raise.
use mathlib.Core.Path.{◌≡◌, refl}
use mathlib.Core.Bool.{Bool, true, false}
use mimi_agent.Base.Equality.{if◌then◌else◌}
use mimi_agent.Base.Exec.{
  Error, Result, ok, err, Exec, continue, recover, pure, raise, lift, ◌>>=◌, try_else, modify,
}

-- Where the invariant holds before the action, it holds in the state that the action leaves.
pub record Keeps {ℓ} {World Value : Type ℓ} (Inv : World → Type ℓ) (act : Exec World Value)
    : Type ℓ where
  pub after : (start : World) → Inv start → Inv (act start).1

module _ {ℓ} {World : Type ℓ} {Inv : World → Type ℓ} where
  pub Keeps-modify :
      (change : World → World)
      → ((start : World) → Inv start → Inv (change start))
      → Keeps Inv (modify change)
  unfolding modify
  Keeps-modify change stays = record { after = stays }

  module _ {Value : Type ℓ} where
    pub Keeps-lift : (outcome : Result Value) → Keeps Inv (lift outcome)
    unfolding lift
    Keeps-lift outcome = record { after = λ start holds. holds }

    pub Keeps-raise : (error : Error) → Keeps Inv (raise {A = Value} error)
    unfolding raise
    Keeps-raise error = record { after = λ start holds. holds }

    pub Keeps-pure : (value : Value) → Keeps Inv (pure value)
    unfolding pure
    Keeps-pure value = record { after = λ start holds. holds }

    -- Each branch may use the test that leads to it.
    pub Keeps-if :
        (test : Bool) (yes_act no_act : Exec World Value)
        → (test ≡ true → Keeps Inv yes_act)
        → (test ≡ false → Keeps Inv no_act)
        → Keeps Inv (if test then yes_act else no_act)
    Keeps-if true yes_act no_act on_true on_false = on_true refl
    Keeps-if false yes_act no_act on_true on_false = on_false refl

  module _ {Value Final : Type ℓ} where
    continue-holds :
        (outcome : Result Value) (rest : Value → Exec World Final) (reached : World)
        → ((value : Value) → Keeps Inv (rest value))
        → Inv reached
        → Inv (continue outcome rest reached).1
    continue-holds (ok value) rest reached keep holds = (keep value).after reached holds
    continue-holds (err error) rest reached keep holds = holds

    pub Keeps-bind :
        (first : Exec World Value) (rest : Value → Exec World Final)
        → Keeps Inv first
        → ((value : Value) → Keeps Inv (rest value))
        → Keeps Inv (first >>= rest)
    unfolding ◌>>=◌
    Keeps-bind first rest keep_first keep_rest = record {
      after = λ start holds.
          continue-holds (first start).0 rest (first start).1 keep_rest
            (keep_first.after start holds);
    }

    recover-holds :
        (outcome : Result Value) (rest : Value → Exec World Final)
        (handle : Error → Exec World Final) (reached : World)
        → ((value : Value) → Keeps Inv (rest value))
        → ((error : Error) → Keeps Inv (handle error))
        → Inv reached
        → Inv (recover outcome rest handle reached).1
    recover-holds (ok value) rest handle reached keep caught holds =
        (keep value).after reached holds
    recover-holds (err error) rest handle reached keep caught holds =
        (caught error).after reached holds

    pub Keeps-try_else :
        (first : Exec World Value) (rest : Value → Exec World Final)
        (handle : Error → Exec World Final)
        → Keeps Inv first
        → ((value : Value) → Keeps Inv (rest value))
        → ((error : Error) → Keeps Inv (handle error))
        → Keeps Inv (try_else first rest handle)
    unfolding try_else
    Keeps-try_else first rest handle keep_first keep_rest caught = record {
      after = λ start holds.
          recover-holds (first start).0 rest handle (first start).1 keep_rest caught
            (keep_first.after start holds);
    }
