-- ===== src/Base/Actions.antt =====
-- Python code that changes a state and may raise: an action.
use mathlib.Core.Path.{◌≡◌, refl}
use mathlib.Core.Option.{Option, none, some}

-- The exceptions that the modelled code raises.
pub data Error : Type 0 where
  value_error runtime_error os_error key_error type_error struct_error index_error : Error
  fatal_halt_error : Error
  -- not of the program: a model that recurs on fuel has none left
  out_of_fuel : Error

pub data Result (A : Type 0) : Type 0 where
  ok : A → Result A
  err : Error → Result A

abbrev pub Exec : Type 0 → Type 0 → Type 0
Exec W A = W → Result A × W

abbrev pub proceed : {W A B : Type 0} → Result A × W → (A → Exec W B) → Result B × W
proceed (ok a, w) f = f a w
proceed (err e, w) f = (err e, w)

-- A run that returned `a`.
pub proceed-ok :
    {W A B : Type 0} (r : Result A × W) (f : A → Exec W B) (a : A)
    → r.0 ≡ ok a
    → proceed r f ≡ f a r.1
proceed-ok (x, w) f a e = rw e refl

infixl 5 ◌>>=◌ ◌>>◌
unfoldable pub ◌>>=◌ : {W A B : Type 0} → Exec W A → (A → Exec W B) → Exec W B
◌>>=◌ m f w = proceed (m w) f

abbrev pub ◌>>◌ : {W B : Type 0} → Exec W (Unit {0}) → Exec W B → Exec W B
m >> n = m >>= λ _. n

unfoldable pub pure : {W A : Type 0} → A → Exec W A
pure a w = (ok a, w)

unfoldable pub raise : {W A : Type 0} → Error → Exec W A
raise e w = (err e, w)

-- A native call that fails raises `e`.
unfoldable pub or_raise : {W A : Type 0} → Option A → Error → Exec W A
or_raise none e w = (err e, w)
or_raise (some a) e w = (ok a, w)
