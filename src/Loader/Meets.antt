-- ===== src/Loader/Meets.antt =====
-- Rules on what loading keeps, one for each way to build it.
use tew.Base.{
  ◌≡◌, refl, Bool, true, false, if◌then◌else◌, Option, none, some, Result, ok, err, Error,
  fatal_halt_error, out_of_fuel, value_error, runtime_error, os_error, key_error, type_error,
  struct_error, index_error, ◌>>=◌, pure, raise, or_raise,
}
use tew.Loader.{LoaderState}
use tew.Loader.Images.{Process, Load, on_found, get_loader, put_loader, attempt, or_none}

abbrev pub Raises : {A : Type 0} → (Error → Type 0) → Result A → Type 0
Raises R (ok a) = Unit
Raises R (err e) = R e

-- `m` keeps `P` of the loader's state however it ends, and raises only what `R` allows.
pub record Meets {N A : Type 0} (R : Error → Type 0) (P : LoaderState → Type 0) (m : Load N A)
    : Type 0 where
  pub at : (p : Process N) → P p.loader → Raises R (m p).0 × P ((m p).1.loader)

module _ {N A : Type 0} {R : Error → Type 0} {P : LoaderState → Type 0} where
  pub Meets-pure : (a : A) → Meets R P (pure {W = Process N} a)
  unfolding pure
  Meets-pure a = record { at = λ p h. (tt, h) }

  pub Meets-raise : (e : Error) → R e → Meets R P (raise {W = Process N} {A = A} e)
  unfolding raise
  Meets-raise e r = record { at = λ p h. (r, h) }

  pub Meets-if :
      (test : Bool) (first second : Load N A)
      → (test ≡ true → Meets R P first)
      → (test ≡ false → Meets R P second)
      → Meets R P (if test then first else second)
  Meets-if true first second on_true on_false = on_true refl
  Meets-if false first second on_true on_false = on_false refl

  pub Meets-on_found :
      {B : Type 0} (o : Option B) (m : Load N A) (f : B → Load N A)
      → (o ≡ none → Meets R P m)
      → ((b : B) → o ≡ some b → Meets R P (f b))
      → Meets R P (on_found o m f)
  Meets-on_found none m f km kf = km refl
  Meets-on_found (some b) m f km kf = kf b refl

module _ {N A B : Type 0} {R : Error → Type 0} {P : LoaderState → Type 0} where
  Meets-proceed :
      (r : Result A × Process N) (next : A → Load N B)
      → Raises R r.0 × P r.1.loader
      → ((a : A) → Meets R P (next a))
      → Raises R (◌>>=◌ (λ _. r) next (r.1)).0 × P ((◌>>=◌ (λ _. r) next (r.1)).1.loader)
  unfolding ◌>>=◌
  Meets-proceed (ok a, p) next kept rest = (rest a).at p kept.1
  Meets-proceed (err e, p) next kept rest = kept

  pub Meets-bind :
      (m : Load N A) (next : A → Load N B)
      → Meets R P m
      → ((a : A) → Meets R P (next a))
      → Meets R P (m >>= next)
  unfolding ◌>>=◌
  Meets-bind m next first rest = record { at = λ p h. Meets-proceed (m p) next (first.at p h) rest }

  pub Meets-or_raise :
      (o : Option A) (e : Error) (f : A → Load N B)
      → R e
      → ((a : A) → o ≡ some a → Meets R P (f a))
      → Meets R P (or_raise o e >>= f)
  unfolding ◌>>=◌ or_raise
  Meets-or_raise none e f r kf = record { at = λ p h. (r, h) }
  Meets-or_raise (some a) e f r kf = kf a refl

module _ {N B : Type 0} {R : Error → Type 0} {P : LoaderState → Type 0} where
  -- The loader's state that is read satisfies the invariant.
  pub Meets-with_loader :
      (f : LoaderState → Load N B)
      → ((s : LoaderState) → P s → Meets R P (f s))
      → Meets R P (get_loader >>= f)
  unfolding ◌>>=◌ get_loader
  Meets-with_loader f kf = record { at = λ p h. (kf p.loader h).at p h }

module _ {N : Type 0} {R : Error → Type 0} {P : LoaderState → Type 0} where
  pub Meets-put_loader : (s : LoaderState) → P s → Meets R P (put_loader {N = N} s)
  unfolding put_loader
  Meets-put_loader s v = record { at = λ p _. (tt, v) }

  pub Meets-or_none : {A : Type 0} (m : Load N (Option A)) → Meets R P m → Meets R P (attempt m)
  unfolding attempt
  Meets-or_none {A} m h = record { at = λ p v. caught (m p) (h.at p v) }
    where
      caught :
          (r : Result (Option A) × Process N)
          → Raises R r.0 × P r.1.loader
          → Raises R (or_none r).0 × P ((or_none r).1.loader)
      caught (ok a, p) h = h
      caught (err fatal_halt_error, p) h = h
      caught (err out_of_fuel, p) h = h
      caught (err value_error, p) h = (tt, h.1)
      caught (err runtime_error, p) h = (tt, h.1)
      caught (err os_error, p) h = (tt, h.1)
      caught (err key_error, p) h = (tt, h.1)
      caught (err type_error, p) h = (tt, h.1)
      caught (err struct_error, p) h = (tt, h.1)
      caught (err index_error, p) h = (tt, h.1)

  -- A new state, with an invariant that holds from there on.
  pub Meets-enter :
      {A : Type 0} (P' : LoaderState → Type 0)
      → ((s : LoaderState) → P' s → P s)
      → (s : LoaderState) (m : Load N A) → P' s
      → Meets R P' m
      → Meets R P (put_loader s >>= λ _. m)
  unfolding ◌>>=◌ put_loader
  Meets-enter P' weaken s m v h = record {
    at = λ p _. let done = h.at (record p { loader = s }) v in (done.0, weaken _ done.1);
  }
