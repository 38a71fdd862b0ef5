-- ===== src/Machine/Keeps.antt =====
-- Invariants of actions, one rule for each way to build an action. An invariant is a predicate of
-- the Python-side state, so what touches only registers, memory or native state keeps all of them.
use tew.Base.{
  ℕ, ◌≡◌, refl, Bool, true, false, if◌then◌else◌, Option, none, some, List, Error, Result, ok, err,
  ◌>>=◌, pure, raise, or_raise,
}
use tew.State.{World, Cpu, Buffer, CrtState}
use tew.State.Native.{Native}
use tew.Machine.{
  Action, on_option, when, get_state, get_native, put_native, get_cpu, put_cpu, get_memory,
  put_memory, set_eax, fatal_halt, read32, read8, write32, write8, load, read_bytes, arg,
  cleanup_stdcall, set_last_error, return_stdcall, fail_stdcall, current_thread_id, unblock_handle,
}

-- `m` keeps `P`, whether it returns or raises.
pub record Keeps {N A : Type 0} (P : CrtState → Type 0) (m : Action N A) : Type 0 where
  pub at : (w : World N) → P w.state → P (m w).1.state

module _ {N A : Type 0} {P : CrtState → Type 0} where
  pub Keeps-pure : (a : A) → Keeps P (pure {W = World N} a)
  unfolding pure
  Keeps-pure a = record { at = λ w h. h }

  pub Keeps-raise : (e : Error) → Keeps P (raise {W = World N} {A = A} e)
  unfolding raise
  Keeps-raise e = record { at = λ w h. h }

  pub Keeps-or_raise : (o : Option A) (e : Error) → Keeps P (or_raise {W = World N} o e)
  unfolding or_raise
  Keeps-or_raise none e = record { at = λ w h. h }
  Keeps-or_raise (some a) e = record { at = λ w h. h }

  pub Keeps-if :
      (test : Bool) (first second : Action N A)
      → (test ≡ true → Keeps P first)
      → (test ≡ false → Keeps P second)
      → Keeps P (if test then first else second)
  Keeps-if true first second on_true on_false = on_true refl
  Keeps-if false first second on_true on_false = on_false refl

  pub Keeps-on_option :
      {B : Type 0} (o : Option B) (m : Action N A) (f : B → Action N A)
      → (o ≡ none → Keeps P m)
      → ((b : B) → o ≡ some b → Keeps P (f b))
      → Keeps P (on_option o m f)
  Keeps-on_option none m f km kf = km refl
  Keeps-on_option (some b) m f km kf = kf b refl

module _ {N : Type 0} {P : CrtState → Type 0} where
  pub Keeps-when :
      (b : Bool) (m : Action N (Unit {0})) → (b ≡ true → Keeps P m) → Keeps P (when b m)
  Keeps-when true m km = km refl
  Keeps-when false m km = Keeps-pure tt

module _ {N A B : Type 0} {P : CrtState → Type 0} where
  Keeps-proceed :
      (r : Result A × World N) (next : A → Action N B)
      → P r.1.state
      → ((a : A) → Keeps P (next a))
      → P (◌>>=◌ (λ _. r) next (r.1)).1.state
  unfolding ◌>>=◌
  Keeps-proceed (ok a, w) next kept rest = (rest a).at w kept
  Keeps-proceed (err e, w) next kept rest = kept

  pub Keeps-bind :
      (m : Action N A) (next : A → Action N B)
      → Keeps P m
      → ((a : A) → Keeps P (next a))
      → Keeps P (m >>= next)
  unfolding ◌>>=◌
  Keeps-bind m next first rest = record {
    at = λ w kept. Keeps-proceed (m w) next (first.at w kept) rest;
  }

module _ {N A B : Type 0} {P : CrtState → Type 0} where
  -- What follows a native call may use that it did not fail.
  pub Keeps-bind-or_raise :
      (o : Option A) (e : Error) (f : A → Action N B)
      → ((a : A) → o ≡ some a → Keeps P (f a))
      → Keeps P (or_raise o e >>= f)
  unfolding ◌>>=◌ or_raise
  Keeps-bind-or_raise none e f kf = record { at = λ w h. h }
  Keeps-bind-or_raise (some a) e f kf = kf a refl

module _ {N B : Type 0} {P : CrtState → Type 0} where
  -- The state that is read satisfies the invariant.
  pub Keeps-with_state :
      (f : CrtState → Action N B)
      → ((s : CrtState) → P s → Keeps P (f s))
      → Keeps P (get_state >>= f)
  unfolding ◌>>=◌ get_state
  Keeps-with_state f kf = record { at = λ w h. (kf w.state h).at w h }

module _ {N : Type 0} {P : CrtState → Type 0} where
  pub Keeps-get_native : Keeps P (get_native {N = N})
  unfolding get_native
  Keeps-get_native = record { at = λ w h. h }

  pub Keeps-put_native : (n : N) → Keeps P (put_native n)
  unfolding put_native
  Keeps-put_native n = record { at = λ w h. h }

  pub Keeps-get_cpu : Keeps P (get_cpu {N = N})
  unfolding get_cpu
  Keeps-get_cpu = record { at = λ w h. h }

  pub Keeps-put_cpu : (c : Cpu) → Keeps P (put_cpu {N = N} c)
  unfolding put_cpu
  Keeps-put_cpu c = record { at = λ w h. h }

  pub Keeps-get_memory : Keeps P (get_memory {N = N})
  unfolding get_memory
  Keeps-get_memory = record { at = λ w h. h }

  pub Keeps-put_memory : (b : Buffer) → Keeps P (put_memory {N = N} b)
  unfolding put_memory
  Keeps-put_memory b = record { at = λ w h. h }

  pub Keeps-set_eax : (v : ℕ) → Keeps P (set_eax {N = N} v)
  unfolding set_eax
  Keeps-set_eax v = record { at = λ w h. h }

  pub Keeps-fatal_halt : Keeps P (fatal_halt {N = N})
  unfolding fatal_halt
  Keeps-fatal_halt = record { at = λ w h. h }

pub ruleset primitive_rules = (
  Keeps-pure, Keeps-raise, Keeps-or_raise, Keeps-if, Keeps-on_option, Keeps-when,
  Keeps-bind-or_raise, Keeps-bind, Keeps-get_native, Keeps-put_native, Keeps-get_cpu, Keeps-put_cpu,
  Keeps-get_memory, Keeps-put_memory, Keeps-set_eax, Keeps-fatal_halt, Keeps-with_state,
)

module _ {N : Type 0} {P : CrtState → Type 0} ⦃lib : Native N⦄ where
  pub Keeps-read32 : (a : ℕ) → Keeps P (read32 {N = N} a)
  unfolding read32
  Keeps-read32 a = search primitive_rules

  pub Keeps-read8 : (a : ℕ) → Keeps P (read8 {N = N} a)
  unfolding read8
  Keeps-read8 a = search primitive_rules

  pub Keeps-write32 : (a v : ℕ) → Keeps P (write32 {N = N} a v)
  unfolding write32
  Keeps-write32 a v = search primitive_rules

  pub Keeps-write8 : (a v : ℕ) → Keeps P (write8 {N = N} a v)
  unfolding write8
  Keeps-write8 a v = search primitive_rules

  pub Keeps-load : (a : ℕ) (l : List ℕ) → Keeps P (load {N = N} a l)
  unfolding load
  Keeps-load a l = search primitive_rules

  pub Keeps-read_bytes : (a n : ℕ) → Keeps P (read_bytes {N = N} a n)
  unfolding read_bytes
  Keeps-read_bytes a n = search primitive_rules

  pub Keeps-arg : (n : ℕ) → Keeps P (arg {N = N} n)
  unfolding arg
  Keeps-arg n = search (primitive_rules, Keeps-read32)

  pub Keeps-cleanup_stdcall : (n : ℕ) → Keeps P (cleanup_stdcall {N = N} n)
  unfolding cleanup_stdcall
  Keeps-cleanup_stdcall n = search primitive_rules

  pub Keeps-set_last_error : (e : ℕ) → Keeps P (set_last_error {N = N} e)
  unfolding set_last_error
  Keeps-set_last_error e = search (primitive_rules, Keeps-write32)

  pub Keeps-return_stdcall : (v n : ℕ) → Keeps P (return_stdcall {N = N} v n)
  unfolding return_stdcall
  Keeps-return_stdcall v n = search (primitive_rules, Keeps-cleanup_stdcall)

  pub Keeps-fail_stdcall : (e v n : ℕ) → Keeps P (fail_stdcall {N = N} e v n)
  unfolding fail_stdcall
  Keeps-fail_stdcall e v n = search (primitive_rules, Keeps-set_last_error, Keeps-return_stdcall)

  pub Keeps-current_thread_id : Keeps P (current_thread_id {N = N})
  unfolding current_thread_id
  Keeps-current_thread_id = search primitive_rules

  pub Keeps-unblock_handle : (h : ℕ) → Keeps P (unblock_handle {N = N} h)
  unfolding unblock_handle
  Keeps-unblock_handle h = search primitive_rules

pub ruleset keeps_rules = (
  primitive_rules, Keeps-read32, Keeps-read8, Keeps-write32, Keeps-write8, Keeps-load,
  Keeps-read_bytes, Keeps-arg, Keeps-cleanup_stdcall, Keeps-set_last_error, Keeps-return_stdcall,
  Keeps-fail_stdcall, Keeps-current_thread_id, Keeps-unblock_handle,
)
