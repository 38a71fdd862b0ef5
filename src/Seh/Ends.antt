-- ===== src/Seh/Ends.antt =====
-- Rules on how actions of tew/kernel/seh.py end: a result with a property, or an exception of the program.
use tew.Base.{
  ℕ, ◌<◌, ◌≡◌, ◌≢◌, refl, Bool, true, false, if◌then◌else◌, Option-cases, some, List, [], ◌∷◌, inl,
  inr, Result, ok, err, out_of_fuel, ◌>>=◌, pure, or_raise, proceed,
}
use tew.State.{Buffer}
use tew.State.Native.{Native}
use tew.Machine.{
  read32, write32, get_memory, put_memory, get_cpu, put_cpu, set_eax, cleanup_stdcall, fatal_halt,
  mask32,
}
use tew.Seh.{
  GuestThread, Seh, get_thread, change, in_world, set_esp, set_eip, load32, store32, store_all,
}

abbrev pub Fine : {A : Type 0} → (A → Type 0) → Result A → Type 0
Fine Q (ok a) = Q a
Fine Q (err e) = e ≢ out_of_fuel

abbrev pub Any : {A : Type 0} → A → Type 0
Any a = Unit

pub record Ends {N A : Type 0} (Q : A → Type 0) (m : Seh N A) : Type 0 where
  pub at : (t : GuestThread N) → Fine Q (m t).0

module _ {N A : Type 0} where
  pub Ends-pure : (a : A) → Ends Any (pure {W = GuestThread N} a)
  unfolding pure
  Ends-pure a = record { at = λ t. tt }

  pub Ends-value : {Q : A → Type 0} (a : A) → Q a → Ends Q (pure {W = GuestThread N} a)
  unfolding pure
  Ends-value a h = record { at = λ t. h }

  pub Ends-if :
      {Q : A → Type 0} (test : Bool) (first second : Seh N A)
      → (test ≡ true → Ends Q first)
      → (test ≡ false → Ends Q second)
      → Ends Q (if test then first else second)
  Ends-if true first second yes' no' = yes' refl
  Ends-if false first second yes' no' = no' refl

module _ {N A B : Type 0} {Q : A → Type 0} {R : B → Type 0} where
  Fine-proceed :
      (r : Result A) (t : GuestThread N) (next : A → Seh N B)
      → Fine Q r
      → ((a : A) → Q a → Ends R (next a))
      → Fine R (proceed (r, t) next).0
  Fine-proceed (ok a) t next h rest = (rest a h).at t
  Fine-proceed (err e) t next h rest = h

  pub Ends-after :
      (m : Seh N A) (next : A → Seh N B)
      → Ends Q m
      → ((a : A) → Q a → Ends R (next a))
      → Ends R (m >>= next)
  unfolding ◌>>=◌
  Ends-after m next first rest = record {
    at = λ t. Fine-proceed (m t).0 (m t).1 next (first.at t) rest;
  }

module _ {N A B : Type 0} {R : B → Type 0} where
  pub Ends-bind :
      (m : Seh N A) (next : A → Seh N B)
      → Ends Any m
      → ((a : A) → Ends R (next a))
      → Ends R (m >>= next)
  Ends-bind m next first rest = Ends-after m next first (λ a h. rest a)

module _ {N : Type 0} where
  pub Ends-get_thread : Ends Any (get_thread {N = N})
  unfolding get_thread
  Ends-get_thread = record { at = λ t. tt }

  pub Ends-change : (f : GuestThread N → GuestThread N) → Ends Any (change f)
  unfolding change
  Ends-change f = record { at = λ t. tt }

  pub Ends-set_esp : (v : ℕ) → Ends Any (set_esp {N = N} v)
  unfolding set_esp
  Ends-set_esp v = record { at = λ t. tt }

  pub Ends-set_eip : (v : ℕ) → Ends Any (set_eip {N = N} v)
  unfolding set_eip
  Ends-set_eip v = record { at = λ t. tt }

  pub Ends-set_eax : (v : ℕ) → Ends Any (in_world (set_eax {N = N} v))
  unfolding in_world set_eax
  Ends-set_eax v = record { at = λ t. tt }

  pub Ends-fatal_halt : Ends Any (in_world (fatal_halt {N = N}))
  unfolding in_world fatal_halt
  Ends-fatal_halt = record { at = λ t. tt }

-- What libcpu.so reads is a 32-bit word, below `top` = 2 ** 32.
module _ {N : Type 0} ⦃lib : Native N⦄ where
  pub Ends-load32_below :
      (top : ℕ)
      → ((b : Buffer) (a v : ℕ) → lib.mem_read32 b a ≡ some v → v < top)
      → (a : ℕ) → Ends {N = N} (λ v. v < top) (load32 a)
  unfolding load32 in_world read32 get_memory or_raise ◌>>=◌
  Ends-load32_below top words a = record {
    at = λ t. elim (Option-cases (lib.mem_read32 t.world.memory (mask32 a))) [
      | inl e ↦ rw e (λ h. cc h)
      | inr (v, e) ↦ rw e (words t.world.memory (mask32 a) v e)
    ];
  }

  pub Ends-load32 : (a : ℕ) → Ends {N = N} Any (load32 a)
  unfolding load32 in_world read32 get_memory or_raise ◌>>=◌
  Ends-load32 a = record {
    at = λ t. elim (Option-cases (lib.mem_read32 t.world.memory (mask32 a))) [
      | inl e ↦ rw e (λ h. cc h)
      | inr (v, e) ↦ rw e tt
    ];
  }

  pub Ends-store32 : (a v : ℕ) → Ends {N = N} Any (store32 a v)
  unfolding store32 in_world write32 get_memory or_raise ◌>>=◌ put_memory
  Ends-store32 a v = record {
    at = λ t. elim (Option-cases (lib.mem_write32 t.world.memory (mask32 a) (mask32 v))) [
      | inl e ↦ rw e (λ h. cc h)
      | inr (b, e) ↦ rw e tt
    ];
  }

  pub Ends-cleanup : (n : ℕ) → Ends {N = N} Any (in_world (cleanup_stdcall n))
  unfolding in_world cleanup_stdcall get_memory get_cpu or_raise ◌>>=◌ put_memory put_cpu
  Ends-cleanup n = record {
    at = λ t. elim (Option-cases (lib.stdcall_cleanup t.world.cpu t.world.memory n)) [
      | inl e ↦ rw e (λ h. cc h)
      | inr (r, e) ↦ rw e tt
    ];
  }

  pub Ends-store_all : (ws : List (ℕ × ℕ)) → Ends {N = N} Any (store_all ws)
  unfolding store_all
  Ends-store_all [] = Ends-pure tt
  Ends-store_all ((a, v) ∷ ws) =
      Ends-bind (store32 a v) (λ u. store_all ws) (Ends-store32 a v) (λ u. Ends-store_all ws)

pub ruleset ends_rules = (
  Ends-pure, Ends-bind, Ends-if, Ends-get_thread, Ends-change, Ends-set_esp, Ends-set_eip,
  Ends-set_eax, Ends-fatal_halt, Ends-load32, Ends-store32, Ends-cleanup, Ends-store_all,
)
