-- ===== src/Machine/Returns.antt =====
-- What the beginning and the end of a handler leave alone: reading an argument, and the stdcall return.
use tew.Base.{ℕ, ◌+◌, ◌≡◌, refl, inl, inr, Option-cases, Result, ok, ◌>>=◌, or_raise}
use tew.State.{World, last_error_addr}
use tew.State.Native.{Native}
use tew.Machine.{
  mask32, get_cpu, put_cpu, get_memory, put_memory, set_eax, set_last_error, read32, write32, arg,
  cleanup_stdcall, return_stdcall, fail_stdcall,
}

-- From `w` to `u` only the registers and the memory may have changed.
pub record Same {N : Type 0} (w u : World N) : Type 0 where
  pub state : u.state ≡ w.state
  pub native : u.native ≡ w.native

module _ {N : Type 0} ⦃lib : Native N⦄ where
  read32-world : (addr : ℕ) (w : World N) → (read32 addr w).1 ≡ w
  unfolding read32 get_memory or_raise ◌>>=◌
  read32-world addr w = elim (Option-cases (lib.mem_read32 w.memory (mask32 addr))) [
    | inl e ↦ rw (e, read32) refl
    | inr (v, e) ↦ rw (e, read32) refl
  ]

  -- An argument that can be read.
  pub arg_read : (n a : ℕ) (w : World N) → (arg n w).0 ≡ ok a → arg n w ≡ (ok a, w)
  unfolding arg get_cpu ◌>>=◌
  arg_read n a w e = both (arg n w) e (read32-world (mask32 (w.cpu.esp + n)) w)
    where
      both : (r : Result ℕ × World N) → r.0 ≡ ok a → r.1 ≡ w → r ≡ (ok a, w)
      both (x, u) ex eu = rw (ex, eu) refl

  cleanup_stdcall-Same : (n : ℕ) (w : World N) → Same w (cleanup_stdcall n w).1
  unfolding cleanup_stdcall get_cpu get_memory or_raise put_cpu put_memory ◌>>=◌
  cleanup_stdcall-Same n w = elim (Option-cases (lib.stdcall_cleanup w.cpu w.memory n)) [
    | inl e ↦ rw (e, cleanup_stdcall) (record { state = refl; native = refl })
    | inr (r, e) ↦ rw (e, cleanup_stdcall) (record { state = refl; native = refl })
  ]

  pub return_stdcall-Same : (v n : ℕ) (w : World N) → Same w (return_stdcall v n w).1
  unfolding return_stdcall set_eax ◌>>=◌
  return_stdcall-Same v n w =
      let s = cleanup_stdcall-Same n (set_eax v w).1 in
      record { state = s.state; native = s.native }

  pub fail_stdcall-Same : (e v n : ℕ) (w : World N) → Same w (fail_stdcall e v n w).1
  unfolding fail_stdcall set_last_error write32 get_memory or_raise put_memory ◌>>=◌
  fail_stdcall-Same e v n w =
      elim (Option-cases (lib.mem_write32 w.memory (mask32 last_error_addr) (mask32 e))) [
        | inl gone ↦ rw (gone, fail_stdcall) (record { state = refl; native = refl })
        | inr (b, there) ↦
            rw (there, fail_stdcall)
              (let s = return_stdcall-Same v n (record w { memory = b }) in
                record { state = s.state; native = s.native })
      ]
