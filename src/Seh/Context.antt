-- ===== src/Seh/Context.antt =====
-- The CONTEXT of an exception: write_context and apply_context of tew/kernel/seh.py.
use tew.Base.{
  ℕ, ◌+◌, ◌^◌, ◌≤◌, ◌<◌, ◌≡◌, refl, ap, ◌∙◌, some, All, AllPairs, Result, ok, ◌>>=◌, or_raise,
  arith,
}
use tew.State.{Buffer}
use tew.State.Native.{Native}
use tew.Machine.{mask32, read32, get_memory}
use tew.Seh.{
  GuestThread, get_thread, change, in_world, set_esp, set_eip, load32, words_from, context_fields,
  write_context, apply_context,
}
use tew.Seh.Cells.{
  IsWordMemory, Apart, Fits, with_memory, store_all_lem, Ascends-Apart, words_from-Fits,
}

-- The registers that a CONTEXT has.
pub record SameRegs {N : Type 0} (t u : GuestThread N) : Type 0 where
  pub edi : u.edi ≡ t.edi
  pub esi : u.esi ≡ t.esi
  pub ebx : u.ebx ≡ t.ebx
  pub edx : u.edx ≡ t.edx
  pub ecx : u.ecx ≡ t.ecx
  pub eax : u.world.cpu.eax ≡ t.world.cpu.eax
  pub ebp : u.ebp ≡ t.ebp
  pub eip : u.world.cpu.eip ≡ t.world.cpu.eip
  pub eflags : u.eflags ≡ t.eflags
  pub esp : u.world.cpu.esp ≡ t.world.cpu.esp

-- Registers of 32 bits.
pub record AreWords {N : Type 0} (t : GuestThread N) : Type 0 where
  pub edi : t.edi < 2 ^ 32
  pub esi : t.esi < 2 ^ 32
  pub ebx : t.ebx < 2 ^ 32
  pub edx : t.edx < 2 ^ 32
  pub ecx : t.ecx < 2 ^ 32
  pub eax : t.world.cpu.eax < 2 ^ 32
  pub ebp : t.ebp < 2 ^ 32
  pub eip : t.world.cpu.eip < 2 ^ 32
  pub eflags : t.eflags < 2 ^ 32
  pub esp : t.world.cpu.esp < 2 ^ 32

context_fields-Apart :
    {N : Type 0} (addr : ℕ) (t : GuestThread N) → AllPairs Apart (context_fields addr t)
context_fields-Apart addr t = Ascends-Apart addr (context_fields addr t) (omega arith)

context_fields-Fits :
    {N : Type 0} (addr size : ℕ) (t : GuestThread N)
    → addr + 0x2CC ≤ size
    → size ≤ 2 ^ 32
    → All (Fits size) (context_fields addr t)
context_fields-Fits addr size t room small = omega arith

twice : (v : ℕ) → v < 2 ^ 32 → mask32 (mask32 v) ≡ v
twice v h = omega arith

module _ {N : Type 0} ⦃lib : Native N⦄ (laws : IsWordMemory lib) (addr : ℕ) (t : GuestThread N)
    (room : addr + 0x2CC ≤ t.world.memory.size) (small : t.world.memory.size ≤ 2 ^ 32) where
  -- The memory that the CONTEXT is written to.
  written_context :
      (b : Buffer) × (write_context addr t ≡ (ok tt, with_memory b t))
      × All (λ x. lib.mem_read32 b x.0 ≡ some (mask32 x.1)) (context_fields addr t)
  unfolding write_context get_thread ◌>>=◌
  written_context =
      let zeros =
        store_all_lem laws (words_from addr 179) t
          (words_from-Fits t.world.memory.size addr 179 (omega arith) small) in
      let fields =
        store_all_lem laws (context_fields addr t) (with_memory zeros.0 t)
          (rw (zeros.1.size) (context_fields-Fits addr t.world.memory.size t room small)) in
      (fields.0, rw (zeros.1.run, fields.1.run) refl, fields.1.cells (context_fields-Apart addr t))

  context_word :
      (u : GuestThread N) (b : Buffer) (k v : ℕ)
      → k < 0x2CC
      → u.world.memory ≡ b
      → lib.mem_read32 b (addr + k) ≡ some v
      → lib.mem_read32 u.world.memory (mask32 (addr + k)) ≡ some v
  context_word u b k v inside same cell =
      let plain : mask32 (addr + k) ≡ addr + k = omega arith in rw (same, plain) cell

  restored :
      (u : GuestThread N) (b : Buffer)
      → u.world.memory ≡ b
      → All (λ x. lib.mem_read32 b x.0 ≡ some (mask32 x.1)) (context_fields addr t)
      → AreWords t
      → ((apply_context addr u).0 ≡ ok tt) × SameRegs t (apply_context addr u).1
  unfolding apply_context load32 in_world read32 get_memory or_raise change set_eip set_esp ◌>>=◌
  restored u b same cells words =
      let edi = context_word u b 0x9C _ (omega arith) same cells.1.0 in
      let esi = context_word u b 0xA0 _ (omega arith) same cells.1.1.0 in
      let ebx = context_word u b 0xA4 _ (omega arith) same cells.1.1.1.0 in
      let edx = context_word u b 0xA8 _ (omega arith) same cells.1.1.1.1.0 in
      let ecx = context_word u b 0xAC _ (omega arith) same cells.1.1.1.1.1.0 in
      let eax = context_word u b 0xB0 _ (omega arith) same cells.1.1.1.1.1.1.0 in
      let ebp = context_word u b 0xB4 _ (omega arith) same cells.1.1.1.1.1.1.1.0 in
      let eip = context_word u b 0xB8 _ (omega arith) same cells.1.1.1.1.1.1.1.1.0 in
      let eflags = context_word u b 0xC0 _ (omega arith) same cells.1.1.1.1.1.1.1.1.1.0 in
      let esp = context_word u b 0xC4 _ (omega arith) same cells.1.1.1.1.1.1.1.1.1.1.0 in
      rw (edi, esi, ebx, edx, ecx, eax, ebp, eip, eflags, esp)
        (
          refl,
          record {
            edi = twice _ words.edi;
            esi = twice _ words.esi;
            ebx = twice _ words.ebx;
            edx = twice _ words.edx;
            ecx = twice _ words.ecx;
            eax = twice _ words.eax;
            ebp = twice _ words.ebp;
            eip = twice _ words.eip;
            eflags = twice _ words.eflags;
            esp = twice _ words.esp;
          },
        )

  -- In memory with room for a CONTEXT, writing it succeeds; and a thread `u` with the memory that this
  -- leaves, whatever its registers are, has the registers of the writer after it applied the CONTEXT.
  pub apply_context-write_context :
      AreWords t
      → (u : GuestThread N) → u.world.memory ≡ (write_context addr t).1.world.memory
      → ((write_context addr t).0 ≡ ok tt)
        × ((apply_context addr u).0 ≡ ok tt)
        × SameRegs t (apply_context addr u).1
  apply_context-write_context words u same =
      let w = written_context in
      let r =
        restored u w.0 (same ∙ ap (λ (x : Result (Unit {0}) × GuestThread N). x.1.world.memory) w.1)
          w.2 words in
      (ap (λ (x : Result (Unit {0}) × GuestThread N). x.0) w.1, r.0, r.1)
