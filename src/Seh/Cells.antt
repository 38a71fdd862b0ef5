-- ===== src/Seh/Cells.antt =====
-- Words stored in guest memory by tew/kernel/seh.py, and read again.
use tew.Base.{
  ℕ, zero, suc, ◌+◌, ◌*◌, ◌^◌, ◌≤◌, ◌<◌, ◌≡◌, ◌⊎◌, inl, inr, refl, ◌∙◌, some, List, [], ◌∷◌, All,
  AllPairs, ok, ◌>>=◌, pure, or_raise, arith,
}
use tew.State.{Buffer}
use tew.State.Native.{Native}
use tew.Machine.{mask32, write32, get_memory, put_memory}
use tew.Seh.{GuestThread, in_world, store32, store_all, words_from}

-- What libcpu.so does with words in the buffer.
pub record IsWordMemory {N : Type 0} (lib : Native N) : Type 0 where
  pub read_written :
      (b b' : Buffer) (a v : ℕ)
      → v < 2 ^ 32
      → lib.mem_write32 b a v ≡ some b'
      → lib.mem_read32 b' a ≡ some v
  pub read_apart :
      (b b' : Buffer) (a c v : ℕ)
      → (a + 4 ≤ c) ⊎ (c + 4 ≤ a)
      → lib.mem_write32 b a v ≡ some b'
      → lib.mem_read32 b' c ≡ lib.mem_read32 b c
  pub written :
      (b : Buffer) (a v : ℕ)
      → a + 4 ≤ b.size
      → (b' : Buffer) × (lib.mem_write32 b a v ≡ some b') × (b'.size ≡ b.size)

abbrev pub Apart : ℕ × ℕ → ℕ × ℕ → Type 0
Apart x y = (x.0 + 4 ≤ y.0) ⊎ (y.0 + 4 ≤ x.0)

abbrev pub Fits : ℕ → ℕ × ℕ → Type 0
Fits size x = (x.0 + 4 ≤ size) × (x.0 < 2 ^ 32)

abbrev pub with_memory : {N : Type 0} → Buffer → GuestThread N → GuestThread N
with_memory b t = record t { world = record (t.world) { memory = b } }

swap : (P Q : Type 0) → P ⊎ Q → Q ⊎ P
swap P Q (inl p) = inr p
swap P Q (inr q) = inl q

module _ {N : Type 0} ⦃lib : Native N⦄ (laws : IsWordMemory lib) where
  open laws use {read_written, read_apart, written}

  pub store32_lem :
      (a v : ℕ) (t : GuestThread N)
      → a + 4 ≤ t.world.memory.size
      → a < 2 ^ 32
      → (b : Buffer) × (lib.mem_write32 t.world.memory a (mask32 v) ≡ some b)
        × (b.size ≡ t.world.memory.size)
        × (store32 a v t ≡ (ok tt, with_memory b t))
  unfolding store32 in_world write32 get_memory put_memory or_raise ◌>>=◌
  store32_lem a v t fits small =
      let w = written t.world.memory a (mask32 v) fits in
      let same : mask32 a ≡ a = omega arith in (w.0, w.1, w.2, rw (same, w.1) refl)

  -- Stores leave the word of a cell apart from theirs, and the size.
  pub record Stored (ws : List (ℕ × ℕ)) (t : GuestThread N) (b : Buffer) : Type 0 where
    pub run : store_all ws t ≡ (ok tt, with_memory b t)
    pub size : b.size ≡ t.world.memory.size
    pub rest :
        (c u : ℕ) → All (Apart (c, u)) ws → lib.mem_read32 b c ≡ lib.mem_read32 t.world.memory c
    pub cells : AllPairs Apart ws → All (λ x. lib.mem_read32 b x.0 ≡ some (mask32 x.1)) ws

  pub store_all_lem :
      (ws : List (ℕ × ℕ)) (t : GuestThread N)
      → All (Fits t.world.memory.size) ws
      → (b : Buffer) × Stored ws t b
  unfolding store_all pure ◌>>=◌
  store_all_lem [] t fits =
      (t.world.memory, record { run = refl; size = refl; rest = λ c u h. refl; cells = λ h. tt })
  store_all_lem ((a, v) ∷ ws) t fits =
      let one = store32_lem a v t fits.0.0 fits.0.1 in
      let more = store_all_lem ws (with_memory one.0 t) (rw (one.2) (fits.1)) in
      (
        more.0,
        record {
          run = rw (one.3) more.1.run;
          size = more.1.size ∙ one.2;
          rest = λ c u h.
              more.1.rest c u h.1
              ∙ read_apart t.world.memory one.0 a c (mask32 v) (swap _ _ h.0) one.1;
          cells = λ h. (
            more.1.rest a v h.0
                ∙ read_written t.world.memory one.0 a (mask32 v) (omega arith) one.1,
            more.1.cells h.1,
          );
        },
      )

pub words_from-Fits :
    (size a n : ℕ) → a + 4 * n ≤ size → size ≤ 2 ^ 32 → All (Fits size) (words_from a n)
words_from-Fits size a zero h small = tt
words_from-Fits size a (suc n) h small =
    ((omega arith, omega arith), words_from-Fits size (a + 4) n (omega arith) small)

-- Cells in ascending order, from `low` on, are apart.
abbrev pub Ascends : ℕ → List (ℕ × ℕ) → Type 0
Ascends low [] = Unit
Ascends low (x ∷ ws) = (low ≤ x.0) × Ascends (x.0 + 4) ws

Ascends-above :
    (low : ℕ) (y : ℕ × ℕ) (ws : List (ℕ × ℕ)) → y.0 + 4 ≤ low → Ascends low ws → All (Apart y) ws
Ascends-above low y [] h up = tt
Ascends-above low y (x ∷ ws) h up =
    (inl (omega (arith, up.0)), Ascends-above (x.0 + 4) y ws (omega (arith, up.0)) up.1)

pub Ascends-Apart : (low : ℕ) (ws : List (ℕ × ℕ)) → Ascends low ws → AllPairs Apart ws
Ascends-Apart low [] up = tt
Ascends-Apart low (x ∷ ws) up =
    (Ascends-above (x.0 + 4) x ws (omega arith) up.1, Ascends-Apart (x.0 + 4) ws up.1)
