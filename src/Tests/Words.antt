-- ===== src/Tests/Words.antt =====
-- The concrete memory holds words.
use tew.Base.{
  ℕ, ◌+◌, ◌/◌, ◌%◌, ◌^◌, ◌≤◌, ◌<◌, ◌≡◌, ◌⊎◌, inl, inr, refl, subst, leb, leb→le, Bool-cases, ◌==◌,
  if◌then◌else◌, some, arith,
}
use tew.State.{Buffer}
use tew.Seh.Cells.{IsWordMemory}
use tew.Tests.Demo.{demo_native, in_bounds, store_word}

byte_at :
    (b : Buffer) (a v i : ℕ)
    → (store_word b a v).byte i ≡ (
        if i == a + 3
        then v / 16777216
        else if i == a + 2
        then v / 65536 % 256
        else if i == a + 1
        then v / 256 % 256
        else if i == a
        then v % 256
        else b.byte i)
byte_at b a v i = ground arith

written_back :
    (b : Buffer) (a v : ℕ) → v < 2 ^ 32 → a + 4 ≤ b.size → in_bounds (store_word b a v) a ≡ some v
written_back b a v word fits = ground arith

apart_kept :
    (b : Buffer) (a c v : ℕ)
    → (a + 4 ≤ c) ⊎ (c + 4 ≤ a)
    → in_bounds (store_word b a v) c ≡ in_bounds b c
apart_kept b a c v (inl h) = ground arith
apart_kept b a c v (inr h) = ground arith

pub demo_words : (b : Buffer) (a v : ℕ) → demo_native.mem_read32 b a ≡ some v → v < 2 ^ 32
demo_words b a v e = ground arith

stored :
    (b b' : Buffer) (a v : ℕ)
    → demo_native.mem_write32 b a v ≡ some b'
    → (a + 4 ≤ b.size) × (store_word b a v ≡ b')
stored b b' a v e = elim (Bool-cases (leb (a + 4) b.size)) [
  | inl room ↦ (leb→le _ _ room, cc (rw room at e))
  | inr none_left ↦ cc (rw none_left at e)
]

demo_writes :
    (b : Buffer) (a v : ℕ)
    → a + 4 ≤ b.size
    → demo_native.mem_write32 b a v ≡ some (store_word b a v)
demo_writes b a v fits = ground arith

pub demo_laws : IsWordMemory demo_native
demo_laws = record {
  read_written = λ b b' a v word e.
      let s = stored b b' a v e in
      subst (λ x. in_bounds x a ≡ some v) s.1 (written_back b a v word s.0);
  read_apart = λ b b' a c v apart e.
      subst (λ x. in_bounds x c ≡ in_bounds b c) (stored b b' a v e).1 (apart_kept b a c v apart);
  written = λ b a v fits. (store_word b a v, demo_writes b a v fits, refl);
}
