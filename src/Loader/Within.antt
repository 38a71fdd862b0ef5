-- ===== src/Loader/Within.antt =====
-- What the loader's use of guest memory raises, for tew/loader/dll_loader.py.
use tew.Base.{
  ℕ, ◌+◌, ◌==◌, Bool, true, false, if◌then◌else◌, Option, none, some, List, [], ◌∷◌, Result, ok,
  err, Error, value_error, ◌>>=◌, pure, or_raise,
}
use tew.State.Native.{Native}
use tew.State.{World, Buffer}
use tew.Pe.{RelocationEntry, RelocationBlock}
use tew.Machine.{Action, mask32, read32, write32, load, put_memory}
use tew.Loader.{LoaderState}
use tew.Loader.Images.{
  lift, relocate_entries, relocate_blocks, relocation_delta, apply_base_relocations, load_sections,
}
use tew.Loader.Meets.{Raises, Meets}

-- `m` raises only what `R` allows.
pub record Within {N A : Type 0} (R : Error → Type 0) (m : Action N A) : Type 0 where
  pub at : (w : World N) → Raises R (m w).0

module _ {N A B : Type 0} {R : Error → Type 0} where
  Within-proceed :
      (r : Result A × World N) (next : A → Action N B)
      → Raises R r.0
      → ((a : A) → Within R (next a))
      → Raises R (◌>>=◌ (λ _. r) next (r.1)).0
  unfolding ◌>>=◌
  Within-proceed (ok a, w) next h rest = (rest a).at w
  Within-proceed (err e, w) next h rest = h

  Within-bind :
      (m : Action N A) (next : A → Action N B)
      → Within R m
      → ((a : A) → Within R (next a))
      → Within R (m >>= next)
  unfolding ◌>>=◌
  Within-bind m next first rest = record { at = λ w. Within-proceed (m w) next (first.at w) rest }

module _ {N A : Type 0} {R : Error → Type 0} where
  pub Meets-lift : (m : Action N A) (P : LoaderState → Type 0) → Within R m → Meets R P (lift m)
  unfolding lift
  Meets-lift m P h = record { at = λ p v. (h.at p.world, v) }

module _ {N : Type 0} ⦃lib : Native N⦄ {R : Error → Type 0} (bounds : R value_error) where
  pure-Within : Within R (pure {W = World N} tt)
  unfolding pure
  pure-Within = record { at = λ w. tt }

  if-Within :
      (test : Bool) (first second : Action N (Unit {0}))
      → Within R first
      → Within R second
      → Within R (if test then first else second)
  if-Within true first second h k = h
  if-Within false first second h k = k

  put_memory-Within : (b : Buffer) → Within R (put_memory {N = N} b)
  unfolding put_memory
  put_memory-Within b = record { at = λ w. tt }

  Within-or_raise : {A : Type 0} (o : Option A) → Within R (or_raise {W = World N} o value_error)
  unfolding or_raise
  Within-or_raise none = record { at = λ w. bounds }
  Within-or_raise (some a) = record { at = λ w. tt }

  read32-Within : (a : ℕ) → Within R (read32 {N = N} a)
  unfolding read32
  read32-Within a = record { at = λ w. (Within-or_raise (lib.mem_read32 w.memory (mask32 a))).at w }

  store-Within :
      (o : Option Buffer) → Within R (or_raise {W = World N} o value_error >>= put_memory)
  store-Within o = Within-bind _ _ (Within-or_raise o) λ b. put_memory-Within b

  pub write32-Within : (a v : ℕ) → Within R (write32 {N = N} a v)
  unfolding write32
  write32-Within a v = record {
    at = λ w. (store-Within (lib.mem_write32 w.memory (mask32 a) (mask32 v))).at w;
  }

  load-Within : (a : ℕ) (bytes : List ℕ) → Within R (load {N = N} a bytes)
  unfolding load
  load-Within a bytes = record {
    at = λ w. (store-Within (lib.mem_load w.memory (mask32 a) bytes)).at w;
  }

  relocate_entries-Within :
      (delta base page : ℕ) (es : List RelocationEntry)
      → Within R (relocate_entries {N = N} delta base page es)
  unfolding relocate_entries
  relocate_entries-Within delta base page [] = pure-Within
  relocate_entries-Within delta base page (e ∷ es) =
      if-Within (e.kind == 3) _ _
        (Within-bind _ _ (read32-Within _)
          λ v. Within-bind _ _ (write32-Within _ _) λ _. relocate_entries-Within delta base page es)
        (relocate_entries-Within delta base page es)

  relocate_blocks-Within :
      (delta base : ℕ) (bs : List RelocationBlock)
      → Within R (relocate_blocks {N = N} delta base bs)
  unfolding relocate_blocks
  relocate_blocks-Within delta base [] = pure-Within
  relocate_blocks-Within delta base (b ∷ bs) =
      Within-bind _ _ (relocate_entries-Within delta base (b.page_rva) (b.entries))
        λ _. relocate_blocks-Within delta base bs

  pub apply_base_relocations-Within :
      (bs : List RelocationBlock) (base preferred : ℕ)
      → Within R (apply_base_relocations {N = N} bs base preferred)
  unfolding apply_base_relocations
  apply_base_relocations-Within bs base preferred =
      if-Within (relocation_delta base preferred == 0) _ _ pure-Within
        (relocate_blocks-Within _ base bs)

  pub load_sections-Within :
      (base : ℕ) (ss : List (ℕ × List ℕ)) → Within R (load_sections {N = N} base ss)
  unfolding load_sections
  load_sections-Within base [] = pure-Within
  load_sections-Within base ((a, []) ∷ ss) = load_sections-Within base ss
  load_sections-Within base ((a, b ∷ bs) ∷ ss) =
      Within-bind _ _ (load-Within (base + a) (b ∷ bs)) λ _. load_sections-Within base ss
