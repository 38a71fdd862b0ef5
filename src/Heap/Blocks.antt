-- ===== src/Heap/Blocks.antt =====
-- Sets of blocks, as the free and the live blocks of tew/api/_state.py: the conditions on them, and
-- lemmas on what the allocator does to them.
use tew.Base.{
  ℕ, ◌+◌, ◌-◌, ◌%◌, ◌≡◌, ◌≤◌, ◌<◌, refl, ◌↔◌, ◌⊎◌, inl, inr, none, some, List, [], ◌∷◌, ◌++◌, All,
  AllPairs, All-append, All-imp, AllPairs-append_one, put, pop, get, nat_key, arith, leb, ltb,
  ltb→lt, append-nil, Option-cases, Bool-cases, All-put, All-pop, All-get, AllPairs-put,
  AllPairs-pop,
}
use tew.State.{Block, heap_base}
use tew.Heap.{align16, take_fit, remainder}

-- Two blocks take no byte in common.
abbrev pub Apart : Block → Block → Type 0
Apart p q = (p.0 + align16 p.1 ≤ q.0) ⊎ (q.0 + align16 q.1 ≤ p.0)

-- A block is aligned, takes a byte, and lies below the cursor.
abbrev pub InArena : ℕ → Block → Type 0
InArena cursor b = (b.0 % 16 ≡ 0) × (0 < b.1) × (heap_base ≤ b.0) × (b.0 + align16 b.1 ≤ cursor)

-- The free and the live blocks below a cursor.
pub record Blocks (cursor : ℕ) (free live : List Block) : Type 0 where
  pub free_apart : AllPairs Apart free
  pub live_apart : AllPairs Apart live
  pub cross_apart : All (λ f. All (Apart f) live) free
  pub free_fits : All (InArena cursor) free
  pub live_fits : All (InArena cursor) live

pub Apart-sym : (p q : Block) → Apart p q → Apart q p
Apart-sym p q (inl h) = inr h
Apart-sym p q (inr h) = inl h

take_fit-cons :
    (size a s : ℕ) (free : List Block) (f : Block) (rest : List Block)
    → take_fit size ((a, s) ∷ free) ≡ some (f, rest)
    → ((size ≤ s) × (f ≡ (a, s)) × (rest ≡ free))
      ⊎ ((r : List Block) × (take_fit size free ≡ some (f, r)) × (rest ≡ (a, s) ∷ r))
unfolding take_fit
take_fit-cons size a s free f rest e = elim (Bool-cases (leb size s)) [
  | inl fits ↦ inl (ground arith, ground arith, ground arith)
  | inr small ↦ elim (Option-cases (take_fit size free)) [
    | inl empty ↦ absurd (ground arith)
    | inr ((g, r), found) ↦ inr (r, ground arith, ground arith)
  ]
]

-- What holds of every free block holds of the one that is taken and of the rest.
take_fit-All :
    (P : Block → Type 0) (size : ℕ) (free : List Block) (f : Block) (rest : List Block)
    → take_fit size free ≡ some (f, rest)
    → All P free
    → P f × All P rest
take_fit-All P size [] f rest e h = unfold take_fit in cc
take_fit-All P size ((a, s) ∷ free) f rest e h = elim (take_fit-cons size a s free f rest e) [
  | inl (_, is_f, is_rest) ↦ rw (is_f, is_rest) h
  | inr (r, found, is_rest) ↦
      let ih = take_fit-All P size free f r found h.1 in rw is_rest (ih.0, (h.0, ih.1))
]

-- The block that is taken is apart from the rest, and is large enough.
take_fit-Apart :
    (size : ℕ) (free : List Block) (f : Block) (rest : List Block)
    → take_fit size free ≡ some (f, rest)
    → AllPairs Apart free
    → All (Apart f) rest × AllPairs Apart rest × (size ≤ f.1)
take_fit-Apart size [] f rest e h = unfold take_fit in cc
take_fit-Apart size ((a, s) ∷ free) f rest e h = elim (take_fit-cons size a s free f rest e) [
  | inl (large, is_f, is_rest) ↦ rw (is_f, is_rest) (h.0, h.1, large)
  | inr (r, found, is_rest) ↦
      let ih = take_fit-Apart size free f r found h.1 in
      let others = take_fit-All (Apart (a, s)) size free f r found h.0 in
      rw is_rest ((Apart-sym (a, s) f others.0, ih.0), (others.1, ih.1), ih.2)
]

-- Nothing is taken exactly where every free block is too small.
pub take_fit-none :
    (size : ℕ) (free : List Block) → (take_fit size free ≡ none) ↔ All (λ b. b.1 < size) free
unfolding take_fit
take_fit-none size [] = (λ e. tt, λ h. refl)
take_fit-none size ((a, s) ∷ free) = elim (Bool-cases (leb size s)) [
  | inl fits ↦ (λ e. absurd (ground arith), λ h. absurd (ground arith))
  | inr small ↦
      let ih = take_fit-none size free in
      (λ e. (ground arith, ih.0 (ground arith)), λ h. ground (arith, ih.1 h.1))
]

-- A block within another is apart from what the other is apart from.
Within : Block → Block → Type 0
Within p q = (q.0 ≤ p.0) × (p.0 + align16 p.1 ≤ q.0 + align16 q.1)

Within-Apart : (p q x : Block) → Within p q → Apart q x → Apart p x
unfolding Within
Within-Apart p q x w (inl h) = inl (omega arith)
Within-Apart p q x w (inr h) = inr (omega arith)

Within-All : (p q : Block) (xs : List Block) → Within p q → All (Apart q) xs → All (Apart p) xs
Within-All p q xs w = All-imp (Apart q) (Apart p) xs (λ x. Within-Apart p q x w)

-- Blocks below the cursor are apart from a block that starts there.
pub fits-Apart : (c size : ℕ) (xs : List Block) → All (InArena c) xs → All (Apart (c, size)) xs
fits-Apart c size xs = All-imp (InArena c) (Apart (c, size)) xs (λ x h. inr h.3)

fits_mono : (c d : ℕ) (xs : List Block) → c ≤ d → All (InArena c) xs → All (InArena d) xs
fits_mono c d xs h = All-imp (InArena c) (InArena d) xs (λ x b. (b.0, b.1, b.2, omega arith))

cross-put :
    (n : Block) (free live : List Block)
    → All (λ f. All (Apart f) live) free
    → All (Apart n) free
    → All (λ f. All (Apart f) (put (n.0) (n.1) live)) free
cross-put n [] live h a = tt
cross-put n (f ∷ free) live h a =
    (All-put (Apart f) n.0 n.1 live (Apart-sym n f a.0) h.0, cross-put n free live h.1 a.1)

cross-pop :
    (a : ℕ) (free live : List Block)
    → All (λ f. All (Apart f) live) free
    → All (λ f. All (Apart f) (pop a live)) free
cross-pop a free live =
    All-imp (λ f. All (Apart f) live) (λ f. All (Apart f) (pop a live)) free
      (λ f. All-pop (Apart f) a live)

pub cross-popped :
    (a size : ℕ) (free live : List Block)
    → All (λ f. All (Apart f) live) free
    → get a live ≡ some size
    → All (Apart (a, size)) free
cross-popped a size free live h e =
    All-imp (λ f. All (Apart f) live) (Apart (a, size)) free
      (λ f k. Apart-sym f (a, size) (All-get (Apart f) a size live k e)) h

module _ {c : ℕ} {free live : List Block} (b : Blocks c free live) where
  pub add_live :
      (n : Block)
      → All (Apart n) free
      → All (Apart n) live
      → InArena c n
      → Blocks c free (put (n.0) (n.1) live)
  add_live n f l fits = record {
    free_apart = b.free_apart;
    live_apart = AllPairs-put Apart n.0 n.1 live Apart-sym l b.live_apart;
    cross_apart = cross-put n free live b.cross_apart f;
    free_fits = b.free_fits;
    live_fits = All-put (InArena c) n.0 n.1 live fits b.live_fits;
  }

  pub add_free :
      (p : Block)
      → All (Apart p) free
      → All (Apart p) live
      → InArena c p
      → Blocks c (free ++ p ∷ []) live
  add_free p f l fits = record {
    free_apart =
        AllPairs-append_one Apart free p b.free_apart
          (All-imp (Apart p) (λ x. Apart x p) free (λ x. Apart-sym p x) f);
    live_apart = b.live_apart;
    cross_apart = All-append (λ x. All (Apart x) live) free (p ∷ []) b.cross_apart (l, tt);
    free_fits = All-append (InArena c) free (p ∷ []) b.free_fits (fits, tt);
    live_fits = b.live_fits;
  }

  drop_free :
      (size : ℕ) (f : Block) (rest : List Block)
      → take_fit size free ≡ some (f, rest)
      → Blocks c rest live
  drop_free size f rest e = record {
    free_apart = (take_fit-Apart size free f rest e b.free_apart).1;
    live_apart = b.live_apart;
    cross_apart = (take_fit-All (λ x. All (Apart x) live) size free f rest e b.cross_apart).1;
    free_fits = (take_fit-All (InArena c) size free f rest e b.free_fits).1;
    live_fits = b.live_fits;
  }

  pub drop_live : (a : ℕ) → Blocks c free (pop a live)
  drop_live a = record {
    free_apart = b.free_apart;
    live_apart = AllPairs-pop Apart a live b.live_apart;
    cross_apart = cross-pop a free live b.cross_apart;
    free_fits = b.free_fits;
    live_fits = All-pop (InArena c) a live b.live_fits;
  }

  pub raise_cursor : (d : ℕ) → c ≤ d → Blocks d free live
  raise_cursor d h = record {
    free_apart = b.free_apart;
    live_apart = b.live_apart;
    cross_apart = b.cross_apart;
    free_fits = fits_mono c d free h b.free_fits;
    live_fits = fits_mono c d live h b.live_fits;
  }

module _ {c : ℕ} {free live : List Block} (b : Blocks c free live) (size a s : ℕ)
    (rest : List Block) (found : take_fit size free ≡ some ((a, s), rest)) (pos : 0 < size) where
  taken-Apart : All (Apart (a, s)) rest × AllPairs Apart rest × (size ≤ s)
  taken-Apart = take_fit-Apart size free (a, s) rest found b.free_apart

  taken_fits : InArena c (a, s)
  taken_fits = (take_fit-All (InArena c) size free (a, s) rest found b.free_fits).0

  taken_live : All (Apart (a, s)) live
  taken_live = (take_fit-All (λ x. All (Apart x) live) size free (a, s) rest found b.cross_apart).0

  pub reused-Apart : All (Apart (a, size)) live
  unfolding Within
  reused-Apart = Within-All (a, size) (a, s) live (omega (arith, taken-Apart.2)) taken_live

  reused : Blocks c rest (put a size live)
  unfolding Within
  reused =
      add_live (drop_free b size (a, s) rest found) (a, size)
        (Within-All (a, size) (a, s) rest (omega (arith, taken-Apart.2)) taken-Apart.0) reused-Apart
        (omega (arith, taken_fits, taken-Apart.2))

  -- The reused part of a free block becomes live, and what is left of the block stays free.
  pub reuse-Blocks : Blocks c (rest ++ remainder size (a, s)) (put a size live)
  unfolding remainder Within
  reuse-Blocks = elim (Bool-cases (ltb (align16 size) s)) [
    | inl split ↦
        let at_most = ltb→lt (align16 size) s split in
        let left : Block = (a + align16 size, s - align16 size) in
        let left_in : Within left (a, s) = omega arith in
        rw split (
          add_free reused left (Within-All left (a, s) rest left_in taken-Apart.0)
            (All-put (Apart left) a size live (inr (omega arith))
              (Within-All left (a, s) live left_in taken_live))
            (omega (arith, taken_fits)))
    | inr whole ↦ rw (whole, append-nil) reused
  ]
