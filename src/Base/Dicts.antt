-- ===== src/Base/Dicts.antt =====
-- Python's `dict` as the list of its items, in the order of insertion.
use mathlib.Core.Path.{◌≡◌, refl, sym, subst, subst₂}
use mathlib.Core.Logic.{inl, inr}
use mathlib.Core.Bool.{Bool, true, false}
use mathlib.Core.Option.{Option, none, some}
use mathlib.Core.List.{List, [], ◌∷◌}
use native.Mathlib.Omega.{arith}
use tew.Base.Tests.{Key, Bool-cases, if◌then◌else◌}
use tew.Base.Lists.{All, AllPairs}

abbrev pub Dict {ℓ κ} : Type ℓ → Type κ → Type (ℓ ⊔ κ)
Dict K V = List (K × V)

module _ {ℓ κ} {K : Type ℓ} {V : Type κ} ⦃k : Key K⦄ where
  -- d.get(a)
  unfoldable pub get : K → Dict K V → Option V
  get a [] = none
  get a ((b, v) ∷ d) = if k.same b a then some v else get a d

  -- d[a] = v: an old key keeps its place, a new one goes to the end
  unfoldable pub put : K → V → Dict K V → Dict K V
  put a v [] = (a, v) ∷ []
  put a v ((b, w) ∷ d) = if k.same b a then (b, v) ∷ d else (b, w) ∷ put a v d

  -- d.pop(a, None)
  unfoldable pub pop : K → Dict K V → Dict K V
  pop a [] = []
  pop a ((b, w) ∷ d) = let rest = pop a d in if k.same b a then rest else (b, w) ∷ rest

  -- a in d
  abbrev pub has_key : K → Dict K V → Bool
  has_key a d = elim (get a d) [ none ↦ false | some v ↦ true ]

  pub get-put :
      (a b : K) (v : V) (d : Dict K V)
      → get b (put a v d) ≡ (if k.same a b then some v else get b d)
  unfolding get put
  get-put a b v [] = refl
  get-put a b v ((c, w) ∷ d) =
      ground (arith, k.same_iff a b, k.same_iff c a, k.same_iff c b, get-put a b v d)

  pub get-pop : (a b : K) (d : Dict K V) → get b (pop a d) ≡ (if k.same a b then none else get b d)
  unfolding get pop
  get-pop a b [] = ground arith
  get-pop a b ((c, w) ∷ d) =
      ground (arith, k.same_iff a b, k.same_iff c a, k.same_iff c b, get-pop a b d)

  pub get-put_self : (a : K) (v : V) (d : Dict K V) → get a (put a v d) ≡ some v
  get-put_self a v d = ground (arith, get-put a a v d, k.same_iff a a)

module _ {ℓ κ μ} {K : Type ℓ} {V : Type κ} ⦃k : Key K⦄ (P : K × V → Type μ) where
  pub All-put : (a : K) (v : V) (d : Dict K V) → P (a, v) → All P d → All P (put a v d)
  unfolding put
  All-put a v [] p h = (p, tt)
  All-put a v ((b, w) ∷ d) p h = elim (Bool-cases (k.same b a)) [
    | inl hit ↦ rw hit (subst (λ c. P (c, v)) (sym ((k.same_iff b a).0 hit)) p, h.1)
    | inr miss ↦ rw miss (h.0, All-put a v d p h.1)
  ]

  pub All-pop : (a : K) (d : Dict K V) → All P d → All P (pop a d)
  unfolding pop
  All-pop a [] h = tt
  All-pop a ((b, w) ∷ d) h = elim (Bool-cases (k.same b a)) [
    | inl hit ↦ rw hit (All-pop a d h.1)
    | inr miss ↦ rw miss (h.0, All-pop a d h.1)
  ]

  pub All-get : (a : K) (v : V) (d : Dict K V) → All P d → get a d ≡ some v → P (a, v)
  unfolding get
  All-get a v [] h e = cc
  All-get a v ((b, w) ∷ d) h e = elim (Bool-cases (k.same b a)) [
    | inl hit ↦
        let same_key : b ≡ a = (k.same_iff b a).0 hit in
        let same_value : w ≡ v = ground (arith, e, hit) in
        subst₂ (λ c u. P (c, u)) same_key same_value h.0
    | inr miss ↦ All-get a v d h.1 (ground (arith, e, miss))
  ]

module _ {ℓ κ μ} {K : Type ℓ} {V : Type κ} ⦃k : Key K⦄ (R : K × V → K × V → Type μ) where
  -- A new item, apart from all the old ones.
  pub AllPairs-put :
      (a : K) (v : V) (d : Dict K V)
      → ((x y : K × V) → R x y → R y x)
      → All (R (a, v)) d
      → AllPairs R d
      → AllPairs R (put a v d)
  unfolding put
  AllPairs-put a v [] s new h = (tt, tt)
  AllPairs-put a v ((b, w) ∷ d) s new h = elim (Bool-cases (k.same b a)) [
    | inl hit ↦ rw hit (subst (λ c. All (R (c, v)) d) (sym ((k.same_iff b a).0 hit)) new.1, h.1)
    | inr miss ↦
        rw miss
          (All-put (R (b, w)) a v d (s (a, v) (b, w) new.0) h.0, AllPairs-put a v d s new.1 h.1)
  ]

  pub AllPairs-pop : (a : K) (d : Dict K V) → AllPairs R d → AllPairs R (pop a d)
  unfolding pop
  AllPairs-pop a [] h = tt
  AllPairs-pop a ((b, w) ∷ d) h = elim (Bool-cases (k.same b a)) [
    | inl hit ↦ rw hit (AllPairs-pop a d h.1)
    | inr miss ↦ rw miss (All-pop (R (b, w)) a d h.0, AllPairs-pop a d h.1)
  ]

  -- What is taken out is apart from what stays.
  pub AllPairs-popped :
      (a : K) (v : V) (d : Dict K V)
      → ((x y : K × V) → R x y → R y x)
      → AllPairs R d
      → get a d ≡ some v
      → All (R (a, v)) (pop a d)
  unfolding get pop
  AllPairs-popped a v [] s h e = cc
  AllPairs-popped a v ((b, w) ∷ d) s h e = elim (Bool-cases (k.same b a)) [
    | inl hit ↦
        let same_key : b ≡ a = (k.same_iff b a).0 hit in
        let same_value : w ≡ v = ground (arith, e, hit) in
        rw hit (All-pop (R (a, v)) a d (subst₂ (λ c u. All (R (c, u)) d) same_key same_value h.0))
    | inr miss ↦
        let rest : get a d ≡ some v = ground (arith, e, miss) in
        rw miss
          (s (b, w) (a, v) (All-get (R (b, w)) a v d h.0 rest), AllPairs-popped a v d s h.1 rest)
  ]
