-- ===== src/Windows/Order.antt =====
-- The order of the handles of WindowManager of tew/api/window_manager.py, and what keeps it.
use tew.Base.{
  ℕ, suc, ◌+◌, ◌≤◌, ◌<◌, ◌≡◌, inl, inr, sym, ◌∙◌, ap, ◌==◌, ==_iff, Bool, true, false,
  if◌then◌else◌, Bool-cases, some, Option-cases, [], get, nat_key, get-put, All, All-imp, Result,
  ok, err, ◌>>=◌, pure, arith, proceed,
}
use mathlib.Core.Path.{subst₂}
use mathlib.Core.Option.{some-injective}
use tew.Windows.{WindowEntry, Manager, Win, get_manager, update, alloc_hwnd, on_window, set_entry}

-- Every handle is below the next one, and the controls of a window are younger than it.
pub record IsOrdered {D : Type 0} (s : Manager D) : Type 0 where
  pub handed : (h : ℕ) (e : WindowEntry) → get h s.windows ≡ some e → h < s.next_hwnd
  pub younger :
      (h : ℕ) (e : WindowEntry)
      → get h s.windows ≡ some e
      → All (λ c. (h < c.1) × (c.1 < s.next_hwnd)) e.children_list

-- The same windows.
pub record Alike {D : Type 0} (s u : Manager D) : Type 0 where
  pub windows : u.windows ≡ s.windows
  pub next_hwnd : u.next_hwnd ≡ s.next_hwnd

-- From states whose next handle is `low` or more.
pub record Keeps {D A : Type 0} (low : ℕ) (m : Win D A) : Type 0 where
  pub at :
      (s : Manager D)
      → low ≤ s.next_hwnd
      → IsOrdered s
      → (low ≤ (m s).1.next_hwnd) × IsOrdered (m s).1

-- The listed controls of the window `h` are younger than it.
abbrev pub Younger : {D : Type 0} → Manager D → ℕ → WindowEntry → Type 0
Younger s h e = All (λ c. (h < c.1) × (c.1 < s.next_hwnd)) e.children_list

module _ {D : Type 0} where
  pub Alike-IsOrdered : (s u : Manager D) → Alike s u → IsOrdered s → IsOrdered u
  Alike-IsOrdered s u a order = record {
    handed = λ h e found. rw a.next_hwnd (order.handed h e (ap (get h) (sym a.windows) ∙ found));
    younger = λ h e found. rw a.next_hwnd (order.younger h e (ap (get h) (sym a.windows) ∙ found));
  }

  pub set_entry-IsOrdered :
      (hwnd : ℕ) (e : WindowEntry) (s : Manager D)
      → hwnd < s.next_hwnd
      → Younger s hwnd e
      → IsOrdered s
      → IsOrdered (set_entry hwnd e s)
  set_entry-IsOrdered hwnd e s below young order = record {
    handed = λ h e' found. elim (Bool-cases (hwnd == h)) [
      | inl hit ↦ ground (arith, below, hit)
      | inr miss ↦ order.handed h e' (ground (arith, get-put hwnd h e s.windows, found, miss))
    ];
    younger = λ h e' found. elim (Bool-cases (hwnd == h)) [
      | inl hit ↦
          let same : e ≡ e' =
            some-injective _ _ (ground (arith, get-put hwnd h e s.windows, found, hit)) in
          subst₂ (λ i x. Younger s i x) ((==_iff hwnd h).0 hit) same young
      | inr miss ↦ order.younger h e' (ground (arith, get-put hwnd h e s.windows, found, miss))
    ];
  }

abbrev OkIs : {A : Type 0} → (A → Type 0) → Result A → Type 0
OkIs Q (ok a) = Q a
OkIs Q (err e) = Unit {0}

pub always : {A : Type 0} (r : Result A) → OkIs (λ _. Unit {0}) r
always (ok a) = tt
always (err e) = tt

-- What `m` returns is in `Q`.
pub record Returns {D A : Type 0} (Q : A → Type 0) (m : Win D A) : Type 0 where
  pub value : (s : Manager D) → OkIs Q (m s).0

module _ {D : Type 0} where
  pub Returns-pure : {A : Type 0} (Q : A → Type 0) (a : A) → Q a → Returns {D = D} Q (pure a)
  unfolding pure
  Returns-pure Q a q = record { value = λ s. q }

  proceed-returned :
      {A B : Type 0} (Q : B → Type 0) (f : A → Win D B) (r : Result A × Manager D)
      → ((a : A) → Returns Q (f a))
      → OkIs Q (proceed r f).0
  proceed-returned Q f (ok a, u) qf = (qf a).value u
  proceed-returned Q f (err e, u) qf = tt

  pub Returns-bind :
      {A B : Type 0} (Q : B → Type 0) (m : Win D A) (f : A → Win D B)
      → ((a : A) → Returns Q (f a))
      → Returns Q (m >>= f)
  unfolding ◌>>=◌
  Returns-bind Q m f qf = record { value = λ s. proceed-returned Q f (m s) qf }

  pub Returns-if :
      {A : Type 0} (Q : A → Type 0) (b : Bool) (x y : Win D A)
      → Returns Q x
      → Returns Q y
      → Returns Q (if b then x else y)
  Returns-if Q true x y qx qy = qx
  Returns-if Q false x y qx qy = qy

module _ {D : Type 0} (low : ℕ) where
  pub Keeps-Alike : {A : Type 0} (m : Win D A) → ((s : Manager D) → Alike s (m s).1) → Keeps low m
  Keeps-Alike m a = record {
    at = λ s l v. (rw (a s).next_hwnd l, Alike-IsOrdered s (m s).1 (a s) v);
  }

  pub Keeps-pure : {A : Type 0} (a : A) → Keeps {D = D} low (pure a)
  unfolding pure
  Keeps-pure a = record { at = λ s l v. (l, v) }

  pub proceed-kept :
      {A B : Type 0} (Q : A → Type 0) (f : A → Win D B) (r : Result A × Manager D)
      → OkIs Q r.0
      → ((a : A) → Q a → Keeps low (f a))
      → (low ≤ r.1.next_hwnd) × IsOrdered r.1
      → (low ≤ (proceed r f).1.next_hwnd) × IsOrdered (proceed r f).1
  proceed-kept Q f (ok a, u) q kf h = (kf a q).at u h.0 h.1
  proceed-kept Q f (err e, u) q kf h = h

  pub Keeps-bind_value :
      {A B : Type 0} (Q : A → Type 0) (m : Win D A) (f : A → Win D B)
      → Keeps low m
      → Returns Q m
      → ((a : A) → Q a → Keeps low (f a))
      → Keeps low (m >>= f)
  unfolding ◌>>=◌
  Keeps-bind_value Q m f k q kf = record {
    at = λ s l v. proceed-kept Q f (m s) (q.value s) kf (k.at s l v);
  }

  pub Keeps-bind :
      {A B : Type 0} (m : Win D A) (f : A → Win D B)
      → Keeps low m
      → ((a : A) → Keeps low (f a))
      → Keeps low (m >>= f)
  Keeps-bind m f k kf =
      Keeps-bind_value (λ _. Unit {0}) m f k (record { value = λ s. always (m s).0 }) (λ a _. kf a)

  pub Keeps-get_manager :
      {B : Type 0} (f : Manager D → Win D B)
      → ((s : Manager D) → Keeps low (f s))
      → Keeps low (get_manager >>= f)
  unfolding ◌>>=◌ get_manager
  Keeps-get_manager f kf = record { at = λ s l v. (kf s).at s l v }

  pub Keeps-alloc_hwnd :
      {B : Type 0} (f : ℕ → Win D B)
      → ((h : ℕ) → low ≤ h → Keeps (suc h) (f h))
      → Keeps low (alloc_hwnd >>= f)
  unfolding ◌>>=◌ alloc_hwnd
  Keeps-alloc_hwnd f kf = record {
    at = λ s l v.
        let order : IsOrdered (record s { next_hwnd = s.next_hwnd + 4 }) = record {
          handed = λ h e found. let b = v.handed h e found in omega (arith, b);
          younger = λ h e found.
              All-imp _ _ e.children_list (λ c b. (b.0, omega (arith, b.1))) (v.younger h e found);
        } in
        let r = (kf s.next_hwnd l).at _ (omega arith) order in (omega (arith, l, r.0), r.1);
  }

  -- A window without listed controls.
  pub Keeps-set_entry :
      (hwnd : ℕ) (e : WindowEntry)
      → hwnd < low
      → e.children_list ≡ []
      → Keeps {D = D} low (update (set_entry hwnd e))
  unfolding update
  Keeps-set_entry hwnd e below childless = record {
    at = λ s l v. (l, set_entry-IsOrdered hwnd e s (omega (arith, l, below)) (rw childless tt) v);
  }

  pub Keeps-on_window :
      {A : Type 0} (hwnd : ℕ) (missing answer : A) (f : WindowEntry → WindowEntry)
      → ((s : Manager D) (e : WindowEntry)
          → low ≤ s.next_hwnd
          → Younger s hwnd e
          → Younger s hwnd (f e))
      → Keeps {D = D} low (on_window hwnd missing answer f)
  unfolding on_window
  Keeps-on_window hwnd missing answer f young = record {
    at = λ s l v. elim (Option-cases (get hwnd s.windows)) [
      | inl gone ↦ rw (gone, on_window) (l, v)
      | inr (e, found) ↦
          rw (found, on_window)
            (
              l,
              set_entry-IsOrdered hwnd (f e) s (v.handed hwnd e found)
                  (young s e l (v.younger hwnd e found)) v,
            )
    ];
  }

  pub Keeps-if :
      {A : Type 0} (b : Bool) (x y : Win D A)
      → Keeps low x
      → Keeps low y
      → Keeps low (if b then x else y)
  Keeps-if true x y kx ky = kx
  Keeps-if false x y kx ky = ky
