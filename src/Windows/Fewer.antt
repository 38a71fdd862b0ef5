-- ===== src/Windows/Fewer.antt =====
-- The windows below a window, and managers with fewer windows, for destroy_window of tew/api/window_manager.py.
use tew.Base.{
  ℕ, ◌≤◌, ◌<◌, ◌≡◌, ◌⊎◌, inl, inr, refl, sym, ◌∙◌, ap, subst, ◌==◌, ==_iff, Bool-cases, none, some,
  List, [], ◌∷◌, get, pop, nat_key, get-pop, All, arith,
}
use tew.Windows.{WindowEntry, Manager}
use tew.Windows.Order.{IsOrdered}

-- A handle of a list of children.
abbrev pub IsListed : ℕ → List (ℕ × ℕ) → Type 0
IsListed h [] = ⊥
IsListed h ((id, c) ∷ cs) = (c ≡ h) ⊎ IsListed h cs

-- A window, the controls in its list of children, the controls in theirs, and so on.
pub data Below {D : Type 0} (s : Manager D) : ℕ → ℕ → Type 0 where
  self : (h : ℕ) → Below s h h
  inner :
      (h c d : ℕ) (e : WindowEntry)
      → get h s.windows ≡ some e
      → IsListed c e.children_list
      → Below s c d
      → Below s h d

-- From `s` to `u` windows of `R` may have gone, with all that is below them, and no other has changed.
pub record Fewer {D : Type 0} (R : ℕ → Type 0) (s u : Manager D) : Type 0 where
  pub next_hwnd : u.next_hwnd ≡ s.next_hwnd
  pub others : (h : ℕ) → (R h × (get h u.windows ≡ none)) ⊎ (get h u.windows ≡ get h s.windows)
  pub closed : (h d : ℕ) → Below s h d → get h u.windows ≡ none → get d u.windows ≡ none

pub listed-All :
    (P : ℕ → Type 0) (cs : List (ℕ × ℕ)) (h : ℕ) → All (λ c. P c.1) cs → IsListed h cs → P h
listed-All P [] h a l = absurd l
listed-All P ((id, c) ∷ cs) h a (inl e) = subst P e a.0
listed-All P ((id, c) ∷ cs) h a (inr l) = listed-All P cs h a.1 l

module _ {D : Type 0} where
  Below-none :
      (s : Manager D) {h d : ℕ} → Below s h d → get h s.windows ≡ none → get d s.windows ≡ none
  Below-none s (self h) gone = gone
  Below-none s (inner h c d e found l b) gone = cc

  pub Below-le : (s : Manager D) {h d : ℕ} → IsOrdered s → Below s h d → h ≤ d
  Below-le s order (self h) = omega arith
  Below-le s order (inner h c d e found l b) =
      let older =
        listed-All (λ x. (h < x) × (x < s.next_hwnd)) e.children_list c (order.younger h e found)
          l in
      let rest = Below-le s order b in omega (arith, older.0, rest)

  pub Fewer-refl : (R : ℕ → Type 0) (s : Manager D) → Fewer R s s
  Fewer-refl R s = record {
    next_hwnd = refl;
    others = λ h. inr refl;
    closed = λ h d b gone. Below-none s b gone;
  }

  pub Fewer-from :
      (R R' : ℕ → Type 0) (s u : Manager D) → ((h : ℕ) → R h → R' h) → Fewer R s u → Fewer R' s u
  Fewer-from R R' s u imp f = record {
    next_hwnd = f.next_hwnd;
    others = λ h. elim (f.others h) [ inl gone ↦ inl (imp h gone.0, gone.1) | inr same ↦ inr same ];
    closed = f.closed;
  }

  pub Fewer-gone :
      (R : ℕ → Type 0) (h : ℕ) (s u : Manager D)
      → Fewer R s u
      → get h s.windows ≡ none
      → get h u.windows ≡ none
  Fewer-gone R h s u f e = elim (f.others h) [ inl gone ↦ gone.1 | inr same ↦ same ∙ e ]

  pub Fewer-kept :
      (R : ℕ → Type 0) (h : ℕ) (e : WindowEntry) (s u : Manager D)
      → Fewer R s u
      → get h u.windows ≡ some e
      → get h s.windows ≡ some e
  Fewer-kept R h e s u f found = elim (f.others h) [ inl gone ↦ cc | inr same ↦ sym same ∙ found ]

  Below-later :
      (R : ℕ → Type 0) (s u : Manager D) {h d : ℕ}
      → Fewer R s u
      → Below s h d
      → (get d u.windows ≡ none) ⊎ Below u h d
  Below-later R s u f (self h) = inr (self h)
  Below-later R s u f (inner h c d e found l b) = elim (f.others h) [
    | inl gone ↦ inl (f.closed h d (inner h c d e found l b) gone.1)
    | inr same ↦ elim (Below-later R s u f b) [
      | inl gone ↦ inl gone
      | inr b' ↦ inr (inner h c d e (same ∙ found) l b')
    ]
  ]

  pub Below-earlier :
      (R : ℕ → Type 0) (s u : Manager D) {h d : ℕ} → Fewer R s u → Below u h d → Below s h d
  Below-earlier R s u f (self h) = self h
  Below-earlier R s u f (inner h c d e found l b) =
      inner h c d e (Fewer-kept R h e s u f found) l (Below-earlier R s u f b)

  pub Fewer-trans : (R : ℕ → Type 0) (s u v : Manager D) → Fewer R s u → Fewer R u v → Fewer R s v
  Fewer-trans R s u v a b = record {
    next_hwnd = b.next_hwnd ∙ a.next_hwnd;
    others = λ h. elim (b.others h) [
      | inl gone ↦ inl gone
      | inr same ↦ elim (a.others h) [
        | inl gone ↦ inl (gone.0, same ∙ gone.1)
        | inr same' ↦ inr (same ∙ same')
      ]
    ];
    closed = λ h d x gone. elim (Below-later R s u a x) [
      | inl before ↦ Fewer-gone R d u v b before
      | inr x' ↦ b.closed h d x' gone
    ];
  }

  -- One window has gone, after its children.
  pub Fewer-pop :
      (hwnd : ℕ) (s u : Manager D)
      → u.windows ≡ pop hwnd s.windows
      → u.next_hwnd ≡ s.next_hwnd
      → ((e : WindowEntry) (c : ℕ)
          → get hwnd s.windows ≡ some e
          → IsListed c e.children_list
          → get c s.windows ≡ none)
      → Fewer (λ h. hwnd ≡ h) s u
  Fewer-pop hwnd s u popped e childless = record {
    next_hwnd = e;
    others = gone_or_same;
    closed = λ h d b gone. without b gone;
  }
    where
      gone_or_same :
          (h : ℕ) → ((hwnd ≡ h) × (get h u.windows ≡ none)) ⊎ (get h u.windows ≡ get h s.windows)
      gone_or_same h = elim (Bool-cases (hwnd == h)) [
        | inl hit ↦ inl (
          (==_iff hwnd h).0 hit,
          ap (get h) popped ∙ ground (get-pop hwnd h s.windows, hit, arith),
        )
        | inr miss ↦ inr (ap (get h) popped ∙ ground (get-pop hwnd h s.windows, miss, arith))
      ]

      without : {h d : ℕ} → Below s h d → get h u.windows ≡ none → get d u.windows ≡ none
      without (self h) gone = gone
      without (inner h c d e found l b) gone = elim (gone_or_same h) [
        | inl hit ↦
            let before =
              Below-none s b (childless e c (ap (λ x. get x s.windows) hit.0 ∙ found) l) in
            elim (gone_or_same d) [ inl it ↦ it.1 | inr same ↦ same ∙ before ]
        | inr same ↦ cc
      ]

  pub Fewer-IsOrdered : (R : ℕ → Type 0) (s u : Manager D) → Fewer R s u → IsOrdered s → IsOrdered u
  Fewer-IsOrdered R s u f order = record {
    handed = λ h e found. rw f.next_hwnd (order.handed h e (Fewer-kept R h e s u f found));
    younger = λ h e found. rw f.next_hwnd (order.younger h e (Fewer-kept R h e s u f found));
  }
