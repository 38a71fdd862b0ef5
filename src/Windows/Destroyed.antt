-- ===== src/Windows/Destroyed.antt =====
-- What destroy_window of tew/api/window_manager.py leaves.
use tew.Base.{
  ℕ, zero, suc, ◌+◌, ◌≤◌, ◌<◌, ◌≡◌, ◌⊎◌, inl, inr, refl, sym, ◌∙◌, ap, ◌==◌, Bool, true, Bool-cases,
  Option, none, some, Option-cases, List, [], ◌∷◌, get, pop, has_key, nat_key, get-pop, All,
  All-imp, Result, ok, ◌>>=◌, ◌>>◌, pure, arith, proceed-ok, subst,
}
use mathlib.Core.Option.{some-injective}
use tew.Windows.{WindowEntry, Manager, Sdl, Win, get_manager, update}
use tew.Windows.Order.{IsOrdered, Alike}
use tew.Windows.Fewer.{
  IsListed, Below, listed-All, Fewer, Below-le, Below-earlier, Fewer-refl, Fewer-from, Fewer-gone,
  Fewer-trans, Fewer-pop, Fewer-IsOrdered,
}
use tew.Windows.Destroy.{
  drop_window, unfocus, release_window, remove_window, destroy_all, destroy_found, destroy_rounds,
  destroy_window,
}

-- A window that is listed in `cs`, or is below one that is.
abbrev BelowSome : {D : Type 0} → Manager D → List (ℕ × ℕ) → ℕ → Type 0
BelowSome s cs h = (c : ℕ) × (IsListed c cs × Below s c h)

module _ {D : Type 0} (sdl : Sdl D) where
  -- A destroy from `s` that returned, with the window gone.
  record Done (hwnd : ℕ) (s : Manager D) (r : Result Bool × Manager D) : Type 0 where
    answer : r.0 ≡ ok (has_key hwnd s.windows)
    gone : get hwnd r.1.windows ≡ none
    fewer : Fewer (Below s hwnd) s r.1

  drop_window-Alike : (w : Option ℕ) (s : Manager D) → Alike s (drop_window sdl w s)
  drop_window-Alike none s = record { windows = refl; next_hwnd = refl }
  drop_window-Alike (some w) s = record { windows = refl; next_hwnd = refl }

  unfocus-Alike : (hwnd : ℕ) (s : Manager D) → Alike s (unfocus hwnd s)
  unfocus-Alike hwnd s = elim (Bool-cases (s.focused_hwnd == hwnd)) [
    | inl e ↦ rw e (record { windows = refl; next_hwnd = refl })
    | inr e ↦ rw e (record { windows = refl; next_hwnd = refl })
  ]

  closed-Alike :
      (hwnd : ℕ) (e : WindowEntry) (t : Manager D) → Alike t (unfocus hwnd (release_window sdl e t))
  unfolding release_window
  closed-Alike hwnd e t =
      let a = drop_window-Alike e.sdl_window _ in
      let b = unfocus-Alike hwnd (release_window sdl e t) in
      record { windows = b.windows ∙ a.windows; next_hwnd = b.next_hwnd ∙ a.next_hwnd }

  remove_window-lem :
      (hwnd : ℕ) (s : Manager D)
      → has_key hwnd s.windows ≡ true
      → remove_window hwnd s ≡ (ok tt, record s { windows = pop hwnd s.windows })
  unfolding remove_window
  remove_window-lem hwnd s e = rw e refl

  finish : (hwnd : ℕ) (e : WindowEntry) → Win D Bool
  finish hwnd e = do
    update (λ u. unfocus hwnd (release_window sdl e u))
    remove_window hwnd
    pure true

  -- What is left to do after the children.
  finish_lem :
      (hwnd : ℕ) (e : WindowEntry) (t : Manager D)
      → has_key hwnd t.windows ≡ true
      → ((finish hwnd e t).0 ≡ ok true)
        × (((finish hwnd e t).1.windows ≡ pop hwnd t.windows)
            × ((finish hwnd e t).1.next_hwnd ≡ t.next_hwnd))
  unfolding finish ◌>>=◌ update pure
  finish_lem hwnd e t known =
      let a = closed-Alike hwnd e t in
      rw (remove_window-lem hwnd (unfocus hwnd (release_window sdl e t)) (rw a.windows known))
        (refl, (ap (pop hwnd) a.windows, a.next_hwnd))

  -- The children `cs` of a window of `s` were destroyed.
  record Cleared (s : Manager D) (cs : List (ℕ × ℕ)) (r : Result (Unit {0}) × Manager D)
      : Type 0 where
    answer : r.0 ≡ ok tt
    gone : (c : ℕ) → IsListed c cs → get c r.1.windows ≡ none
    fewer : Fewer (BelowSome s cs) s r.1

  Destroys : (ℕ → Win D Bool) → ℕ → ℕ → Type 0
  Destroys destroy low bound =
      (h : ℕ) (s : Manager D) → low ≤ h → s.next_hwnd ≡ bound → IsOrdered s → Done h s (destroy h s)

  destroy_all_lem :
      (destroy : ℕ → Win D Bool) (low bound : ℕ)
      → Destroys destroy low bound
      → (cs : List (ℕ × ℕ)) → All (λ c. low ≤ c.1) cs
      → (s : Manager D) → s.next_hwnd ≡ bound
      → IsOrdered s
      → Cleared s cs (destroy_all destroy cs s)
  unfolding destroy_all pure ◌>>=◌ Destroys
  destroy_all_lem destroy low bound destroys [] above s e order = record {
    answer = refl;
    gone = λ c l. absurd l;
    fewer = Fewer-refl _ s;
  }
  destroy_all_lem destroy low bound destroys ((id, h) ∷ cs) above s e order =
      let d = destroys h s (above.0) e order in
      let u = (destroy h s).1 in
      let rest =
        destroy_all_lem destroy low bound destroys cs above.1 u (d.fewer.next_hwnd ∙ e)
          (Fewer-IsOrdered _ s u d.fewer order) in
      rw (proceed-ok (destroy h s) (λ _. destroy_all destroy cs) (has_key h s.windows) d.answer)
        (record {
          answer = rest.answer;
          gone = λ c l. elim l [
            | inl same ↦
                Fewer-gone _ c u _ rest.fewer (ap (λ x. get x u.windows) (sym same) ∙ d.gone)
            | inr later ↦ rest.gone c later
          ];
          fewer =
              Fewer-trans (BelowSome s ((id, h) ∷ cs)) s u _
                (Fewer-from _ _ s u (λ x b. (h, (inl refl, b))) d.fewer)
                (Fewer-from _ _ u _ (λ x b. (b.0, (inr b.1.0, Below-earlier _ s u d.fewer b.1.1)))
                  rest.fewer);
        })

  -- A window that is there.
  destroy_found_lem :
      (destroy : ℕ → Win D Bool) (hwnd : ℕ) (e : WindowEntry) (s : Manager D)
      → Destroys destroy (suc hwnd) s.next_hwnd
      → get hwnd s.windows ≡ some e
      → IsOrdered s
      → Done hwnd s (destroy_found sdl destroy hwnd (some e) s)
  unfolding destroy_found ◌>>=◌ finish
  destroy_found_lem destroy hwnd e s destroys found order =
      let kids =
        destroy_all_lem destroy (suc hwnd) s.next_hwnd destroys e.children_list
          (All-imp _ _ e.children_list (λ c l. l.0) (order.younger hwnd e found)) s refl order in
      let t = (destroy_all destroy e.children_list s).1 in
      let still : get hwnd t.windows ≡ some e = elim (kids.fewer.others hwnd) [
        | inl gone ↦
            let above =
              listed-All (λ x. hwnd < x) e.children_list gone.0.0
                (All-imp _ _ e.children_list (λ c l. l.0) (order.younger hwnd e found))
                gone.0.1.0 in
            let below = Below-le s order gone.0.1.1 in absurd (omega (arith, above, below))
        | inr same ↦ same ∙ found
      ] in
      let last = finish_lem hwnd e t (rw (still, has_key) refl) in
      let step = Fewer-pop hwnd t (finish hwnd e t).1 last.1.0 last.1.1 (λ e' c found' l.
        kids.gone c
          (subst (λ x. IsListed c x.children_list) (some-injective _ _ (sym found' ∙ still)) l)) in
      subst (Done hwnd s)
        (sym
          (proceed-ok (destroy_all destroy e.children_list s) (λ _. finish hwnd e) tt kids.answer))
        (record {
          answer = last.0 ∙ rw (found, has_key) refl;
          gone = ap (get hwnd) last.1.0 ∙ ground (arith, get-pop hwnd hwnd t.windows);
          fewer =
              Fewer-trans (Below s hwnd) s t _
                (Fewer-from _ _ s t (λ x b. Below.inner hwnd b.0 x e found b.1.0 b.1.1) kids.fewer)
                (Fewer-from _ _ t _ (λ x same. subst (Below s hwnd) same (Below.self hwnd)) step);
        })

  -- Rounds for every handle from `hwnd` on are enough.
  destroy_rounds_lem :
      (rounds hwnd : ℕ) (s : Manager D)
      → 0 < rounds
      → s.next_hwnd < hwnd + rounds
      → IsOrdered s
      → Done hwnd s (destroy_rounds sdl rounds hwnd s)
  unfolding destroy_rounds get_manager ◌>>=◌ destroy_found pure Destroys
  destroy_rounds_lem zero hwnd s some_left enough order = absurd (omega (arith, some_left))
  destroy_rounds_lem (suc rounds) hwnd s some_left enough order =
      elim (Option-cases (get hwnd s.windows)) [
        | inl missing ↦
            rw missing (record {
              answer = rw (missing, has_key) refl;
              gone = missing;
              fewer = Fewer-refl _ s;
            })
        | inr (e, found) ↦ rw found (
            destroy_found_lem (destroy_rounds sdl rounds) hwnd e s
              (λ h u l same v.
                destroy_rounds_lem rounds h u (omega (arith, order.handed hwnd e found, enough))
                  (omega (arith, l, same, enough)) v)
              found order)
      ]

  -- From windows whose handles lie in order, destroy_window returns, and true exactly if there was such a window. The
  -- window and all that is below it, by the lists of children that there were, are gone; any other window is as it
  -- was, and the order holds again.
  pub destroy_window_lem :
      (hwnd : ℕ) (s : Manager D)
      → IsOrdered s
      → let r = destroy_window sdl hwnd s in
        (r.0 ≡ ok (has_key hwnd s.windows))
        × (((h : ℕ) → Below s hwnd h → get h r.1.windows ≡ none)
            × (((h : ℕ) → Below s hwnd h ⊎ (get h r.1.windows ≡ get h s.windows)) × IsOrdered r.1))
  unfolding destroy_window get_manager ◌>>=◌
  destroy_window_lem hwnd s order =
      let d = destroy_rounds_lem (suc s.next_hwnd) hwnd s (omega arith) (omega arith) order in
      (
        d.answer,
        (
          λ h b. d.fewer.closed hwnd h b d.gone,
          (
            λ h. elim (d.fewer.others h) [ inl gone ↦ inl gone.0 | inr same ↦ inr same ],
            Fewer-IsOrdered _ s _ d.fewer order,
          ),
        ),
      )
