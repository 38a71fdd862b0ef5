-- ===== src/Windows/Kept.antt =====
-- The operations of WindowManager of tew/api/window_manager.py on the order of its handles.
use tew.Base.{
  ℕ, ◌≤◌, ◌≡◌, inl, inr, refl, ◌==◌, true, Option, none, some, Option-cases, List, [], ◌∷◌, Text,
  get, nat_key, text_key, text_same, codes, has_key, Bool-cases, ◌>>=◌, pure,
}
use tew.State.{Message}
use tew.Ini.{lower}
use tew.Windows.{
  WindowEntry, Manager, get_manager, update, register_class, register_child, set_window_text,
  set_check_state, end_dialog, post_message, peek_message, pop_front, click_control, is_checkbox,
  get_dlg_item, click_child, activate_button, cycle_focus, enqueue,
}
use tew.Windows.Order.{
  IsOrdered, Alike, Keeps, Alike-IsOrdered, set_entry-IsOrdered, Keeps-Alike, Keeps-pure,
  Keeps-on_window, proceed-kept, always,
}

alike : {D : Type 0} {s : Manager D} → Alike s s
alike = record { windows = refl; next_hwnd = refl }

module _ {D : Type 0} (low : ℕ) where
  pub Keeps-update :
      (f : Manager D → Manager D) → ((s : Manager D) → Alike s (f s)) → Keeps low (update f)
  unfolding update
  Keeps-update f a = Keeps-Alike low _ a

  pub Keeps-enqueue : (m : Message) → Keeps {D = D} low (update (enqueue m))
  Keeps-enqueue m = Keeps-update _ (λ s. record { windows = refl; next_hwnd = refl })

  pub register_class-Keeps :
      (name : Text) (a b c d : ℕ) → Keeps {D = D} low (register_class name a b c d)
  unfolding register_class
  register_class-Keeps name a b c d = Keeps-Alike low _ λ s.
      elim (Option-cases (get (lower name) s.class_by_name)) [
        | inl e ↦ rw (e, register_class) (record { windows = refl; next_hwnd = refl })
        | inr (atom, e) ↦ rw (e, register_class) (record { windows = refl; next_hwnd = refl })
      ]

  pub register_child-Keeps :
      (parent_hwnd ctrl_id child_hwnd : ℕ)
      → Keeps {D = D} low (register_child parent_hwnd ctrl_id child_hwnd)
  unfolding register_child
  register_child-Keeps parent_hwnd ctrl_id child_hwnd = Keeps-on_window low _ _ _ _ (λ s e l y. y)

  pub set_window_text-Keeps :
      (hwnd : ℕ) (text : Text) → Keeps {D = D} low (set_window_text hwnd text)
  unfolding set_window_text
  set_window_text-Keeps hwnd text = Keeps-on_window low _ _ _ _ (λ s e l y. y)

  pub set_check_state-Keeps : (hwnd state : ℕ) → Keeps {D = D} low (set_check_state hwnd state)
  unfolding set_check_state
  set_check_state-Keeps hwnd state = Keeps-on_window low _ _ _ _ (λ s e l y. y)

  pub end_dialog-Keeps : (hwnd result : ℕ) → Keeps {D = D} low (end_dialog hwnd result)
  unfolding end_dialog
  end_dialog-Keeps hwnd result = Keeps-on_window low _ _ _ _ (λ s e l y. y)

  pub post_message-Keeps :
      (hwnd msg wparam lparam : ℕ) → Keeps {D = D} low (post_message hwnd msg wparam lparam)
  unfolding post_message
  post_message-Keeps hwnd msg wparam lparam = Keeps-Alike low _ λ s.
      elim (Option-cases (get hwnd s.windows)) [
        | inl e ↦ rw (e, has_key) (alike)
        | inr (w, e) ↦ rw (e, has_key) (record { windows = refl; next_hwnd = refl })
      ]

  pub peek_message-Keeps : Keeps {D = D} low peek_message
  unfolding peek_message
  peek_message-Keeps = Keeps-Alike low _ λ s. popped s.message_queue s
    where
      popped : (q : List Message) (s : Manager D) → Alike s (pop_front q s).1
      popped [] s = alike
      popped (m ∷ ms) s = record { windows = refl; next_hwnd = refl }

  pub cycle_focus-Keeps : (hwnd : ℕ) → Keeps {D = D} low (cycle_focus hwnd)
  unfolding cycle_focus
  cycle_focus-Keeps hwnd = Keeps-Alike low _ λ s. elim (Option-cases (get hwnd s.windows)) [
    | inl e ↦ rw (e, cycle_focus) alike
    | inr (current, e) ↦
        rw (e, cycle_focus)
          (elim (Option-cases (get current.parent_hwnd s.windows)) [
            | inl e' ↦ rw e' alike
            | inr (parent, e') ↦ rw e' (record { windows = refl; next_hwnd = refl })
          ])
  ]

  activate_button-Keeps :
      (dlg_hwnd ctrl_id child_hwnd : ℕ) (s : Manager D) (child : WindowEntry)
      → get child_hwnd s.windows ≡ some child
      → low ≤ s.next_hwnd
      → IsOrdered s
      → let u = (activate_button dlg_hwnd ctrl_id child_hwnd child s).1 in
        (low ≤ u.next_hwnd) × IsOrdered u
  unfolding activate_button update
  activate_button-Keeps dlg_hwnd ctrl_id child_hwnd s child found l v =
      elim (Bool-cases (is_checkbox child.style)) [
        | inl e ↦ rw e (
          l,
          set_entry-IsOrdered child_hwnd _ s (v.handed child_hwnd child found)
              (v.younger child_hwnd child found) v,
        )
        | inr e ↦ rw e (l, Alike-IsOrdered s _ (record { windows = refl; next_hwnd = refl }) v)
      ]

  click_child-Keeps :
      (dlg_hwnd ctrl_id child_hwnd : ℕ) (s : Manager D) (o : Option WindowEntry)
      → get child_hwnd s.windows ≡ o
      → low ≤ s.next_hwnd
      → IsOrdered s
      → let u = (click_child dlg_hwnd ctrl_id child_hwnd o s).1 in (low ≤ u.next_hwnd) × IsOrdered u
  unfolding pure ◌>>=◌
  click_child-Keeps dlg_hwnd ctrl_id child_hwnd s none found l v = (l, v)
  click_child-Keeps dlg_hwnd ctrl_id child_hwnd s (some child) found l v =
      elim (Bool-cases (text_same (lower child.class_name) (codes "button"))) [
        | inl e ↦ rw e (
            proceed-kept low (λ _. Unit {0}) _ (activate_button dlg_hwnd ctrl_id child_hwnd child s)
              (always (activate_button dlg_hwnd ctrl_id child_hwnd child s).0)
              (λ a _. Keeps-pure low true)
              (activate_button-Keeps dlg_hwnd ctrl_id child_hwnd s child found l v))
        | inr e ↦ rw e (l, v)
      ]

  pub click_control-Keeps :
      (dlg_hwnd ctrl_id : ℕ) → Keeps {D = D} low (click_control dlg_hwnd ctrl_id)
  unfolding click_control get_manager ◌>>=◌ pure
  click_control-Keeps dlg_hwnd ctrl_id = record {
    at = λ s l v. elim (Bool-cases (get_dlg_item dlg_hwnd ctrl_id s == 0)) [
      | inl e ↦ rw e (l, v)
      | inr e ↦
          rw e (click_child-Keeps dlg_hwnd ctrl_id (get_dlg_item dlg_hwnd ctrl_id s) s _ refl l v)
    ];
  }
