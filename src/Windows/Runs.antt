-- ===== src/Windows/Runs.antt =====
-- Runs of the operations of WindowManager of tew/api/window_manager.py.
use tew.Base.{ℕ, inl, inr, refl, ◌==◌, false, Bool-cases, [], Text, get, nat_key, arith}
use tew.Windows.{
  Manager, Sdl, DialogTemplate, Win, register_class, register_child, set_window_text,
  set_check_state, end_dialog, post_message, peek_message, click_control, cycle_focus,
}
use tew.Windows.Create.{initialize, create_window, create_dialog}
use tew.Windows.Destroy.{destroy_window}
use tew.Windows.Order.{IsOrdered, Keeps, Keeps-Alike}
use tew.Windows.Kept.{
  register_class-Keeps, register_child-Keeps, set_window_text-Keeps, set_check_state-Keeps,
  end_dialog-Keeps, post_message-Keeps, peek_message-Keeps, click_control-Keeps, cycle_focus-Keeps,
}
use tew.Windows.Created.{create_window-Keeps, create_dialog-Keeps}
use tew.Windows.Destroyed.{destroy_window_lem}

-- A manager that has just been made.
abbrev pub new_manager : {D : Type 0} → D → Manager D
new_manager d = record {
  initialized = false;
  classes = [];
  class_by_name = [];
  windows = [];
  next_hwnd = 0x1000;
  next_atom = 0xC001;
  message_queue = [];
  focused_hwnd = 0;
  sdl_window_id_to_hwnd = [];
  display = d;
}

-- A call of an operation; shutdown and the events of SDL are not among them.
pub data Step {D : Type 0} (sdl : Sdl D) : Manager D → Manager D → Type 0 where
  starts : (s : Manager D) → Step sdl s (initialize sdl s).1
  registers :
      (name : Text) (a b c d : ℕ) → (s : Manager D) → Step sdl s (register_class name a b c d s).1
  creates :
      (class_name title : Text) (style ex_style parent_hwnd wnd_proc_addr creator_tid : ℕ)
      → (s : Manager D)
      → Step sdl s
          (create_window sdl class_name title style ex_style parent_hwnd wnd_proc_addr creator_tid
            s).1
  opens :
      (template : DialogTemplate) (parent_hwnd dlg_proc_addr init_param creator_tid : ℕ)
      → (s : Manager D)
      → Step sdl s (create_dialog sdl template parent_hwnd dlg_proc_addr init_param creator_tid s).1
  adopts :
      (parent_hwnd ctrl_id child_hwnd : ℕ)
      → (s : Manager D) → Step sdl s (register_child parent_hwnd ctrl_id child_hwnd s).1
  renames : (hwnd : ℕ) (text : Text) → (s : Manager D) → Step sdl s (set_window_text hwnd text s).1
  checks : (hwnd state : ℕ) → (s : Manager D) → Step sdl s (set_check_state hwnd state s).1
  ends : (hwnd result : ℕ) → (s : Manager D) → Step sdl s (end_dialog hwnd result s).1
  posts :
      (hwnd msg wparam lparam : ℕ)
      → (s : Manager D) → Step sdl s (post_message hwnd msg wparam lparam s).1
  peeks : (s : Manager D) → Step sdl s (peek_message s).1
  clicks :
      (dlg_hwnd ctrl_id : ℕ) → (s : Manager D) → Step sdl s (click_control dlg_hwnd ctrl_id s).1
  cycles : (hwnd : ℕ) → (s : Manager D) → Step sdl s (cycle_focus hwnd s).1
  destroys : (hwnd : ℕ) → (s : Manager D) → Step sdl s (destroy_window sdl hwnd s).1

-- The managers that calls lead to from a new one.
pub data Reach {D : Type 0} (sdl : Sdl D) : Manager D → Type 0 where
  fresh : (d : D) → Reach sdl (new_manager d)
  next : {s u : Manager D} → Reach sdl s → Step sdl s u → Reach sdl u

module _ {D : Type 0} (sdl : Sdl D) where
  initialize-Keeps : Keeps 0 (initialize sdl)
  unfolding initialize
  initialize-Keeps = Keeps-Alike 0 _ λ s. elim (Bool-cases s.initialized) [
    | inl e ↦ rw e (record { windows = refl; next_hwnd = refl })
    | inr e ↦ rw e (elim (Bool-cases ((sdl.init s.display).0 == 0)) [
      | inl f ↦ rw f (record { windows = refl; next_hwnd = refl })
      | inr f ↦ rw f (record { windows = refl; next_hwnd = refl })
    ])
  ]

module _ {D : Type 0} where
  kept : {A : Type 0} {m : Win D A} (s : Manager D) → Keeps 0 m → IsOrdered s → IsOrdered (m s).1
  kept s k v = (k.at s (omega arith) v).1

module _ {D : Type 0} {sdl : Sdl D} where
  Step-IsOrdered : {s u : Manager D} → Step sdl s u → IsOrdered s → IsOrdered u
  Step-IsOrdered (starts s) v = kept s (initialize-Keeps sdl) v
  Step-IsOrdered (registers name a b c d s) v = kept s (register_class-Keeps 0 name a b c d) v
  Step-IsOrdered (creates class_name title style ex_style parent_hwnd wnd_proc_addr creator_tid s)
        v =
      kept s
        (create_window-Keeps sdl 0 class_name title style ex_style parent_hwnd wnd_proc_addr
          creator_tid)
        v
  Step-IsOrdered (opens template parent_hwnd dlg_proc_addr init_param creator_tid s) v =
      kept s (create_dialog-Keeps sdl 0 template parent_hwnd dlg_proc_addr init_param creator_tid) v
  Step-IsOrdered (adopts parent_hwnd ctrl_id child_hwnd s) v =
      kept s (register_child-Keeps 0 parent_hwnd ctrl_id child_hwnd) v
  Step-IsOrdered (renames hwnd text s) v = kept s (set_window_text-Keeps 0 hwnd text) v
  Step-IsOrdered (checks hwnd state s) v = kept s (set_check_state-Keeps 0 hwnd state) v
  Step-IsOrdered (ends hwnd result s) v = kept s (end_dialog-Keeps 0 hwnd result) v
  Step-IsOrdered (posts hwnd msg wparam lparam s) v =
      kept s (post_message-Keeps 0 hwnd msg wparam lparam) v
  Step-IsOrdered (peeks s) v = kept s (peek_message-Keeps 0) v
  Step-IsOrdered (clicks dlg_hwnd ctrl_id s) v = kept s (click_control-Keeps 0 dlg_hwnd ctrl_id) v
  Step-IsOrdered (cycles hwnd s) v = kept s (cycle_focus-Keeps 0 hwnd) v
  Step-IsOrdered (destroys hwnd s) v = (destroy_window_lem sdl hwnd s v).1.1.1

  -- From a new manager, after any calls of the operations of Step, the handles of the windows lie in order: each is
  -- below the next one to give out, and the listed controls of a window have greater handles than it.
  pub reach-IsOrdered : {s : Manager D} → Reach sdl s → IsOrdered s
  unfolding get
  reach-IsOrdered (fresh d) = record { handed = λ h e found. cc; younger = λ h e found. cc }
  reach-IsOrdered (next r c) = Step-IsOrdered c (reach-IsOrdered r)
