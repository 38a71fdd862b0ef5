-- ===== src/Tests/Windowing.antt =====
-- Windows and dialogs, run: WindowManager of tew/api/window_manager.py.
use tew.Base.{ℕ, ◌+◌, ◌≡◌, ◌⊎◌, none, some, [], ◌∷◌, Text, codes, get, nat_key, has_key, ok}
use tew.Windows.{Manager, Sdl, DialogControl, DialogTemplate}
use tew.Windows.Create.{initialize, create_dialog}
use tew.Windows.Destroy.{destroy_window}
use tew.Windows.Order.{IsOrdered}
use tew.Windows.Fewer.{Below}
use tew.Windows.Destroyed.{destroy_window_lem}
use tew.Windows.Runs.{Step, Reach, new_manager, reach-IsOrdered}

-- A host that counts its calls, and names what it makes by the count.
abbrev counting : Sdl ℕ
counting = record {
  init = λ d. (0, d + 1);
  sdl_create_window = λ d title flags. (some d, d + 1);
  create_renderer = λ d w. (some d, d + 1);
  window_id = λ d w. w;
  raise_window = λ d w. d + 1;
  sdl_destroy_window = λ d w. d + 1;
  destroy_renderer = λ d r. d + 1;
  destroy_texture = λ d t. d + 1;
  load_bitmap = λ d r title. (none, d + 1);
}

abbrev control : ℕ → Text → DialogControl
control id class_name = record {
  id = id;
  class_name = class_name;
  title = codes "?";
  style = 0;
  ex_style = 0;
}

abbrev login : DialogTemplate
login = record {
  title = codes "Login";
  style = 0;
  controls =
      control 7 (codes "EDIT") ∷ control 0xFFFF (codes "STATIC") ∷ control 1 (codes "BUTTON") ∷ [];
}

abbrev started : Manager ℕ
started = (initialize counting (new_manager 0)).1

abbrev opened : Manager ℕ
opened = (create_dialog counting login 0 0x401000 5 1 started).1

opened_reached : Reach counting opened
opened_reached =
    Reach.next (Reach.next (Reach.fresh 0) (Step.starts (new_manager 0)))
      (Step.opens login 0 0x401000 5 1 started)

reach-IsOrdered_example : IsOrdered opened
reach-IsOrdered_example = reach-IsOrdered opened_reached

destroy_window_lem_example :
    let r = destroy_window counting 0x1000 opened in
    (r.0 ≡ ok (has_key 0x1000 opened.windows))
    × (((h : ℕ) → Below opened 0x1000 h → get h r.1.windows ≡ none)
        × (((h : ℕ) → Below opened 0x1000 h ⊎ (get h r.1.windows ≡ get h opened.windows))
            × IsOrdered r.1))
destroy_window_lem_example =
    destroy_window_lem counting 0x1000 opened (reach-IsOrdered opened_reached)
