-- ===== src/Windows/Destroy.antt =====
-- destroy_window of tew/api/window_manager.py.
use tew.Base.{
  ℕ, zero, suc, ◌==◌, Bool, true, false, if◌then◌else◌, Option, none, some, List, [], ◌∷◌, get, pop,
  has_key, text_key, nat_key, ok, err, key_error, out_of_fuel, ◌>>=◌, ◌>>◌, pure, raise,
}
use tew.Windows.{WindowEntry, Manager, Sdl, Win, get_manager, update}
use tew.Windows.Create.{with_display}

module _ {D : Type 0} where
  abbrev pub unfocus : ℕ → Manager D → Manager D
  unfocus hwnd s = if s.focused_hwnd == hwnd then record s { focused_hwnd = 0 } else s

  -- del self._windows[hwnd]
  unfoldable pub remove_window : ℕ → Win D (Unit {0})
  remove_window hwnd s =
      if has_key hwnd s.windows
      then (ok tt, record s { windows = pop hwnd s.windows })
      else (err key_error, s)

  unfoldable pub destroy_all : (ℕ → Win D Bool) → List (ℕ × ℕ) → Win D (Unit {0})
  destroy_all destroy [] = pure tt
  destroy_all destroy ((id, hwnd) ∷ cs) = do gone ← destroy hwnd; destroy_all destroy cs

module _ {D : Type 0} (sdl : Sdl D) where
  abbrev drop_texture : Option ℕ → D → D
  drop_texture none d = d
  drop_texture (some t) d = sdl.destroy_texture d t

  abbrev drop_renderer : Option ℕ → D → D
  drop_renderer none d = d
  drop_renderer (some r) d = sdl.destroy_renderer d r

  abbrev pub drop_window : Option ℕ → Manager D → Manager D
  drop_window none s = s
  drop_window (some w) s = record s {
    sdl_window_id_to_hwnd = pop (sdl.window_id s.display w) s.sdl_window_id_to_hwnd;
    display = sdl.sdl_destroy_window s.display w;
  }

  -- SDL's resources of a window go.
  unfoldable pub release_window : WindowEntry → Manager D → Manager D
  release_window e s =
      drop_window e.sdl_window
        (with_display (drop_renderer e.sdl_renderer (drop_texture e.bitmap_texture s.display)) s)

  unfoldable pub destroy_found : (ℕ → Win D Bool) → ℕ → Option WindowEntry → Win D Bool
  destroy_found destroy hwnd none = pure false
  destroy_found destroy hwnd (some e) = do
    destroy_all destroy e.children_list
    update (λ u. unfocus hwnd (release_window e u))
    remove_window hwnd
    pure true

  unfoldable pub destroy_rounds : ℕ → ℕ → Win D Bool
  destroy_rounds zero hwnd = raise out_of_fuel
  destroy_rounds (suc rounds) hwnd = do
    s ← get_manager
    destroy_found (destroy_rounds rounds) hwnd (get hwnd s.windows)

  -- A child is younger than its window, so there are fewer nested calls than handles.
  unfoldable pub destroy_window : ℕ → Win D Bool
  destroy_window hwnd = do s ← get_manager; destroy_rounds (suc s.next_hwnd) hwnd
