-- ===== src/Windows/Create.antt =====
-- initialize, create_window and create_dialog of tew/api/window_manager.py.
use tew.Base.{
  ℕ, ◌==◌, Bool, true, false, not, ◌&&◌, if◌then◌else◌, Option, none, some, List, [], ◌∷◌, ◌++◌,
  Dict, Text, get, put, text_key, nat_key, text_same, has_prefix, codes, get_or, ok, ◌>>=◌, ◌>>◌,
  pure, bit_or,
}
use tew.Windows.{
  WindowEntry, Manager, Sdl, DialogControl, DialogTemplate, Win, wm_create, wm_paint, wm_initdialog,
  ws_visible, ws_popup, dialog_class, is_visible, message, enqueue, set_entry, get_manager, update,
  alloc_hwnd, on_window,
}

abbrev pub new_window : Text → Text → ℕ → ℕ → ℕ → ℕ → ℕ → ℕ → WindowEntry
new_window class_name title style ex_style parent_hwnd wnd_proc_addr creator_tid hwnd = record {
  hwnd = hwnd;
  class_name = class_name;
  title = title;
  style = style;
  ex_style = ex_style;
  parent_hwnd = parent_hwnd;
  children = [];
  children_list = [];
  creator_tid = creator_tid;
  wnd_proc_addr = wnd_proc_addr;
  dlg_proc_addr = 0;
  dlg_result = 0;
  dlg_done = false;
  check_state = 0;
  sdl_window = none;
  sdl_renderer = none;
  bitmap_texture = none;
}

abbrev pub with_display : {D : Type 0} → D → Manager D → Manager D
with_display d s = record s { display = d }

module _ {D : Type 0} (sdl : Sdl D) where
  -- SDL is started once.
  unfoldable pub initialize : Win D Bool
  initialize s =
      if s.initialized
      then (ok true, s)
      else (let r = sdl.init s.display in
          if r.0 == 0
          then (ok true, with_display r.1 (record s { initialized = true }))
          else (ok false, with_display r.1 s))

  unfoldable pub open_window : Text → ℕ → Win D (Option ℕ)
  open_window title flags s =
      let r = sdl.sdl_create_window s.display title flags in (ok r.0, with_display r.1 s)

  unfoldable pub open_renderer : ℕ → Win D (Option ℕ)
  open_renderer w s = let r = sdl.create_renderer s.display w in (ok r.0, with_display r.1 s)

  -- The host's id of the window is mapped to its handle, and the window is raised.
  unfoldable pub show_window : ℕ → ℕ → Win D (Unit {0})
  show_window w hwnd = update (λ s. record s {
    sdl_window_id_to_hwnd = put (sdl.window_id s.display w) hwnd s.sdl_window_id_to_hwnd;
    display = sdl.raise_window s.display w;
  })

  abbrev pub host_renderer : WindowEntry → Option ℕ → Win D (Option WindowEntry)
  host_renderer e none = pure none
  host_renderer e (some window) = do
    renderer ← if text_same e.class_name dialog_class then open_renderer window else pure none
    show_window window e.hwnd
    pure (some (record e { sdl_window = some window; sdl_renderer = renderer }))

  -- SDL_CreateWindow and what follows it, for a visible window without parent: `none` if it fails.
  unfoldable pub host_window : WindowEntry → Win D (Option WindowEntry)
  host_window e = do
    window ← open_window e.title (if text_same e.class_name dialog_class then 0x4 else 0x10000024)
    host_renderer e window

  abbrev pub enter_window : Option WindowEntry → Win D ℕ
  enter_window none = pure 0
  enter_window (some e) = do
    update (set_entry e.hwnd e)
    update (enqueue (message e.hwnd wm_create 0 0))
    update (enqueue (message e.hwnd wm_paint 0 0))
    pure e.hwnd

  unfoldable pub create_window : Text → Text → ℕ → ℕ → ℕ → ℕ → ℕ → Win D ℕ
  create_window class_name title style ex_style parent_hwnd wnd_proc_addr creator_tid = do
    s ← get_manager
    if not s.initialized then pure 0 else do
      hwnd ← alloc_hwnd
      let entry =
          new_window class_name title style ex_style parent_hwnd wnd_proc_addr creator_tid hwnd
      shown ←
          if (parent_hwnd == 0) && is_visible style then host_window entry else pure (some entry)
      enter_window shown

  -- A control of a dialog, whose bitmap is loaded if it is a STATIC with a "#" and a number.
  unfoldable pub control_bitmap : DialogControl → Option ℕ → Win D (Option ℕ)
  control_bitmap c none s = (ok none, s)
  control_bitmap c (some renderer) s =
      if text_same c.class_name (codes "STATIC") && has_prefix (codes "#") c.title
      then (let r = sdl.load_bitmap s.display renderer c.title in (ok r.0, with_display r.1 s))
      else (ok none, s)

  abbrev pub add_control : ℕ → ℕ → WindowEntry → WindowEntry
  add_control id hwnd e = record e {
    children_list = e.children_list ++ (id, hwnd) ∷ [];
    children = if id == 0xFFFF then e.children else put id hwnd e.children;
  }

  unfoldable pub create_controls : ℕ → Option ℕ → List DialogControl → Win D (Unit {0})
  create_controls hwnd renderer [] = pure tt
  create_controls hwnd renderer (c ∷ cs) = do
    child_hwnd ← alloc_hwnd
    let child = new_window c.class_name c.title c.style c.ex_style hwnd 0 0 child_hwnd
    update (set_entry child_hwnd child)
    on_window hwnd tt tt (add_control c.id child_hwnd)
    bitmap ← control_bitmap c renderer
    update (set_entry child_hwnd (record child { bitmap_texture = bitmap }))
    create_controls hwnd renderer cs

  -- The first EDIT control with an id of its own.
  abbrev pub first_edit : List DialogControl → Dict ℕ ℕ → Option ℕ
  first_edit [] children = none
  first_edit (c ∷ cs) children =
      if text_same c.class_name (codes "EDIT")
        && not (c.id == 0xFFFF)
        && not (get_or (get c.id children) 0 == 0)
      then get c.id children
      else first_edit cs children

  abbrev pub focus_first : List DialogControl → Option WindowEntry → Manager D → Manager D
  focus_first cs none s = s
  focus_first cs (some e) s = record s {
    focused_hwnd = get_or (first_edit cs e.children) s.focused_hwnd;
  }

  abbrev pub dialog_entry : DialogTemplate → ℕ → ℕ → ℕ → ℕ → ℕ → ℕ → WindowEntry
  dialog_entry template parent_hwnd dlg_proc_addr creator_tid hwnd window renderer =
      record (new_window dialog_class template.title
        (bit_or (bit_or template.style ws_popup) ws_visible) 0 parent_hwnd 0 creator_tid hwnd) {
          dlg_proc_addr = dlg_proc_addr;
          sdl_window = some window;
          sdl_renderer = some renderer;
        }

  -- What follows the calls of SDL.
  unfoldable pub fill_dialog : DialogTemplate → ℕ → ℕ → WindowEntry → Win D ℕ
  fill_dialog template init_param window entry = do
    update (set_entry entry.hwnd entry)
    show_window window entry.hwnd
    create_controls entry.hwnd entry.sdl_renderer template.controls
    update (λ s. focus_first template.controls (get entry.hwnd s.windows) s)
    update (enqueue (message entry.hwnd wm_initdialog 0 init_param))
    pure entry.hwnd

  abbrev pub with_renderer : DialogTemplate → ℕ → ℕ → ℕ → ℕ → ℕ → ℕ → Option ℕ → Win D ℕ
  with_renderer template parent_hwnd dlg_proc_addr init_param creator_tid hwnd window none = do
    update (λ s. with_display (sdl.sdl_destroy_window s.display window) s)
    pure 0
  with_renderer template parent_hwnd dlg_proc_addr init_param creator_tid hwnd window
        (some renderer) =
      fill_dialog template init_param window
        (dialog_entry template parent_hwnd dlg_proc_addr creator_tid hwnd window renderer)

  abbrev pub in_host : DialogTemplate → ℕ → ℕ → ℕ → ℕ → ℕ → Option ℕ → Win D ℕ
  in_host template parent_hwnd dlg_proc_addr init_param creator_tid hwnd none = pure 0
  in_host template parent_hwnd dlg_proc_addr init_param creator_tid hwnd (some window) = do
    renderer ← open_renderer window
    with_renderer template parent_hwnd dlg_proc_addr init_param creator_tid hwnd window renderer

  unfoldable pub create_dialog : DialogTemplate → ℕ → ℕ → ℕ → ℕ → Win D ℕ
  create_dialog template parent_hwnd dlg_proc_addr init_param creator_tid = do
    s ← get_manager
    if not s.initialized then pure 0 else do
      hwnd ← alloc_hwnd
      window ← open_window template.title 0x4
      in_host template parent_hwnd dlg_proc_addr init_param creator_tid hwnd window
