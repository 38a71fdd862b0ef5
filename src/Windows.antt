-- ===== src/Windows.antt =====
-- The windows of the guest: WindowManager of tew/api/window_manager.py, without their places and sizes. The calls
-- of SDL, and the loading of bitmaps, are a parameter.
pub mod Order
pub mod Create
pub mod Kept
pub mod Created
pub mod Destroy
pub mod Fewer
pub mod Destroyed
pub mod Runs
use tew.Base.{
  ℕ, zero, suc, ◌+◌, ◌-◌, ◌/◌, ◌%◌, ◌≤◌, ◌<◌, ltb, ◌==◌, Bool, true, false, not, ◌&&◌, ◌||◌,
  if◌then◌else◌, Option, none, some, List, [], ◌∷◌, ◌++◌, length, Dict, Text, get, put, pop,
  has_key, text_key, nat_key, text_same, has_prefix, codes, get_or, Exec, Result, ok, err,
  key_error, out_of_fuel, ◌>>=◌, ◌>>◌, pure, raise, bit_or,
}
use tew.State.{Message}
use tew.Ini.{lower}

pub record WindowClass : Type 0 where
  pub name : Text
  pub atom : ℕ
  pub wnd_proc_addr : ℕ
  pub background : ℕ
  pub icon : ℕ
  pub cursor : ℕ

pub record WindowEntry : Type 0 where
  pub hwnd : ℕ
  pub class_name : Text
  pub title : Text
  pub style : ℕ
  pub ex_style : ℕ
  pub parent_hwnd : ℕ
  pub children : Dict ℕ ℕ
  pub children_list : List (ℕ × ℕ)
  pub creator_tid : ℕ
  pub wnd_proc_addr : ℕ
  pub dlg_proc_addr : ℕ
  pub dlg_result : ℕ
  pub dlg_done : Bool
  pub check_state : ℕ
  pub sdl_window : Option ℕ
  pub sdl_renderer : Option ℕ
  pub bitmap_texture : Option ℕ

pub record Manager (D : Type 0) : Type 0 where
  pub initialized : Bool
  pub classes : Dict ℕ WindowClass
  pub class_by_name : Dict Text ℕ
  pub windows : Dict ℕ WindowEntry
  pub next_hwnd : ℕ
  pub next_atom : ℕ
  pub message_queue : List Message
  pub focused_hwnd : ℕ
  pub sdl_window_id_to_hwnd : Dict ℕ ℕ
  pub display : D

-- The calls of SDL, and load_bitmap_texture of a control's title. The display is `D`.
pub record Sdl (D : Type 0) : Type 0 where
  -- SDL_SetHint and SDL_Init, and SDL_Init's code
  pub init : D → ℕ × D
  pub sdl_create_window : D → Text → ℕ → Option ℕ × D
  -- accelerated, or else by software
  pub create_renderer : D → ℕ → Option ℕ × D
  pub window_id : D → ℕ → ℕ
  pub raise_window : D → ℕ → D
  pub sdl_destroy_window : D → ℕ → D
  pub destroy_renderer : D → ℕ → D
  pub destroy_texture : D → ℕ → D
  pub load_bitmap : D → ℕ → Text → Option ℕ × D

pub record DialogControl : Type 0 where
  pub id : ℕ
  pub class_name : Text
  pub title : Text
  pub style : ℕ
  pub ex_style : ℕ

pub record DialogTemplate : Type 0 where
  pub title : Text
  pub style : ℕ
  pub controls : List DialogControl

abbrev pub Win : Type 0 → Type 0 → Type 0
Win D A = Exec (Manager D) A

abbrev pub wm_create : ℕ
wm_create = 0x0001

abbrev pub wm_paint : ℕ
wm_paint = 0x000F

abbrev pub wm_initdialog : ℕ
wm_initdialog = 0x0110

abbrev pub wm_command : ℕ
wm_command = 0x0111

abbrev pub ws_visible : ℕ
ws_visible = 0x10000000

abbrev pub ws_popup : ℕ
ws_popup = 0x80000000

abbrev pub dialog_class : Text
dialog_class = codes "#32770"

-- style & WS_VISIBLE
abbrev pub is_visible : ℕ → Bool
is_visible style = style / ws_visible % 2 == 1

abbrev pub message : ℕ → ℕ → ℕ → ℕ → Message
message hwnd msg wparam lparam = record { hwnd = hwnd; msg = msg; wparam = wparam; lparam = lparam }

abbrev pub enqueue : {D : Type 0} → Message → Manager D → Manager D
enqueue m s = record s { message_queue = s.message_queue ++ m ∷ [] }

abbrev pub set_entry : {D : Type 0} → ℕ → WindowEntry → Manager D → Manager D
set_entry hwnd e s = record s { windows = put hwnd e s.windows }

module _ {D : Type 0} where
  unfoldable pub get_manager : Win D (Manager D)
  get_manager s = (ok s, s)

  unfoldable pub update : (Manager D → Manager D) → Win D (Unit {0})
  update f s = (ok tt, f s)

  -- An atom that is registered is given again.
  unfoldable pub register_class : Text → ℕ → ℕ → ℕ → ℕ → Win D ℕ
  register_class name wnd_proc_addr background icon cursor s =
      elim (get (lower name) s.class_by_name) [
        | some atom ↦ (ok atom, s)
        | none ↦ (
          ok s.next_atom,
          record s {
            next_atom = s.next_atom + 1;
            classes =
                put s.next_atom
                  (record {
                    name = name;
                    atom = s.next_atom;
                    wnd_proc_addr = wnd_proc_addr;
                    background = background;
                    icon = icon;
                    cursor = cursor;
                  })
                  s.classes;
            class_by_name = put (lower name) s.next_atom s.class_by_name;
          },
        )
      ]

  unfoldable pub get_class_atom : Text → Manager D → ℕ
  get_class_atom name s = get_or (get (lower name) s.class_by_name) 0

  unfoldable pub alloc_hwnd : Win D ℕ
  alloc_hwnd s = (ok s.next_hwnd, record s { next_hwnd = s.next_hwnd + 4 })

  -- A change of one entry, and the answer; `missing` if there is no such window.
  unfoldable pub on_window : {A : Type 0} → ℕ → A → A → (WindowEntry → WindowEntry) → Win D A
  on_window hwnd missing answer f s = elim (get hwnd s.windows) [
    | none ↦ (ok missing, s)
    | some e ↦ (ok answer, set_entry hwnd (f e) s)
  ]

  unfoldable pub register_child : ℕ → ℕ → ℕ → Win D (Unit {0})
  register_child parent_hwnd ctrl_id child_hwnd =
      on_window parent_hwnd tt tt (λ e. record e { children = put ctrl_id child_hwnd e.children })

  unfoldable pub get_dlg_item : ℕ → ℕ → Manager D → ℕ
  get_dlg_item dlg_hwnd ctrl_id s = elim (get dlg_hwnd s.windows) [
    | none ↦ 0
    | some e ↦ get_or (get ctrl_id e.children) 0
  ]

  unfoldable pub get_window_text : ℕ → Manager D → Text
  get_window_text hwnd s = elim (get hwnd s.windows) [ none ↦ [] | some e ↦ e.title ]

  unfoldable pub set_window_text : ℕ → Text → Win D Bool
  set_window_text hwnd text = on_window hwnd false true (λ e. record e { title = text })

  unfoldable pub get_check_state : ℕ → Manager D → ℕ
  get_check_state hwnd s = elim (get hwnd s.windows) [ none ↦ 0 | some e ↦ e.check_state ]

  unfoldable pub set_check_state : ℕ → ℕ → Win D (Unit {0})
  set_check_state hwnd state = on_window hwnd tt tt (λ e. record e { check_state = state })

  unfoldable pub end_dialog : ℕ → ℕ → Win D Bool
  end_dialog hwnd result =
      on_window hwnd false true (λ e. record e { dlg_result = result; dlg_done = true })

  unfoldable pub post_message : ℕ → ℕ → ℕ → ℕ → Win D Bool
  post_message hwnd msg wparam lparam s =
      if not (has_key hwnd s.windows)
      then (ok false, s)
      else (ok true, enqueue (message hwnd msg wparam lparam) s)

  abbrev pub pop_front : List Message → Manager D → Result (Option Message) × Manager D
  pop_front [] s = (ok none, s)
  pop_front (m ∷ ms) s = (ok (some m), record s { message_queue = ms })

  unfoldable pub peek_message : Win D (Option Message)
  peek_message s = pop_front s.message_queue s

-- check_state ^= 1
abbrev pub toggled : ℕ → ℕ
toggled v = if v % 2 == 0 then v + 1 else v - 1

-- child.style & 0x0F in (0x02, 0x03)
abbrev pub is_checkbox : ℕ → Bool
is_checkbox style = (style % 16 == 2) || (style % 16 == 3)

-- The controls of class EDIT that exist, in order.
unfoldable pub edit_controls : Dict ℕ WindowEntry → List (ℕ × ℕ) → List ℕ
edit_controls windows [] = []
edit_controls windows ((id, hwnd) ∷ cs) = elim (get hwnd windows) [
  | none ↦ edit_controls windows cs
  | some e ↦
      if text_same (lower e.class_name) (codes "edit")
      then hwnd ∷ edit_controls windows cs
      else edit_controls windows cs
]

-- The item after the first `hwnd`, cyclically; the first one if `hwnd` is not there.
unfoldable pub item_after : ℕ → ℕ → List ℕ → ℕ
item_after hwnd first [] = first
item_after hwnd first (h ∷ []) = first
item_after hwnd first (h ∷ h' ∷ hs) = if h == hwnd then h' else item_after hwnd first (h' ∷ hs)

abbrev next_focus : ℕ → List ℕ → ℕ → ℕ
next_focus hwnd [] focus = focus
next_focus hwnd (h ∷ []) focus = focus
next_focus hwnd (h ∷ h' ∷ hs) focus = item_after hwnd h (h ∷ h' ∷ hs)

module _ {D : Type 0} where
  unfoldable pub activate_button : ℕ → ℕ → ℕ → WindowEntry → Win D (Unit {0})
  activate_button dlg_hwnd ctrl_id child_hwnd child =
      if is_checkbox child.style
      then update (set_entry child_hwnd (record child { check_state = toggled child.check_state }))
      else update (enqueue (message dlg_hwnd wm_command ctrl_id child_hwnd))

  abbrev pub click_child : ℕ → ℕ → ℕ → Option WindowEntry → Win D Bool
  click_child dlg_hwnd ctrl_id child_hwnd none = pure false
  click_child dlg_hwnd ctrl_id child_hwnd (some child) =
      if not (text_same (lower child.class_name) (codes "button"))
      then pure false
      else (do activate_button dlg_hwnd ctrl_id child_hwnd child; pure true)

  unfoldable pub click_control : ℕ → ℕ → Win D Bool
  click_control dlg_hwnd ctrl_id = do
    s ← get_manager
    let child_hwnd = get_dlg_item dlg_hwnd ctrl_id s
    if child_hwnd == 0
        then pure false
        else click_child dlg_hwnd ctrl_id child_hwnd (get child_hwnd s.windows)

  unfoldable pub cycle_focus : ℕ → Win D (Unit {0})
  cycle_focus current_hwnd s = elim (get current_hwnd s.windows) [
    | none ↦ (ok tt, s)
    | some current ↦ elim (get current.parent_hwnd s.windows) [
      | none ↦ (ok tt, s)
      | some parent ↦ (
        ok tt,
        record s {
          focused_hwnd =
              next_focus current_hwnd (edit_controls s.windows parent.children_list) s.focused_hwnd;
        },
      )
    ]
  ]
