-- ===== src/Windows/Created.antt =====
-- create_window and create_dialog of tew/api/window_manager.py on the order of the handles.
use tew.Base.{
  ℕ, suc, ◌<◌, ◌≡◌, inl, inr, refl, ◌&&◌, Option, none, some, List, [], ◌∷◌, Text, get, nat_key,
  text_key, text_same, has_prefix, codes, Bool-cases, All-append, arith,
}
use tew.Windows.{WindowEntry, Manager, Sdl, DialogControl, DialogTemplate}
use tew.Windows.Create.{
  new_window, open_window, open_renderer, show_window, host_renderer, host_window, enter_window,
  create_window, control_bitmap, add_control, create_controls, focus_first, fill_dialog,
  with_renderer, in_host, create_dialog,
}
use tew.Windows.Order.{
  Alike, Keeps, Returns, Returns-pure, Returns-bind, Returns-if, Keeps-Alike, Keeps-pure,
  Keeps-bind, Keeps-bind_value, Keeps-get_manager, Keeps-alloc_hwnd, Keeps-set_entry,
  Keeps-on_window, Keeps-if,
}
use tew.Windows.Kept.{Keeps-update, Keeps-enqueue}

-- An entry of the window `h` without controls.
abbrev IsFresh : ℕ → Option WindowEntry → Type 0
IsFresh h none = Unit {0}
IsFresh h (some e) = (e.hwnd ≡ h) × (e.children_list ≡ [])

module _ {D : Type 0} (sdl : Sdl D) where
  open_window-Keeps : (low : ℕ) (title : Text) (flags : ℕ) → Keeps low (open_window sdl title flags)
  unfolding open_window
  open_window-Keeps low title flags =
      Keeps-Alike low _ λ s. record { windows = refl; next_hwnd = refl }

  open_renderer-Keeps : (low w : ℕ) → Keeps low (open_renderer sdl w)
  unfolding open_renderer
  open_renderer-Keeps low w = Keeps-Alike low _ λ s. record { windows = refl; next_hwnd = refl }

  show_window-Keeps : (low w hwnd : ℕ) → Keeps low (show_window sdl w hwnd)
  unfolding show_window
  show_window-Keeps low w hwnd = Keeps-update low _ λ s. record { windows = refl; next_hwnd = refl }

  host_renderer-Keeps :
      (low : ℕ) (e : WindowEntry) (o : Option ℕ) → Keeps low (host_renderer sdl e o)
  host_renderer-Keeps low e none = Keeps-pure low none
  host_renderer-Keeps low e (some window) =
      Keeps-bind low _ _ (Keeps-if low _ _ _ (open_renderer-Keeps low window) (Keeps-pure low none))
        λ renderer. Keeps-bind low _ _ (show_window-Keeps low window e.hwnd) λ _. Keeps-pure low _

  host_renderer-IsFresh :
      (e : WindowEntry) (o : Option ℕ)
      → e.children_list ≡ []
      → Returns (IsFresh e.hwnd) (host_renderer sdl e o)
  host_renderer-IsFresh e none c = Returns-pure _ none tt
  host_renderer-IsFresh e (some window) c =
      Returns-bind _ _ _ λ renderer. Returns-bind _ _ _ λ _. Returns-pure _ _ (refl, c)

  host_window-Keeps : (low : ℕ) (e : WindowEntry) → Keeps low (host_window sdl e)
  unfolding host_window
  host_window-Keeps low e =
      Keeps-bind low _ _ (open_window-Keeps low e.title _)
        λ window. host_renderer-Keeps low e window

  host_window-IsFresh :
      (e : WindowEntry) → e.children_list ≡ [] → Returns (IsFresh e.hwnd) (host_window sdl e)
  unfolding host_window
  host_window-IsFresh e c = Returns-bind _ _ _ λ window. host_renderer-IsFresh e window c

  enter_window-Keeps :
      (low h : ℕ) (o : Option WindowEntry)
      → h < low
      → IsFresh h o
      → Keeps {D = D} low (enter_window sdl o)
  enter_window-Keeps low h none l f = Keeps-pure low 0
  enter_window-Keeps low h (some e) l f =
      Keeps-bind low _ _ (Keeps-set_entry low e.hwnd e (omega (arith, l, f.0)) f.1) λ _.
        Keeps-bind low _ _ (Keeps-enqueue low _)
          λ _. Keeps-bind low _ _ (Keeps-enqueue low _) λ _. Keeps-pure low e.hwnd

  pub create_window-Keeps :
      (low : ℕ) (class_name title : Text) (style ex_style parent_hwnd wnd_proc_addr creator_tid : ℕ)
      → Keeps low
          (create_window sdl class_name title style ex_style parent_hwnd wnd_proc_addr creator_tid)
  unfolding create_window
  create_window-Keeps low class_name title style ex_style parent_hwnd wnd_proc_addr creator_tid =
      Keeps-get_manager low _ λ s. Keeps-if low _ _ _ (Keeps-pure low 0) (
        Keeps-alloc_hwnd low _ λ h l.
          let entry =
            new_window class_name title style ex_style parent_hwnd wnd_proc_addr creator_tid h in
          Keeps-bind_value (suc h) (IsFresh h) _ _
            (Keeps-if (suc h) _ _ _ (host_window-Keeps (suc h) entry)
              (Keeps-pure (suc h) (some entry)))
            (Returns-if (IsFresh h) _ _ _ (host_window-IsFresh entry refl)
              (Returns-pure (IsFresh h) (some entry) (refl, refl)))
            (λ o f. enter_window-Keeps (suc h) h o (omega arith) f))

  control_bitmap-Keeps :
      (low : ℕ) (c : DialogControl) (o : Option ℕ) → Keeps low (control_bitmap sdl c o)
  unfolding control_bitmap
  control_bitmap-Keeps low c none =
      Keeps-Alike low _ λ s. record { windows = refl; next_hwnd = refl }
  control_bitmap-Keeps low c (some r) = Keeps-Alike low _ λ s.
      elim (Bool-cases
        (text_same c.class_name (codes "STATIC") && has_prefix (codes "#") c.title)) [
          | inl e ↦ rw e (record { windows = refl; next_hwnd = refl })
          | inr e ↦ rw e (record { windows = refl; next_hwnd = refl })
        ]

  create_controls-Keeps :
      (low hwnd : ℕ) (renderer : Option ℕ) (cs : List DialogControl)
      → hwnd < low
      → Keeps low (create_controls sdl hwnd renderer cs)
  unfolding create_controls
  create_controls-Keeps low hwnd renderer [] l = Keeps-pure low tt
  create_controls-Keeps low hwnd renderer (c ∷ cs) l = Keeps-alloc_hwnd low _ λ h above.
      Keeps-bind (suc h) _ _ (Keeps-set_entry (suc h) h _ (omega arith) refl) λ _.
        Keeps-bind (suc h) _ _
          (Keeps-on_window (suc h) hwnd tt tt (add_control sdl c.id h) (λ s e k y.
            All-append _ e.children_list ((c.id, h) ∷ []) y
              ((omega (arith, l, above), omega (arith, k)), tt)))
          λ _. Keeps-bind (suc h) _ _ (control_bitmap-Keeps (suc h) c renderer) λ bitmap.
            Keeps-bind (suc h) _ _ (Keeps-set_entry (suc h) h _ (omega arith) refl)
              λ _. create_controls-Keeps (suc h) hwnd renderer cs (omega (arith, l, above))

  focus_first-Alike :
      (cs : List DialogControl) (o : Option WindowEntry) (s : Manager D)
      → Alike s (focus_first sdl cs o s)
  focus_first-Alike cs none s = record { windows = refl; next_hwnd = refl }
  focus_first-Alike cs (some e) s = record { windows = refl; next_hwnd = refl }

  fill_dialog-Keeps :
      (low : ℕ) (template : DialogTemplate) (init_param window : ℕ) (e : WindowEntry)
      → e.hwnd < low
      → e.children_list ≡ []
      → Keeps low (fill_dialog sdl template init_param window e)
  unfolding fill_dialog
  fill_dialog-Keeps low template init_param window e l c =
      Keeps-bind low _ _ (Keeps-set_entry low e.hwnd e l c) λ _.
        Keeps-bind low _ _ (show_window-Keeps low window e.hwnd) λ _.
          Keeps-bind low _ _ (create_controls-Keeps low e.hwnd e.sdl_renderer template.controls l)
            λ _.
              Keeps-bind low _ _
                (Keeps-update low _
                  (λ s. focus_first-Alike template.controls (get e.hwnd s.windows) s))
                λ _. Keeps-bind low _ _ (Keeps-enqueue low _) λ _. Keeps-pure low e.hwnd

  with_renderer-Keeps :
      (template : DialogTemplate) (parent_hwnd dlg_proc_addr init_param creator_tid h window : ℕ)
      (o : Option ℕ)
      → Keeps
          (suc h)
          (with_renderer sdl template parent_hwnd dlg_proc_addr init_param creator_tid h window o)
  with_renderer-Keeps template parent_hwnd dlg_proc_addr init_param creator_tid h window none =
      Keeps-bind (suc h) _ _
        (Keeps-update (suc h) _ λ s. record { windows = refl; next_hwnd = refl })
        λ _. Keeps-pure (suc h) 0
  with_renderer-Keeps template parent_hwnd dlg_proc_addr init_param creator_tid h window (some r) =
      fill_dialog-Keeps (suc h) template init_param window _ (omega arith) refl

  in_host-Keeps :
      (template : DialogTemplate) (parent_hwnd dlg_proc_addr init_param creator_tid h : ℕ)
      (o : Option ℕ)
      → Keeps (suc h) (in_host sdl template parent_hwnd dlg_proc_addr init_param creator_tid h o)
  in_host-Keeps template parent_hwnd dlg_proc_addr init_param creator_tid h none =
      Keeps-pure (suc h) 0
  in_host-Keeps template parent_hwnd dlg_proc_addr init_param creator_tid h (some window) =
      Keeps-bind (suc h) _ _ (open_renderer-Keeps (suc h) window) λ r.
        with_renderer-Keeps template parent_hwnd dlg_proc_addr init_param creator_tid h window r

  pub create_dialog-Keeps :
      (low : ℕ) (template : DialogTemplate) (parent_hwnd dlg_proc_addr init_param creator_tid : ℕ)
      → Keeps low (create_dialog sdl template parent_hwnd dlg_proc_addr init_param creator_tid)
  unfolding create_dialog
  create_dialog-Keeps low template parent_hwnd dlg_proc_addr init_param creator_tid =
      Keeps-get_manager low _ λ s. Keeps-if low _ _ _ (Keeps-pure low 0) (
        Keeps-alloc_hwnd low _ λ h l.
          Keeps-bind (suc h) _ _ (open_window-Keeps (suc h) template.title _) λ window.
            in_host-Keeps template parent_hwnd dlg_proc_addr init_param creator_tid h window)
