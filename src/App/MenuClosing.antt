-- ===== src/App/MenuClosing.antt =====
-- The menu bar, the file browser and the popups close what they open (frontend/imgui_app.cpp).
use ggml_viz.Base.{
  ℕ, ◌≡◌, refl, Bool, true, false, not, ◌&&◌, ◌||◌, List, [], ◌∷◌, Option, none, some,
  if◌then◌else◌, if-cases, arith,
}
use ggml_viz.Event.{Event}
use ggml_viz.Hook.Defs.{Hook}
use ggml_viz.App.Defs.{App, Message, is_empty}
use ggml_viz.App.Screen.{
  stats, browser, menu_bar, Scope, window, Notice, closes, Ui, Gui, same_panel, same_scope,
}
use ggml_viz.App.Menu.{
  has_reader, close_trace, render_file_menu, render_view_menu, loaded_text, render_menu_status,
  in_menu, render_menus, render_main_menu_bar, notice_popup, open_notice, show_notice, trace_stats,
  stats_text, render_stats_overlay, loaded_ui, press_open, press_cancel, browse,
  render_file_browser, press_ok, error_popup_of,
}
use ggml_viz.App.Nesting.{IsClosed, append-IsClosed, left_open-then, Draws, bind-Draws}
use ggml_viz.App.Frames.{IsReadable}
use ggml_viz.App.Readable.{LeavesReadable, load_trace_file-LeavesReadable}

render_file_menu-IsReadable :
    (g : Gui) (u : Ui) → IsReadable u.app → IsReadable (render_file_menu g u).app
unfolding render_file_menu close_trace
render_file_menu-IsReadable g u p =
    if-cases IsReadable (g.close_trace && u.app.trace_loaded) _ _
      (λ e loaded. absurd (ground (arith, loaded))) (λ e. p)

in_menu-Draws :
    (st : List Scope) (shown : Bool) (f : Ui → Ui) (u : Ui)
    → IsReadable u.app
    → IsReadable (f u).app
    → Draws st st IsReadable (in_menu shown f u)
unfolding in_menu same_scope
in_menu-Draws st true f u p q = (refl, q)
in_menu-Draws st false f u p q = (refl, p)

loaded_text-Draws :
    (st : List Scope) (name : List ℕ) (r : Option (List Event)) (u : Ui)
    → has_reader r ≡ true
    → IsReadable u.app
    → Draws st st IsReadable (loaded_text name r u)
unfolding loaded_text has_reader
loaded_text-Draws st name none u h p = absurd (ground (arith, h))
loaded_text-Draws st name (some es) u h p = (refl, p)

render_menu_status-Draws :
    (st : List Scope) (u : Ui) → IsReadable u.app → Draws st st IsReadable (render_menu_status u)
unfolding render_menu_status
render_menu_status-Draws st u p =
    if-cases (Draws st st IsReadable) (u.app.trace_loaded || u.app.live_mode) _ _
      (λ e.
        if-cases (Draws st st IsReadable) u.app.live_mode _ _ (λ on. (refl, p))
          (λ off.
            loaded_text-Draws st u.app.current_filename u.app.trace_reader u
              (p (ground (arith, e, off))) p))
      (λ e. (refl, p))

pub render_main_menu_bar-Draws :
    (st : List Scope) (g : Gui) (u : Ui)
    → IsReadable u.app
    → Draws st st IsReadable (render_main_menu_bar g u)
unfolding render_main_menu_bar render_menus render_view_menu same_scope
render_main_menu_bar-Draws st g u p =
    let ts : List Scope = menu_bar ∷ st in
    if-cases (Draws st st IsReadable) g.main_menu_bar _ _
      (λ e.
        bind-Draws st ts st IsReadable IsReadable _ _ (refl, p)
          (λ u1 p1.
            bind-Draws ts ts st IsReadable IsReadable _ _
              (in_menu-Draws ts g.file_menu _ u1 p1 (render_file_menu-IsReadable g u1 p1))
              (λ u2 p2.
                bind-Draws ts ts st IsReadable IsReadable _ _
                  (in_menu-Draws ts g.view_menu _ u2 p2 p2)
                  (λ u3 p3.
                    bind-Draws ts ts st IsReadable IsReadable _ _
                      (in_menu-Draws ts g.help_menu _ u3 p3 p3)
                      (λ u4 p4.
                        bind-Draws ts ts st IsReadable IsReadable _ _
                          (render_menu_status-Draws ts u4 p4) (λ u5 p5. (refl, p5)))))))
      (λ e. (refl, p))

notice_popup-IsClosed : (g : Gui) (n : Notice) → IsClosed (notice_popup g n)
unfolding notice_popup same_scope
notice_popup-IsClosed g n = if-cases IsClosed g.status_popup _ _ (λ e ts. refl) (λ e ts. refl)

open_notice-IsClosed : (g : Gui) → IsClosed (open_notice g)
unfolding open_notice
open_notice-IsClosed g = if-cases IsClosed (not g.status_is_open) _ _ (λ e ts. refl) (λ e ts. refl)

pub show_notice-IsClosed : (g : Gui) (n : Option Notice) → IsClosed (show_notice g n)
unfolding show_notice
show_notice-IsClosed g none st = refl
show_notice-IsClosed g (some n) st =
    append-IsClosed (notice_popup g n) (open_notice g) (notice_popup-IsClosed g n)
      (open_notice-IsClosed g) st

trace_stats-IsClosed : (r : Option (List Event)) → IsClosed (trace_stats r)
unfolding trace_stats
trace_stats-IsClosed none st = refl
trace_stats-IsClosed (some es) st = refl

stats_text-IsClosed : (app : App) (h : Hook) → IsClosed (stats_text app h)
unfolding stats_text
stats_text-IsClosed app h =
    if-cases IsClosed app.live_mode _ _ (λ e st. refl) (λ e. trace_stats-IsClosed app.trace_reader)

pub render_stats_overlay-IsClosed : (g : Gui) (u : Ui) → IsClosed (render_stats_overlay g u)
unfolding render_stats_overlay same_scope same_panel
render_stats_overlay-IsClosed g u st =
    left_open-then (window stats ∷ st) (window stats ∷ st)
      (if g.begin_stats then stats_text u.app u.hook else []) (closes (window stats) ∷ [])
      (if-cases IsClosed g.begin_stats _ _ (λ e. stats_text-IsClosed u.app u.hook) (λ e ts. refl)
        (window stats ∷ st))

-- The file browser.
loaded_ui-Draws :
    (st : List Scope) (u : Ui) (r : Option (Bool × App × Hook))
    → LeavesReadable r
    → Draws st st IsReadable (loaded_ui u r)
unfolding loaded_ui
loaded_ui-Draws st u none p = tt
loaded_ui-Draws st u (some (ok, app, h)) p = (refl, p)

press_open-Draws :
    (st : List Scope) (g : Gui) (u : Ui)
    → IsReadable u.app
    → Draws st st IsReadable (press_open g u)
unfolding press_open
press_open-Draws st g u p =
    if-cases (Draws st st IsReadable) (g.open_button && not (is_empty g.file_path)) _ _
      (λ e.
        loaded_ui-Draws st u _
          (load_trace_file-LeavesReadable g.file_path (g.files g.file_path) u.app u.hook p))
      (λ e. (refl, p))

browse-Draws :
    (st : List Scope) (g : Gui) (u : Ui) → IsReadable u.app → Draws st st IsReadable (browse g u)
unfolding browse press_cancel
browse-Draws st g u p =
    bind-Draws st st st IsReadable IsReadable _ _ (press_open-Draws st g u p) (λ u1 p1. (refl, p1))

pub render_file_browser-Draws :
    (st : List Scope) (g : Gui) (u : Ui)
    → IsReadable u.app
    → Draws st st IsReadable (render_file_browser g u)
unfolding render_file_browser same_scope same_panel
render_file_browser-Draws st g u p =
    let ts : List Scope = window browser ∷ st in
    bind-Draws st ts st IsReadable IsReadable _ _ (refl, p)
      (λ u1 p1.
        bind-Draws ts ts st IsReadable IsReadable _ _
          (if-cases (Draws ts ts IsReadable) g.begin_browser _ _ (λ e. browse-Draws ts g u1 p1)
            (λ e. (refl, p1)))
          (λ u2 p2. (refl, p2)))

pub error_popup_of-Draws :
    (st : List Scope) (g : Gui) (m : Option Message) (u : Ui)
    → IsReadable u.app
    → Draws st st IsReadable (error_popup_of g m u)
unfolding error_popup_of press_ok same_scope
error_popup_of-Draws st g none u p = (refl, p)
error_popup_of-Draws st g (some m) u p =
    if-cases (Draws st st IsReadable) g.error_popup _ _ (λ e. (refl, p)) (λ e. (refl, p))
