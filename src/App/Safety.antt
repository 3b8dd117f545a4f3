-- ===== src/App/Safety.antt =====
-- What a frame of frontend/imgui_app.cpp does to Dear ImGui and to the state.
use ggml_viz.Base.{◌≡◌, refl, subst, true, List, [], if-cases, arith}
use ggml_viz.Hook.Defs.{Hook}
use ggml_viz.App.Defs.{App}
use ggml_viz.App.Steps.{Step}
use ggml_viz.App.Screen.{Scope, Draw, Ui, Gui, drawn}
use ggml_viz.App.Menu.{status_notice, render_hook_status_notification, render_error_popup}
use ggml_viz.App.Panels.{
  has_no_source, when, render_panels, has_source, show_demo, update_ui, render_frame,
}
use ggml_viz.App.Nesting.{Draws, weaken-Draws, bind-Draws}
use ggml_viz.App.Closing.{when-Draws, render_panels-Draws}
use ggml_viz.App.Frames.{IsReadable, IsSourced, IsClipper}
use ggml_viz.App.Readable.{update_live_data-IsReadable, step-IsReadable}
use ggml_viz.App.MenuClosing.{
  render_main_menu_bar-Draws, show_notice-IsClosed, render_stats_overlay-IsClosed,
  render_file_browser-Draws, error_popup_of-Draws,
}

update_ui-IsReadable : (g : Gui) (u : Ui) → IsReadable u.app → IsReadable (update_ui g u).app
unfolding update_ui
update_ui-IsReadable g u p = update_live_data-IsReadable g.now g.watched u.app u.hook p

sourced : (app : App) → IsReadable app → has_source app ≡ true → IsSourced app
unfolding has_source has_no_source
sourced app p s = (p, ground (arith, s))

panels-Draws :
    (st : List Scope) (g : Gui) (u : Ui)
    → IsClipper g
    → IsReadable u.app
    → Draws st st IsReadable (when (has_source u.app) (render_panels g) u)
unfolding when
panels-Draws st g u c p =
    if-cases (Draws st st IsReadable) (has_source u.app) _ _
      (λ e.
        weaken-Draws st st IsSourced IsReadable (λ app q. q.0) _
          (render_panels-Draws st g u c (sourced u.app p e)))
      (λ e. (refl, p))

render_frame-Draws :
    (st : List Scope) (g : Gui) (u : Ui)
    → IsClipper g
    → IsReadable u.app
    → Draws st st IsReadable (render_frame g u)
unfolding render_frame render_hook_status_notification render_error_popup show_demo
render_frame-Draws st g u c p =
    let P : App → Type 0 = IsReadable in
    bind-Draws st st st P P _ _ (render_main_menu_bar-Draws st g _ (update_ui-IsReadable g u p))
      (λ u1 p1.
        bind-Draws st st st P P _ _ (show_notice-IsClosed g (status_notice u1.app u1.hook) st, p1)
          (λ u2 p2.
            bind-Draws st st st P P _ _ (render_stats_overlay-IsClosed g u2 st, p2)
              (λ u3 p3.
                bind-Draws st st st P P _ _
                  (when-Draws st P u3.show_file_browser _ u3 p3
                    (render_file_browser-Draws st g u3 p3))
                  (λ u4 p4. bind-Draws st st st P P _ _ (panels-Draws st g u4 c p4) (λ u5 p5.
                    bind-Draws st st st P P _ _ (refl, p5)
                      (λ u6 p6. error_popup_of-Draws st g u6.app.error_message u6 p6))))))

-- Frames, and what happens to the app and the hook between them, in any order.
pub data Move (u : Ui) : Ui → Type 0 where
  frame :
      (g : Gui) (ds : List Draw) (u1 : Ui)
      → IsClipper g
      → render_frame g u ≡ drawn ds u1
      → Move u u1
  between :
      (app : App) (h : Hook)
      → Step (u.app, u.hook) (app, h)
      → Move u (record u { app = app; hook = h })

pub data Runs (u : Ui) : Ui → Type 0 where
  opened : Runs u u
  later : {u1 u2 : Ui} → Runs u u1 → Move u1 u2 → Runs u u2

Move-IsReadable : (u u1 : Ui) → IsReadable u.app → Move u u1 → IsReadable u1.app
Move-IsReadable u _ p (frame g ds u1 c e) =
    (subst (Draws [] [] IsReadable) e (render_frame-Draws [] g u c p)).1
Move-IsReadable u _ p (between app h s) = step-IsReadable (u.app, u.hook) (app, h) p s

Runs-IsReadable : (u u1 : Ui) → IsReadable u.app → Runs u u1 → IsReadable u1.app
Runs-IsReadable u _ p opened = p
Runs-IsReadable u u2 p (later {u1} r m) = Move-IsReadable u1 u2 (Runs-IsReadable u u1 p r) m

-- Whatever the user does and whatever happens between frames, from a state in which a loaded trace
-- has its reader: a frame closes what it opens, in the order that Dear ImGui demands, and the colours
-- that it pushes are popped; it dereferences no null pointer and reads no event past the end, and a
-- loaded trace has its reader after it. The list clipper shows rows that exist. The one frame that is
-- not covered opens a trace that overruns a label's buffer; a watched file that does so counts as one
-- that does not load.
pub Runs-Draws :
    (u u1 : Ui) (g : Gui)
    → IsReadable u.app
    → Runs u u1
    → IsClipper g
    → Draws [] [] IsReadable (render_frame g u1)
Runs-Draws u u1 g p r c = render_frame-Draws [] g u1 c (Runs-IsReadable u u1 p r)
