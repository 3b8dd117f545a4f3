-- ===== src/App/Nesting.antt =====
-- Calls of Dear ImGui that leave open what was open before (frontend/imgui_app.cpp).
use ggml_viz.Base.{
  ◌≡◌, refl, ap, ◌∙◌, inl, inr, Option-cases, List, [], ◌∷◌, ◌++◌, Option, none, some,
}
use ggml_viz.App.Defs.{App}
use ggml_viz.App.Screen.{
  Scope, Draw, opens, closes, shows, open_popup, Ui, null_pointer, past_end, overrun, Frame, drawn,
  faults, after, ◌>>=◌, closed, left_open,
}

-- Whatever is open before is what is open after.
abbrev pub IsClosed : List Draw → Type 0
IsClosed ds = (st : List Scope) → left_open st ds ≡ some st

abbrev continues : Option (List Scope) → List Draw → Option (List Scope)
continues none ds = none
continues (some st) ds = left_open st ds

left_open-append :
    (st : List Scope) (xs ys : List Draw) → left_open st (xs ++ ys) ≡ continues (left_open st xs) ys
left_open-append st [] ys = refl
left_open-append st (opens s ∷ xs) ys = left_open-append (s ∷ st) xs ys
left_open-append st (shows x ∷ xs) ys = left_open-append st xs ys
left_open-append st (open_popup ∷ xs) ys = left_open-append st xs ys
left_open-append st (closes s ∷ xs) ys = elim (Option-cases (closed s st)) [
  | inl e ↦ rw (left_open, e)
  | inr (ts, e) ↦ rw (left_open, e) (left_open-append ts xs ys)
]

pub left_open-then :
    (st st1 : List Scope) (xs ys : List Draw)
    → left_open st xs ≡ some st1
    → left_open st (xs ++ ys) ≡ left_open st1 ys
left_open-then st st1 xs ys h = left_open-append st xs ys ∙ ap (λ o. continues o ys) h

pub append-IsClosed : (xs ys : List Draw) → IsClosed xs → IsClosed ys → IsClosed (xs ++ ys)
append-IsClosed xs ys f g st = left_open-then st st xs ys (f st) ∙ g st

-- What is drawn takes the open scopes from `st` to `st1` and leaves an app with `P`. Nothing but a
-- trace that overruns a label's buffer is undefined.
abbrev pub Draws : List Scope → List Scope → (App → Type 0) → Frame Ui → Type 0
Draws st st1 P (drawn ds u) = (left_open st ds ≡ some st1) × P u.app
Draws st st1 P (faults null_pointer) = ⊥
Draws st st1 P (faults past_end) = ⊥
Draws st st1 P (faults overrun) = Unit

after-Draws :
    (st st1 st2 : List Scope) (P : App → Type 0) (ds : List Draw) (m : Frame Ui)
    → left_open st ds ≡ some st1
    → Draws st1 st2 P m
    → Draws st st2 P (after ds m)
unfolding after
after-Draws st st1 st2 P ds (drawn es u) h (e, p) = (left_open-then st st1 ds es h ∙ e, p)
after-Draws st st1 st2 P ds (faults null_pointer) h p = elim p [ ]
after-Draws st st1 st2 P ds (faults past_end) h p = elim p [ ]
after-Draws st st1 st2 P ds (faults overrun) h p = p

-- One step of a frame and then the rest of it.
pub bind-Draws :
    (st st1 st2 : List Scope) (P Q : App → Type 0) (m : Frame Ui) (f : Ui → Frame Ui)
    → Draws st st1 P m
    → ((u : Ui) → P u.app → Draws st1 st2 Q (f u))
    → Draws st st2 Q (m >>= f)
unfolding ◌>>=◌
bind-Draws st st1 st2 P Q (drawn ds u) f (e, p) rest =
    after-Draws st st1 st2 Q ds (f u) e (rest u p)
bind-Draws st st1 st2 P Q (faults null_pointer) f h rest = elim h [ ]
bind-Draws st st1 st2 P Q (faults past_end) f h rest = elim h [ ]
bind-Draws st st1 st2 P Q (faults overrun) f h rest = tt

pub weaken-Draws :
    (st st1 : List Scope) (P Q : App → Type 0)
    → ((app : App) → P app → Q app)
    → (m : Frame Ui) → Draws st st1 P m
    → Draws st st1 Q m
weaken-Draws st st1 P Q f (drawn ds u) (e, p) = (e, f u.app p)
weaken-Draws st st1 P Q f (faults null_pointer) h = elim h [ ]
weaken-Draws st st1 P Q f (faults past_end) h = elim h [ ]
weaken-Draws st st1 P Q f (faults overrun) h = h
