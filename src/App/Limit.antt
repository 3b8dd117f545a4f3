-- ===== src/App/Limit.antt =====
-- The limit of 50000 live events (frontend/imgui_app.cpp).
use ggml_viz.Base.{
  ℕ, ◌-◌, ◌≤◌, ◌≡◌, sym, ap, ◌∙◌, List, ◌++◌, arith, length, length-append, length-drop, drop,
  drop_more, drop-drop,
}
use ggml_viz.Event.{Event}
use ggml_viz.App.Defs.{limit_events}

drop-zero : (n : ℕ) (es : List Event) → n ≡ 0 → drop n es ≡ es
drop-zero n es h = ap (λ k. drop k es) h

pub limit_events-drop : (es : List Event) → limit_events es ≡ drop (length es - 50000) es
unfolding limit_events
limit_events-drop es = ground (arith, drop-zero (length es - 50000) es)

pub length-limit_events : (es : List Event) → length (limit_events es) ≤ 50000
length-limit_events es =
    omega (arith, ap length (limit_events-drop es), length-drop (length es - 50000) es)

-- Cutting before more events come makes no difference.
pub limit_events-append :
    (xs ys : List Event) → limit_events (limit_events xs ++ ys) ≡ limit_events (xs ++ ys)
limit_events-append xs ys =
    let cut : limit_events xs ++ ys ≡ drop (length xs - 50000) (xs ++ ys) =
      ap (λ zs. zs ++ ys) (limit_events-drop xs)
      ∙ sym (drop_more (length xs - 50000) xs ys (omega arith)) in
    ap limit_events cut
    ∙ limit_events-drop (drop (length xs - 50000) (xs ++ ys))
    ∙ drop-drop (length (drop (length xs - 50000) (xs ++ ys)) - 50000) (length xs - 50000)
        (xs ++ ys)
    ∙ ap (λ n. drop n (xs ++ ys))
        (omega (arith, length-drop (length xs - 50000) (xs ++ ys), length-append xs ys))
    ∙ sym (limit_events-drop (xs ++ ys))
