-- ===== src/App/Labels.antt =====
-- Live events without the texts of their labels (frontend/imgui_app.cpp).
use ggml_viz.Base.{
  ℕ, zero, suc, ◌-◌, ◌≡◌, refl, sym, ap, ap₂, ◌∙◌, List, [], ◌∷◌, ◌++◌, map, Option, none, some,
  length, drop,
}
use ggml_viz.Event.{Event}
use ggml_viz.App.Defs.{limit_events, freed_label, freed_events, without_reader}
use ggml_viz.App.Limit.{limit_events-drop, limit_events-append}

abbrev pub blank_label : Option (List ℕ) → Option (List ℕ)
blank_label none = none
blank_label (some label) = some []

-- An event with all its fields but the text of its label.
abbrev pub blank : Event → Event
blank e = record e { label = blank_label e.label }

abbrev pub blanks : List Event → List Event
blanks es = map blank es

blanks-append : (xs ys : List Event) → blanks (xs ++ ys) ≡ blanks xs ++ blanks ys
blanks-append [] ys = refl
blanks-append (x ∷ xs) ys = ap (λ zs. blank x ∷ zs) (blanks-append xs ys)

length-blanks : (xs : List Event) → length (blanks xs) ≡ length xs
length-blanks [] = refl
length-blanks (x ∷ xs) = ap suc (length-blanks xs)

blanks-drop : (n : ℕ) (xs : List Event) → blanks (drop n xs) ≡ drop n (blanks xs)
blanks-drop zero xs = refl
blanks-drop (suc n) [] = refl
blanks-drop (suc n) (x ∷ xs) = blanks-drop n xs

pub blanks-limit_events : (xs : List Event) → blanks (limit_events xs) ≡ limit_events (blanks xs)
blanks-limit_events xs =
    ap blanks (limit_events-drop xs)
    ∙ blanks-drop (length xs - 50000) xs
    ∙ ap (λ n. drop (n - 50000) (blanks xs)) (sym (length-blanks xs))
    ∙ sym (limit_events-drop (blanks xs))

-- Cutting before more events come makes no difference to what is not a label's text.
pub blanks-limit_append :
    (xs loaded news : List Event)
    → blanks xs ≡ blanks (limit_events loaded)
    → blanks (limit_events (xs ++ news)) ≡ blanks (limit_events (loaded ++ news))
blanks-limit_append xs loaded news live =
    blanks-limit_events (xs ++ news)
    ∙ ap limit_events (
        blanks-append xs news
        ∙ ap (λ zs. zs ++ blanks news) live
        ∙ sym (blanks-append (limit_events loaded) news))
    ∙ sym (blanks-limit_events (limit_events loaded ++ news))
    ∙ ap blanks (limit_events-append loaded news)

freed_label-blank :
    (f : List ℕ → List ℕ) (l : Option (List ℕ)) → blank_label (freed_label f l) ≡ blank_label l
unfolding freed_label
freed_label-blank f none = refl
freed_label-blank f (some l) = refl

freed_events-blanks :
    (freed : ℕ → List ℕ → List ℕ) (i : ℕ) (es : List Event)
    → blanks (freed_events freed i es) ≡ blanks es
unfolding freed_events
freed_events-blanks freed i [] = refl
freed_events-blanks freed i (e ∷ es) =
    ap₂ (λ l xs. record e { label = l } ∷ xs) (freed_label-blank (freed i) e.label)
      (freed_events-blanks freed (suc i) es)

-- Destroying a reader touches nothing but the texts of labels.
pub without_reader-blanks :
    (freed : ℕ → List ℕ → List ℕ) (r : Option (List Event)) (es : List Event)
    → blanks (without_reader freed r es) ≡ blanks es
unfolding without_reader
without_reader-blanks freed none es = refl
without_reader-blanks freed (some old) es = freed_events-blanks freed 0 es
