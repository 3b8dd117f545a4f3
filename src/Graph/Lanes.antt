-- ===== src/Graph/Lanes.antt =====
-- The lanes of the timeline: TimelineWidget's thread_ids_ and get_thread_lane
-- (frontend/imgui_widgets.cpp).
use ggml_viz.Base.{
  ℕ, zero, suc, ◌<◌, ◌≡◌, inl, inr, refl, sym, ap, subst, ◌∙◌, Bool, true, false, ◌||◌, List, [],
  ◌∷◌, ◌++◌, Option, none, some, ◌==◌, if◌then◌else◌, if-cases, Bool-cases, All, length, arith,
}
use ggml_viz.Event.{Event}

unfoldable pub has_id : ℕ → List ℕ → Bool
has_id i [] = false
has_id i (j ∷ js) = i == j || has_id i js

-- try_emplace inserts an id once; `thread_ids_` has the ids in the order of their insertion.
unfoldable pub add_id : ℕ → List ℕ → List ℕ
add_id i ids = if has_id i ids then ids else ids ++ i ∷ []

unfoldable pub collect_ids : List ℕ → List Event → List ℕ
collect_ids ids [] = ids
collect_ids ids (e ∷ es) = collect_ids (add_id e.thread_id ids) es

-- std::find, and the distance from the front.
unfoldable pub find_id : ℕ → List ℕ → Option ℕ
find_id i [] = none
find_id i (j ∷ js) =
    if i == j then some 0 else elim (find_id i js) [ none ↦ none | some n ↦ some (suc n) ]

unfoldable pub lane_or_first : Option ℕ → ℕ
lane_or_first none = 0
lane_or_first (some lane) = lane

unfoldable pub get_thread_lane : List ℕ → ℕ → ℕ
get_thread_lane ids i = lane_or_first (find_id i ids)

-- The lane of an event, and how many there are, with the "Threads" box ticked or not.
unfoldable pub event_lane : Bool → List ℕ → ℕ → ℕ
event_lane show_threads ids i = if show_threads then get_thread_lane ids i else 0

unfoldable pub num_lanes : Bool → List ℕ → ℕ
num_lanes show_threads ids = if show_threads then length ids else 1

at : ℕ → List ℕ → Option ℕ
at n [] = none
at zero (j ∷ js) = some j
at (suc n) (j ∷ js) = at n js

-- The id stands at its lane.
record StandsAt (i : ℕ) (ids : List ℕ) : Type 0 where
  lane : ℕ
  found : find_id i ids ≡ some lane
  stands : at lane ids ≡ some i
  inside : lane < length ids

has_id-StandsAt : (i : ℕ) (ids : List ℕ) → has_id i ids ≡ true → StandsAt i ids
unfolding has_id find_id at
has_id-StandsAt i [] h = absurd (ground (arith, h))
has_id-StandsAt i (j ∷ js) h = elim (Bool-cases (i == j)) [
  | inl e ↦
      let same : j ≡ i = ground (arith, e) in
      record { lane = 0; found = rw e; stands = ap some same; inside = omega arith }
  | inr e ↦
      let v = has_id-StandsAt i js (ground (arith, e, h)) in
      record {
        lane = suc v.lane;
        found = rw (e, v.found);
        stands = v.stands;
        inside = omega (arith, v.inside);
      }
]

has_id-append : (i j : ℕ) (ids : List ℕ) → has_id i ids ≡ true → has_id i (ids ++ j ∷ []) ≡ true
unfolding has_id
has_id-append i j [] h = absurd (ground (arith, h))
has_id-append i j (k ∷ ids) h = elim (Bool-cases (i == k)) [
  | inl e ↦ rw e
  | inr e ↦ rw e (has_id-append i j ids (ground (arith, e, h)))
]

has_id-end : (i : ℕ) (ids : List ℕ) → has_id i (ids ++ i ∷ []) ≡ true
unfolding has_id
has_id-end i [] = ground arith
has_id-end i (k ∷ ids) = ground (arith, has_id-end i ids)

add_id-kept : (i j : ℕ) (ids : List ℕ) → has_id i ids ≡ true → has_id i (add_id j ids) ≡ true
unfolding add_id
add_id-kept i j ids h =
    if-cases (λ ks. has_id i ks ≡ true) (has_id j ids) _ _ (λ e. h) (λ e. has_id-append i j ids h)

add_id-added : (i : ℕ) (ids : List ℕ) → has_id i (add_id i ids) ≡ true
unfolding add_id
add_id-added i ids =
    if-cases (λ ks. has_id i ks ≡ true) (has_id i ids) _ _ (λ e. e) (λ e. has_id-end i ids)

collect_ids-kept :
    (i : ℕ) (ids : List ℕ) (es : List Event)
    → has_id i ids ≡ true
    → has_id i (collect_ids ids es) ≡ true
unfolding collect_ids
collect_ids-kept i ids [] h = h
collect_ids-kept i ids (e ∷ es) h =
    collect_ids-kept i (add_id e.thread_id ids) es (add_id-kept i e.thread_id ids h)

collect_ids-All :
    (ids : List ℕ) (es : List Event) → All (λ e. has_id e.thread_id (collect_ids ids es) ≡ true) es
unfolding collect_ids
collect_ids-All ids [] = tt
collect_ids-All ids (e ∷ es) = (
  collect_ids-kept e.thread_id (add_id e.thread_id ids) es (add_id-added e.thread_id ids),
  collect_ids-All (add_id e.thread_id ids) es,
)

All-map : (P Q : Event → Type 0) (es : List Event) → ((e : Event) → P e → Q e) → All P es → All Q es
All-map P Q [] f h = tt
All-map P Q (e ∷ es) f h = (f e h.0, All-map P Q es f h.1)

-- With the box ticked two events share their lane only if they share their thread. Without it they
-- share the first lane. The lane is one of those drawn.
abbrev pub Apart : Bool → List ℕ → Event → Event → Type 0
Apart true ids e f =
    (event_lane true ids e.thread_id ≡ event_lane true ids f.thread_id → e.thread_id ≡ f.thread_id)
    × (event_lane true ids e.thread_id < num_lanes true ids)
Apart false ids e f =
    (event_lane false ids e.thread_id ≡ event_lane false ids f.thread_id)
    × (event_lane false ids e.thread_id < num_lanes false ids)

apart :
    (ids : List ℕ) (e f : Event)
    → has_id e.thread_id ids ≡ true
    → has_id f.thread_id ids ≡ true
    → Apart true ids e f
unfolding event_lane num_lanes get_thread_lane lane_or_first
apart ids e f h k =
    let v = has_id-StandsAt e.thread_id ids h in
    let w = has_id-StandsAt f.thread_id ids k in
    let lane_e : get_thread_lane ids e.thread_id ≡ v.lane = ap lane_or_first v.found in
    let lane_f : get_thread_lane ids f.thread_id ≡ w.lane = ap lane_or_first w.found in
    (
      λ same.
          let lanes : v.lane ≡ w.lane = sym lane_e ∙ same ∙ lane_f in
          let ids_same : some e.thread_id ≡ some f.thread_id =
            sym v.stands ∙ ap (λ n. at n ids) lanes ∙ w.stands in
          ap (λ o. or_zero o) ids_same,
      subst (λ n. n < length ids) (sym lane_e) v.inside,
    )
  where
    or_zero : Option ℕ → ℕ
    or_zero none = 0
    or_zero (some i) = i

both_modes :
    (show_threads : Bool) (ids : List ℕ) (e f : Event)
    → has_id e.thread_id ids ≡ true
    → has_id f.thread_id ids ≡ true
    → Apart show_threads ids e f
unfolding event_lane num_lanes
both_modes true ids e f h k = apart ids e f h k
both_modes false ids e f h k = (refl, omega arith)

-- The timeline of any trace, with its "Threads" box ticked, puts two events on one lane only if their
-- threads are the same; without the box all events share one lane. In both cases every lane that is
-- used is among those that are drawn.
pub get_thread_lane-Apart :
    (show_threads : Bool) (es : List Event)
    → All (λ e. All (Apart show_threads (collect_ids [] es) e) es) es
get_thread_lane-Apart show_threads es =
    let ids = collect_ids [] es in
    let present = collect_ids-All [] es in
    let P : Event → Event → Type 0 = Apart show_threads ids in
    All-map (λ e. has_id e.thread_id ids ≡ true) (λ e. All (P e) es) es
      (λ e h.
        All-map (λ f. has_id f.thread_id ids ≡ true) (P e) es
          (λ f k. both_modes show_threads ids e f h k) present)
      present
