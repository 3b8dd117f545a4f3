-- ===== src/App/Watch.antt =====
-- The live events that a watched file brings (update_live_data of frontend/imgui_app.cpp).
use ggml_viz.Base.{
  ℕ, ◌+◌, ◌-◌, ◌≤◌, ◌<◌, ◌≡◌, inl, inr, refl, sym, ap, subst, ◌∙◌, Bool, true, false, not, ◌&&◌,
  ◌||◌, List, [], ◌∷◌, ◌++◌, Option, none, some, arith, ltb, leb, length, length-append,
  drop-append, append-nil, append_assoc, All, All-append_left, Bool-cases,
}
use ggml_viz.Event.{Event}
use ggml_viz.Trace.Format.{trace_header, encode_event, encode_events, Fits}
use ggml_viz.Trace.Reader.{open_trace}
use ggml_viz.Trace.RoundTrip.{open_trace-encode_events}
use ggml_viz.Hook.File.{encode_events-append}
use ggml_viz.App.Defs.{
  App, limit_events, is_empty, enable_live_mode, FileState, reader_events, start_index,
  watched_path, add_file_events, destroy_reader, reload, check_file, update_from_file,
}
use ggml_viz.App.Labels.{blanks, blanks-limit_append, without_reader-blanks}

-- The file that the hook has written when it has seen `es`.
abbrev pub file : List Event → List ℕ
file es = trace_header ++ encode_events es

-- What the labels of live events read as once their reader is gone.
abbrev pub Freed : Type 0
Freed = ℕ → List ℕ → List ℕ

-- Its state at a look, with the modification time `t`.
abbrev pub file_state : Freed → ℕ → List Event → FileState
file_state freed t es = record {
  mtime = t;
  size = length (file es);
  bytes = some (file es);
  freed = freed;
}

-- Looks at a growing file: the clock, the modification time, what the labels of the reader before
-- read as, and the events that came since the last look.
pub record Look : Type 0 where
  pub clock : ℕ
  pub mtime : ℕ
  pub freed : Freed
  pub news : List Event

abbrev pub watch : List Event → List Look → App → App
watch before [] app = app
watch before (l ∷ ls) app =
    watch (before ++ l.news) ls
      (update_from_file l.clock (some (file_state l.freed l.mtime (before ++ l.news))) app)

abbrev pub all_news : List Look → List Event
all_news [] = []
all_news (l ∷ ls) = l.news ++ all_news ls

-- The looks follow each other by more than 100 ms.
abbrev pub IsSpaced : ℕ → List Look → Type 0
IsSpaced last [] = Unit
IsSpaced last (l ∷ ls) = (100 < l.clock - last) × IsSpaced l.clock ls

-- Nothing has been read, or the file that was read had the size that the app remembers.
abbrev Seen : Option (List Event) → ℕ → List Event → Type 0
Seen none size loaded = (loaded ≡ []) × (size ≡ 0)
Seen (some r) size loaded = size ≡ length (file loaded)

record Watches (loaded : List Event) (app : App) : Type 0 where
  path : is_empty app.live_file_path ≡ false
  live : blanks app.live_events ≡ blanks (limit_events loaded)
  count : app.last_file_event_count ≡ length loaded
  seen : Seen app.live_trace_reader app.last_file_size loaded

leb-append : (xs ys : List Event) → leb (length xs) (length (xs ++ ys)) ≡ true
leb-append xs ys = ground (arith, length-append xs ys)

start_index-Seen :
    (r : Option (List Event)) (size : ℕ) (loaded news : List Event)
    → Seen r size loaded
    → start_index r (length loaded) (loaded ++ news) ≡ length loaded
unfolding start_index
start_index-Seen none size loaded news h = sym (ap length h.0)
start_index-Seen (some r) size loaded news h = rw (leb-append loaded news)

-- Without a change of its size the file has no news.
length-encode_event : (e : Event) → 0 < length (encode_event e)
unfolding encode_event
length-encode_event e = omega arith

no_news : (news : List Event) → length (encode_events news) ≡ 0 → news ≡ []
unfolding encode_events
no_news [] h = refl
no_news (e ∷ es) h =
    absurd
      (omega (arith, h, length-append (encode_event e) (encode_events es), length-encode_event e))

length-file :
    (xs ys : List Event) → length (file (xs ++ ys)) ≡ length (file xs) + length (encode_events ys)
length-file xs ys = omega (
  arith,
  length-append trace_header (encode_events (xs ++ ys)),
  length-append trace_header (encode_events xs),
  length-append (encode_events xs) (encode_events ys),
  ap length (encode_events-append xs ys),
)

same_size :
    (r : Option (List Event)) (size : ℕ) (loaded news : List Event)
    → Seen r size loaded
    → length (file (loaded ++ news)) ≤ size
    → news ≡ []
unfolding trace_header
same_size none size loaded news h small = absurd (omega (arith, h.1, small))
same_size (some r) size loaded news h small =
    no_news news (omega (arith, h, small, length-file loaded news))

-- What the news make of the live events and the count.
abbrev extended : ℕ → List Event → List Event → App → App
extended now loaded news app = record app {
  live_events = app.live_events ++ news;
  last_live_update = now;
  live_data_available = true;
  last_file_event_count = length (loaded ++ news);
}

add_file_events-cons :
    (now : ℕ) (loaded news : List Event) (e : Event) (app : App)
    → add_file_events now (length loaded) (loaded ++ (e ∷ news)) app
      ≡ extended now loaded (e ∷ news) app
unfolding add_file_events
add_file_events-cons now loaded news e app =
    let more : ltb (length loaded) (length (loaded ++ (e ∷ news))) ≡ true =
      ground (arith, length-append loaded (e ∷ news)) in
    rw (more, drop-append (length loaded) loaded (e ∷ news) refl)

add_file_events-nil :
    (now : ℕ) (loaded : List Event) (app : App)
    → add_file_events now (length loaded) (loaded ++ []) app ≡ app
unfolding add_file_events
add_file_events-nil now loaded app =
    let no_more : ltb (length loaded) (length (loaded ++ [])) ≡ false =
      ground (arith, length-append loaded []) in
    rw no_more

add_file_events-append :
    (now : ℕ) (loaded news : List Event) (app : App)
    → blanks app.live_events ≡ blanks (limit_events loaded)
    → app.last_file_event_count ≡ length loaded
    → (blanks (limit_events (add_file_events now (length loaded) (loaded ++ news) app).live_events)
        ≡ blanks (limit_events (loaded ++ news)))
      × ((add_file_events now (length loaded) (loaded ++ news) app).last_file_event_count
          ≡ length (loaded ++ news))
add_file_events-append now loaded [] app live count = (
  ap (λ a. blanks (limit_events a.live_events)) (add_file_events-nil now loaded app)
      ∙ ap (λ es. blanks (limit_events es)) (sym (append-nil app.live_events))
      ∙ blanks-limit_append app.live_events loaded [] live,
  ap (λ a. a.last_file_event_count) (add_file_events-nil now loaded app)
      ∙ count
      ∙ ap length (sym (append-nil loaded)),
)
add_file_events-append now loaded (e ∷ news) app live count = (
  ap (λ a. blanks (limit_events a.live_events)) (add_file_events-cons now loaded news e app)
      ∙ blanks-limit_append app.live_events loaded (e ∷ news) live,
  ap (λ a. a.last_file_event_count) (add_file_events-cons now loaded news e app),
)

add_file_events-path :
    (now start : ℕ) (es : List Event) (app : App)
    → (add_file_events now start es app).live_file_path ≡ app.live_file_path
unfolding add_file_events
add_file_events-path now start es app = elim (Bool-cases (ltb start (length es))) [
  | inl h ↦ rw h
  | inr h ↦ rw h
]

reload-Watches :
    (fr : Freed) (now t : ℕ) (loaded news : List Event) (app : App)
    → Watches loaded app
    → Watches
        (loaded ++ news)
        (reload now (file_state fr t (loaded ++ news)) (some (loaded ++ news)) app)
unfolding reload
reload-Watches fr now t loaded news app w =
    let start : start_index app.live_trace_reader app.last_file_event_count (loaded ++ news)
        ≡ length loaded =
      ap (λ n. start_index app.live_trace_reader n (loaded ++ news)) w.count
      ∙ start_index-Seen app.live_trace_reader app.last_file_size loaded news w.seen in
    let app0 = destroy_reader fr app in
    let live : blanks app0.live_events ≡ blanks (limit_events loaded) =
      without_reader-blanks fr app.live_trace_reader app.live_events ∙ w.live in
    let added = add_file_events-append now loaded news app0 live w.count in
    record {
      path =
          ap is_empty (
            add_file_events-path now
              (start_index app.live_trace_reader app.last_file_event_count (loaded ++ news))
              (loaded ++ news) app0)
          ∙ w.path;
      live =
          ap (λ n. blanks (limit_events (add_file_events now n (loaded ++ news) app0).live_events))
            start
          ∙ added.0;
      count =
          ap (λ n. (add_file_events now n (loaded ++ news) app0).last_file_event_count) start
          ∙ added.1;
      seen = refl;
    }

check_file-Watches :
    (fr : Freed) (now t : ℕ) (loaded news : List Event) (app : App)
    → All Fits (loaded ++ news)
    → Watches loaded app
    → Watches (loaded ++ news) (check_file now (some (file_state fr t (loaded ++ news))) app)
unfolding check_file reader_events
check_file-Watches fr now t loaded news app fits w =
    elim (Bool-cases
      (ltb app.last_file_mod_time t || ltb app.last_file_size (length (file (loaded ++ news))))) [
        | inl h ↦
            rw (h, open_trace-encode_events (loaded ++ news) fits)
              (reload-Watches fr now t loaded news app w)
        | inr h ↦
            let none_new : news ≡ [] =
              same_size app.live_trace_reader app.last_file_size loaded news w.seen
                (ground (arith, h)) in
            rw (h, none_new, append-nil loaded) w
      ]

update_from_file-Watches :
    (fr : Freed) (now t : ℕ) (loaded news : List Event) (app : App)
    → All Fits (loaded ++ news)
    → 100 < now - app.last_file_check
    → Watches loaded app
    → Watches (loaded ++ news) (update_from_file now (some (file_state fr t (loaded ++ news))) app)
unfolding update_from_file
update_from_file-Watches fr now t loaded news app fits late w =
    let on : (not (is_empty app.live_file_path) && ltb 100 (now - app.last_file_check)) ≡ true =
      ground (arith, late, w.path) in
    rw on (
      check_file-Watches fr now t loaded news (record app { last_file_check = now }) fits
        (record { path = w.path; live = w.live; count = w.count; seen = w.seen }))

add_file_events-check :
    (now start : ℕ) (es : List Event) (app : App)
    → (add_file_events now start es app).last_file_check ≡ app.last_file_check
unfolding add_file_events
add_file_events-check now start es app = elim (Bool-cases (ltb start (length es))) [
  | inl h ↦ rw h
  | inr h ↦ rw h
]

reload-check :
    (now : ℕ) (f : FileState) (es : Option (List Event)) (app : App)
    → (reload now f es app).last_file_check ≡ app.last_file_check
unfolding reload
reload-check now f none app = refl
reload-check now f (some es) app =
    add_file_events-check now (start_index app.live_trace_reader app.last_file_event_count es) es
      (destroy_reader f.freed app)

check_file-check :
    (now : ℕ) (f : Option FileState) (app : App)
    → (check_file now f app).last_file_check ≡ app.last_file_check
unfolding check_file
check_file-check now none app = refl
check_file-check now (some f) app =
    elim (Bool-cases (ltb app.last_file_mod_time f.mtime || ltb app.last_file_size f.size)) [
      | inl h ↦ rw h (reload-check now f (reader_events (open_trace f.bytes)) app)
      | inr h ↦ rw h
    ]

update_from_file-check :
    (now : ℕ) (f : Option FileState) (loaded : List Event) (app : App)
    → 100 < now - app.last_file_check
    → Watches loaded app
    → (update_from_file now f app).last_file_check ≡ now
unfolding update_from_file
update_from_file-check now f loaded app late w =
    let on : (not (is_empty app.live_file_path) && ltb 100 (now - app.last_file_check)) ≡ true =
      ground (arith, late, w.path) in
    rw on (check_file-check now f (record app { last_file_check = now }))

abbrev next : Look → List Event → App → App
next l loaded app =
    update_from_file l.clock (some (file_state l.freed l.mtime (loaded ++ l.news))) app

watch-Watches :
    (ls : List Look) (loaded : List Event) (app : App)
    → All Fits (loaded ++ all_news ls)
    → IsSpaced app.last_file_check ls
    → Watches loaded app
    → Watches (loaded ++ all_news ls) (watch loaded ls app)
watch-Watches [] loaded app fits spaced w = rw (append-nil loaded) w
watch-Watches (l ∷ ls) loaded app fits spaced w =
    let all : All Fits ((loaded ++ l.news) ++ all_news ls) =
      subst (All Fits) (sym (append_assoc loaded l.news (all_news ls))) fits in
    subst (λ es. Watches es (watch (loaded ++ l.news) ls (next l loaded app)))
      (append_assoc loaded l.news (all_news ls))
      (watch-Watches ls (loaded ++ l.news) (next l loaded app) all
        (subst (λ t. IsSpaced t ls)
          (sym (
            update_from_file-check l.clock (some (file_state l.freed l.mtime (loaded ++ l.news)))
              loaded app spaced.0 w))
          spaced.1)
        (update_from_file-Watches l.freed l.clock l.mtime loaded l.news app
          (All-append_left Fits (loaded ++ l.news) (all_news ls) all) spaced.0 w))

-- A live mode that is enabled on a named file, when no file has been watched before, shows the
-- events of a growing file, up to the limit, however many of them come between two looks that
-- follow each other by more than 100 ms: each event once, in order, the modification time whatever
-- it is. Nothing is said of the texts of labels, which the reader that brought them takes with it. The
-- file holds at each look what the hook has written, and every event fits its C++ types.
pub watch-limit_events :
    (ls : List Look) (no_hook : Bool) (c : ℕ) (cs : List ℕ) (output : Option (List ℕ)) (now : ℕ)
    (app : App)
    → app.live_trace_reader ≡ none
    → app.last_file_event_count ≡ 0
    → All Fits (all_news ls)
    → IsSpaced app.last_file_check ls
    → blanks (watch [] ls (enable_live_mode no_hook (c ∷ cs) output now app)).live_events
      ≡ blanks (limit_events (all_news ls))
unfolding enable_live_mode limit_events watched_path is_empty
watch-limit_events ls no_hook c cs output now app unread uncounted fits spaced =
    (watch-Watches ls [] (enable_live_mode no_hook (c ∷ cs) output now app) fits spaced (record {
      path = refl;
      live = refl;
      count = uncounted;
      seen = subst (λ r. Seen r 0 []) (sym unread) (refl, refl);
    })).live
