-- ===== src/App/Replaced.antt =====
-- A watched file that is replaced by another one (update_live_data of frontend/imgui_app.cpp).
use ggml_viz.Base.{
  ℕ, ◌-◌, ◌≤◌, ◌<◌, ◌≡◌, inl, inr, refl, sym, ap, ◌∙◌, true, false, not, ◌&&◌, List, [], ◌++◌, some,
  arith, ltb, leb, length, drop, drop_all, append-nil, All, Bool-cases,
}
use ggml_viz.Event.{Event}
use ggml_viz.Trace.Format.{Fits}
use ggml_viz.Trace.RoundTrip.{open_trace-encode_events}
use ggml_viz.App.Defs.{
  App, limit_events, is_empty, reader_events, start_index, add_file_events, without_reader,
  destroy_reader, reload, check_file, update_from_file,
}
use ggml_viz.App.Labels.{blanks, blanks-limit_events, blanks-limit_append, without_reader-blanks}
use ggml_viz.App.Watch.{Freed, file, file_state}

changed :
    (fr : Freed) (now m : ℕ) (es : List Event) (app : App)
    → is_empty app.live_file_path ≡ false
    → 100 < now - app.last_file_check
    → app.last_file_mod_time < m
    → All Fits es
    → update_from_file now (some (file_state fr m es)) app
      ≡ reload now (file_state fr m es) (some es) (record app { last_file_check = now })
unfolding update_from_file check_file reader_events
changed fr now m es app path late newer fits =
    let on : (not (is_empty app.live_file_path) && ltb 100 (now - app.last_file_check)) ≡ true =
      ground (arith, late, path) in
    let newer_b : ltb app.last_file_mod_time m ≡ true = ground (arith, newer) in
    rw (on, newer_b, open_trace-encode_events es fits)

-- What a look at a file without events leaves.
abbrev emptied : Freed → ℕ → ℕ → App → App
emptied fr now m app = record app {
  last_file_check = now;
  last_file_mod_time = m;
  last_file_size = length (file []);
  live_trace_reader = some [];
  live_events = limit_events (without_reader fr app.live_trace_reader app.live_events);
}

reload-emptied :
    (fr : Freed) (now m : ℕ) (app : App)
    → reload now (file_state fr m []) (some []) (record app { last_file_check = now })
      ≡ emptied fr now m app
unfolding reload add_file_events
reload-emptied fr now m app =
    let none_new : (n : ℕ) → ltb n (length {A = Event} []) ≡ false = λ n. ground arith in
    rw (none_new (start_index app.live_trace_reader app.last_file_event_count []))

-- The events of a file that has grown, once more events than `c` are in it.
reload-grown :
    (fr : Freed) (now m : ℕ) (es : List Event) (app : App)
    → app.live_trace_reader ≡ some []
    → app.last_file_event_count ≤ length es
    → (reload now (file_state fr m es) (some es) (record app { last_file_check = now })).live_events
      ≡ limit_events (
          without_reader fr app.live_trace_reader app.live_events
          ++ drop app.last_file_event_count es)
unfolding reload add_file_events start_index
reload-grown fr now m es app reader grown =
    let kept : leb app.last_file_event_count (length es) ≡ true = ground (arith, grown) in
    let first : start_index app.live_trace_reader app.last_file_event_count es
        ≡ app.last_file_event_count =
      ap (λ r. start_index r app.last_file_event_count es) reader ∙ rw kept refl in
    ap
      (λ n.
        limit_events
          (add_file_events now n es
            (destroy_reader fr (record app { last_file_check = now }))).live_events)
      first
    ∙ elim (Bool-cases (ltb app.last_file_event_count (length es))) [
      | inl h ↦ rw h
      | inr h ↦
          let none_left : drop app.last_file_event_count es ≡ [] =
            drop_all app.last_file_event_count es (ground (arith, h)) in
          rw (h, none_left, append-nil (without_reader fr app.live_trace_reader app.live_events))
    ]

-- When a file whose `c` events were read is replaced by one without events, and that file then
-- grows to `c` events or more, the live events are those from before and then the new file's events
-- without its first `c`, up to the limit: the count of the old file is kept. Nothing is said of the
-- texts of labels. The new file's bytes are what a hook writes, both looks find it changed, and they
-- follow each other by more than 100 ms.
pub update_from_file-replaced :
    (fr1 fr2 : Freed) (t1 m1 t2 m2 : ℕ) (es : List Event) (app : App)
    → is_empty app.live_file_path ≡ false
    → 100 < t1 - app.last_file_check
    → 100 < t2 - t1
    → app.last_file_mod_time < m1
    → m1 < m2
    → All Fits es
    → 0 < app.last_file_event_count
    → app.last_file_event_count ≤ length es
    → blanks
        (update_from_file t2
          (some (file_state fr2 m2 es))
          (update_from_file t1 (some (file_state fr1 m1 [])) app)).live_events
      ≡ blanks (limit_events (app.live_events ++ drop app.last_file_event_count es))
update_from_file-replaced fr1 fr2 t1 m1 t2 m2 es app path late1 late2 older1 older2 fits read
      grown =
    let first : update_from_file t1 (some (file_state fr1 m1 [])) app ≡ emptied fr1 t1 m1 app =
      changed fr1 t1 m1 [] app path late1 older1 tt ∙ reload-emptied fr1 t1 m1 app in
    let shown = without_reader fr1 app.live_trace_reader app.live_events in
    ap (λ a. blanks (update_from_file t2 (some (file_state fr2 m2 es)) a).live_events) first
    ∙ ap (λ a. blanks a.live_events)
        (changed fr2 t2 m2 es (emptied fr1 t1 m1 app) path late2 older2 fits)
    ∙ ap blanks (reload-grown fr2 t2 m2 es (emptied fr1 t1 m1 app) refl grown)
    ∙ blanks-limit_append (without_reader fr2 (some []) (limit_events shown)) app.live_events
        (drop app.last_file_event_count es)
        (without_reader-blanks fr2 (some []) (limit_events shown)
          ∙ blanks-limit_events shown
          ∙ ap limit_events (without_reader-blanks fr1 app.live_trace_reader app.live_events)
          ∙ sym (blanks-limit_events app.live_events))
