-- ===== src/App/Load.antt =====
-- What load_trace_file of frontend/imgui_app.cpp shows for each file.
use ggml_viz.Base.{
  ℕ, zero, suc, ◌≤◌, ◌≡◌, ◌≢◌, inl, inr, refl, sym, ap, subst, ◌∙◌, Bool, true, false, List, [],
  ◌∷◌, ◌++◌, Option, none, some, arith, ltb, ◌==◌, length, length-append, length-drop, take, drop,
  All, Bool-cases, if-cases,
}
use ggml_viz.Event.{Event}
use ggml_viz.Trace.Bytes.{length-le_bytes}
use ggml_viz.Trace.Format.{magic, trace_header, encode_events, Fits}
use ggml_viz.Trace.Reader.{
  Loaded, Reader, got, fread, fread_uint, ◌>>=◌, read_header, Opened, open_trace, invalid, valid,
  load_events, events, undefined, out_of_fuel, same_bytes,
}
use ggml_viz.Trace.RoundTrip.{open_trace-encode_events}
use ggml_viz.Hook.Defs.{Hook}
use ggml_viz.App.Defs.{
  App, Message, empty_file, too_small, corrupted, unreadable, access_lost, disable_live_mode,
  leave_live_mode, fails, succeeds, load_opened, Exception, bad_alloc, std_exception,
  other_exception, caught, Content, missing, no_reads, vanishes, raises, holds, sized, load_bytes,
  load_trace_file, access_problem, reader_problem, has_trace_extension, last_extension,
}

-- The messages that some file makes load_trace_file show.
abbrev pub is_shown : Message → Bool
is_shown corrupted = false
is_shown _ = true

fread-take : (n : ℕ) (bs : List ℕ) → n ≤ length bs → fread n bs ≡ got (take n bs) (drop n bs)
unfolding fread
fread-take zero bs h = refl
fread-take (suc n) [] h = absurd (omega arith)
fread-take (suc n) (b ∷ bs) h = rw (fread-take n bs (omega arith))

got-bind :
    {A B : Type 0} (m : Reader A) (f : A → Reader B) (bs rest : List ℕ) (a : A)
    → m bs ≡ got a rest
    → (m >>= f) bs ≡ f a rest
got-bind m f bs rest a p = rw (p, ◌>>=◌)

-- 12 bytes or more with the magic in front are a valid trace, whatever follows.
open_trace-magic :
    (bs : List ℕ)
    → 12 ≤ length bs
    → same_bytes (take 8 bs) magic ≡ true
    → open_trace (some bs) ≡ valid (load_events (drop 4 (drop 8 bs)))
unfolding open_trace read_header fread_uint
open_trace-magic bs long ok =
    let header : read_header bs ≡ got true (drop 4 (drop 8 bs)) =
      got-bind (fread 8) _ bs (drop 8 bs) (take 8 bs) (fread-take 8 bs (omega (arith, long)))
      ∙ got-bind (fread_uint 4) _ (drop 8 bs) (drop 4 (drop 8 bs)) _ (
          got-bind (fread 4) _ (drop 8 bs) (drop 4 (drop 8 bs)) _
            (fread-take 4 (drop 8 bs) (omega (arith, long, length-drop 8 bs))))
      ∙ ap (λ b. got b (drop 4 (drop 8 bs))) ok in
    rw (open_trace, header)

reader_problem-shown :
    (bs : List ℕ)
    → 12 ≤ length bs
    → open_trace (some bs) ≡ invalid
    → is_shown (reader_problem bs) ≡ true
unfolding reader_problem
reader_problem-shown bs long e = elim (Bool-cases (same_bytes (take 8 bs) magic)) [
  | inl ok ↦ absurd (valid-invalid _ (sym (open_trace-magic bs long ok) ∙ e))
  | inr bad ↦ let enough : ltb (length bs) 8 ≡ false = ground (arith, long) in rw (enough, bad)
]
  where
    valid-invalid : (l : Loaded) → valid l ≢ invalid
    valid-invalid l h = ground (arith, h)

access_problem-shown : (filename : List ℕ) → is_shown (access_problem filename) ≡ true
unfolding access_problem
access_problem-shown [] = refl
access_problem-shown (c ∷ cs) = elim (Bool-cases (has_trace_extension (last_extension (c ∷ cs)))) [
  | inl h ↦ rw h
  | inr h ↦ rw h
]

-- A load that fails has left live mode and shows one of these messages, the trace on display stays.
pub record Refused (app app1 : App) : Type 0 where
  pub reader_kept : app1.trace_reader ≡ app.trace_reader
  pub loaded_kept : app1.trace_loaded ≡ app.trace_loaded
  pub filename_kept : app1.current_filename ≡ app.current_filename
  pub selection_kept : app1.selected_event ≡ app.selected_event
  pub out_of_live_mode : app1.live_mode ≡ false
  pub message : Message
  pub message_set : app1.error_message ≡ some message
  pub message_shown : is_shown message ≡ true

abbrev IsRefused : App → Option (Bool × App × Hook) → Type 0
IsRefused app none = Unit
IsRefused app (some (true, app1, h1)) = Unit
IsRefused app (some (false, app1, h1)) = Refused app app1

fails-IsRefused :
    (m : Message) (app : App) (h : Hook)
    → is_shown m ≡ true
    → app.live_mode ≡ false
    → IsRefused app (some (fails m (app, h)))
unfolding fails
fails-IsRefused m app h shown off = record {
  reader_kept = refl;
  loaded_kept = refl;
  filename_kept = refl;
  selection_kept = refl;
  out_of_live_mode = off;
  message = m;
  message_set = refl;
  message_shown = shown;
}

load_opened-IsRefused :
    (filename bs : List ℕ) (o : Opened) (app : App) (h : Hook)
    → 12 ≤ length bs
    → open_trace (some bs) ≡ o
    → app.live_mode ≡ false
    → IsRefused app (load_opened filename bs o (app, h))
unfolding load_opened succeeds
load_opened-IsRefused filename bs invalid app h long e off =
    fails-IsRefused (reader_problem bs) app h (reader_problem-shown bs long e) off
load_opened-IsRefused filename bs (valid (events es)) app h long e off = tt
load_opened-IsRefused filename bs (valid undefined) app h long e off = tt
load_opened-IsRefused filename bs (valid out_of_fuel) app h long e off = tt

sized-IsRefused :
    (size : Option ℕ) (rest : Option (Bool × App × Hook)) (app : App) (h : Hook)
    → app.live_mode ≡ false
    → ((n : ℕ) → size ≡ some n → 12 ≤ n → IsRefused app rest)
    → IsRefused app (sized size rest (app, h))
unfolding sized
sized-IsRefused none rest app h off r = fails-IsRefused (too_small none) app h refl off
sized-IsRefused (some n) rest app h off r =
    if-cases (IsRefused app) (n == 0) _ _ (λ e. fails-IsRefused empty_file app h refl off)
      (λ e.
        if-cases (IsRefused app) (ltb n 12) _ _
          (λ e1. fails-IsRefused (too_small (some n)) app h refl off)
          (λ e1. r n refl (ground (arith, e1))))

caught-shown : (e : Exception) → is_shown (caught e) ≡ true
unfolding caught
caught-shown bad_alloc = refl
caught-shown std_exception = refl
caught-shown other_exception = refl

size_of : Option ℕ → ℕ
size_of none = 0
size_of (some n) = n

load_bytes-IsRefused :
    (filename : List ℕ) (content : Content) (app : App) (h : Hook)
    → app.live_mode ≡ false
    → IsRefused app (load_bytes filename content (app, h))
unfolding load_bytes size_of
load_bytes-IsRefused filename missing app h off =
    fails-IsRefused (access_problem filename) app h (access_problem-shown filename) off
load_bytes-IsRefused filename (no_reads size) app h off =
    sized-IsRefused size _ app h off (λ n e long. fails-IsRefused unreadable app h refl off)
load_bytes-IsRefused filename (vanishes size) app h off =
    sized-IsRefused size _ app h off (λ n e long. fails-IsRefused access_lost app h refl off)
load_bytes-IsRefused filename (raises e) app h off =
    fails-IsRefused (caught e) app h (caught-shown e) off
load_bytes-IsRefused filename (holds bs) app h off =
    sized-IsRefused (some (length bs)) _ app h off (λ n e long.
      load_opened-IsRefused filename bs (open_trace (some bs)) app h
        (subst (λ k. 12 ≤ k) (sym (ap size_of e)) long) refl off)

-- What leaving live mode keeps.
record Left (app app1 : App) : Type 0 where
  reader_same : app1.trace_reader ≡ app.trace_reader
  loaded_same : app1.trace_loaded ≡ app.trace_loaded
  filename_same : app1.current_filename ≡ app.current_filename
  selection_same : app1.selected_event ≡ app.selected_event
  off : app1.live_mode ≡ false

leave_live_mode-Left : (app : App) (h : Hook) → Left app (leave_live_mode (app, h)).0
unfolding leave_live_mode disable_live_mode
leave_live_mode-Left app h =
    if-cases (λ (s : App × Hook). Left app s.0) app.live_mode _ _
      (λ e. record {
        reader_same = refl;
        loaded_same = refl;
        filename_same = refl;
        selection_same = refl;
        off = refl;
      })
      (λ e. record {
        reader_same = refl;
        loaded_same = refl;
        filename_same = refl;
        selection_same = refl;
        off = e;
      })

Left-Refused : (app app1 app2 : App) → Left app app1 → Refused app1 app2 → Refused app app2
Left-Refused app app1 app2 l r = record {
  reader_kept = r.reader_kept ∙ l.reader_same;
  loaded_kept = r.loaded_kept ∙ l.loaded_same;
  filename_kept = r.filename_kept ∙ l.filename_same;
  selection_kept = r.selection_kept ∙ l.selection_same;
  out_of_live_mode = r.out_of_live_mode;
  message = r.message;
  message_set = r.message_set;
  message_shown = r.message_shown;
}

-- A load that fails leaves the trace on display, its name and the selected event as they were, but
-- live mode is left even so. Its message is any but "corrupted trace file": no file that stays as it is
-- leads to that one, whether it is missing, too small, without the magic, a directory or another file
-- that cannot be read or opened again, or an exception is thrown while it is loaded.
pub load_trace_file-Refused :
    (filename : List ℕ) (content : Content) (app app1 : App) (h h1 : Hook)
    → load_trace_file filename content (app, h) ≡ some (false, app1, h1)
    → Refused app app1
unfolding load_trace_file
load_trace_file-Refused filename content app app1 h h1 e =
    let s = leave_live_mode (app, h) in
    let left = leave_live_mode-Left app h in
    Left-Refused app s.0 app1 left
      (subst (IsRefused s.0) e (load_bytes-IsRefused filename content s.0 s.1 left.off))

-- A file that the hook has written loads, with the hook's events in order, whatever was on display:
-- live mode is left, the file's base name is shown and nothing is selected. Every event fits its
-- C++ types.
pub load_trace_file-encode_events :
    (filename : List ℕ) (es : List Event) (app : App) (h : Hook)
    → All Fits es
    → load_trace_file filename (holds (trace_header ++ encode_events es)) (app, h)
      ≡ some (succeeds filename es (leave_live_mode (app, h)))
unfolding load_trace_file load_bytes sized load_opened trace_header
load_trace_file-encode_events filename es app h fits =
    let some_bytes : (length (trace_header ++ encode_events es) == 0) ≡ false = ground arith in
    let enough : ltb (length (trace_header ++ encode_events es)) 12 ≡ false =
      ground (arith, length-append trace_header (encode_events es), length-le_bytes 4 1) in
    rw (some_bytes, enough, open_trace-encode_events es fits)
