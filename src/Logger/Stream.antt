-- ===== src/Logger/Stream.antt =====
-- Streams and formatted messages of the Logger (utils/logger.hpp and logger.cpp).
use Prim.Native.String.{◌++◌}
use ggml_viz.Base.{
  ◌≡◌, refl, sym, inl, inr, Bool, true, false, List, [], ◌∷◌, Option, none, some, String,
  if◌then◌else◌, Bool-cases,
}
use ggml_viz.Logger.Defs.{LogLevel, Logger, should_log, Sink, log}

-- The level is tested when the stream is made. `stream` is what the ostringstream holds.
pub record LogStream : Type 0 where
  pub level : LogLevel
  pub logs : Bool
  pub stream : String

unfoldable pub new_stream : LogLevel → Logger → LogStream
new_stream level l = record { level = level; logs = should_log level l; stream = "" }

-- `<<` of a value, given by the text that the ostringstream makes of it.
unfoldable pub put_value : String → LogStream → LogStream
put_value value s = if s.logs then record s { stream = s.stream ++ value } else s

unfoldable pub put_values : List String → LogStream → LogStream
put_values [] s = s
put_values (v ∷ vs) s = put_values vs (put_value v s)

-- The destructor.
unfoldable pub end_stream : String → String → LogStream → Logger → Option (Sink × String)
end_stream timestamp thread s l = if s.logs then log timestamp thread s.level s.stream l else none

-- What a call with a format does: a format that snprintf refuses makes a size of zero, from which
-- std::string is given a length that it cannot have. `printed` is what snprintf makes of the format.
pub data Formatted : Type 0 where
  logged : Option (Sink × String) → Formatted
  length_error : Formatted

unfoldable pub log_formatted : String → String → LogLevel → Option String → Logger → Formatted
log_formatted timestamp thread level printed l =
    if should_log level l
    then elim printed [
      | none ↦ length_error
      | some text ↦ logged (log timestamp thread level text l)
    ]
    else logged none

-- The values one after the other.
abbrev pub joined : String → List String → String
joined s [] = s
joined s (v ∷ vs) = joined (s ++ v) vs

put_values-joined :
    (vs : List String) (level : LogLevel) (s : String)
    → put_values vs (record { level = level; logs = true; stream = s })
      ≡ record { level = level; logs = true; stream = joined s vs }
unfolding put_values put_value
put_values-joined [] level s = refl
put_values-joined (v ∷ vs) level s = put_values-joined vs level (s ++ v)

put_values-silent :
    (vs : List String) (level : LogLevel) (s : String)
    → put_values vs (record { level = level; logs = false; stream = s })
      ≡ record { level = level; logs = false; stream = s }
unfolding put_values put_value
put_values-silent [] level s = refl
put_values-silent (v ∷ vs) level s = put_values-silent vs level s

log-silent :
    (timestamp thread message : String) (level : LogLevel) (l : Logger)
    → should_log level l ≡ false
    → log timestamp thread level message l ≡ none
unfolding log
log-silent timestamp thread message level l low = rw low refl

-- A stream that is made, written to and destroyed while the settings of the logger stay as they are
-- is one call of log with the values one after the other, whether the level is high enough or not.
pub end_stream-put_values :
    (timestamp thread : String) (level : LogLevel) (vs : List String) (l : Logger)
    → end_stream timestamp thread (put_values vs (new_stream level l)) l
      ≡ log timestamp thread level (joined "" vs) l
unfolding end_stream new_stream
end_stream-put_values timestamp thread level vs l = elim (Bool-cases (should_log level l)) [
  | inl e ↦ rw (e, put_values-joined vs level "") refl
  | inr e ↦
      rw (e, put_values-silent vs level "")
        (sym (log-silent timestamp thread (joined "" vs) level l e))
]
