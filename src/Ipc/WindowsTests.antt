-- ===== src/Ipc/WindowsTests.antt =====
-- A ring of four bytes on Windows.
use ggml_viz.Base.{◌≡◌, refl, [], ◌∷◌, arith, none, some}
use ggml_viz.Ipc.Defs.{Ring, write, read, offset}
use ggml_viz.Ipc.Windows.{windows_write, windows_read, in_view, windows_write-write}

abbrev four : Ring
four = record { head = 3; tail = 1; capacity = 4; base = λ i. i }

windows_write-write_example :
    (windows_write 4 (7 ∷ []) four ≡ some (write (7 ∷ []) four))
    × (windows_read 4 2 four ≡ some (read 2 four))
windows_write-write_example = windows_write-write 2 2 (7 ∷ []) four refl (omega arith)

-- The header of a segment of zeros lets a write run past the view.
abbrev zeros : Ring
zeros = record { head = 0; tail = 0; capacity = 0; base = λ i. 0 }

past_the_view : windows_write 2 (7 ∷ 8 ∷ 9 ∷ []) zeros ≡ none
unfolding windows_write in_view offset
past_the_view = refl
