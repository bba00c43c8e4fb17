-- ===== src/Wire/Tests.antt =====
-- Runs of `ReadFrame` of internal/wire/json.go
use virmill.Prelude.{◌≡◌, refl, [], ◌∷◌, ◌++◌, map}
use virmill.Wire.Frame.{frame, unterminated, stopped, eof, read_frame}
use virmill.Wire.Frame.Sent.{arrives, read_frame-line}

cut_off : read_frame (arrives 123 ∷ []) ≡ unterminated
unfolding read_frame
cut_off = refl

closed : read_frame [] ≡ stopped eof
unfolding read_frame
closed = refl

read_frame-line_example :
    read_frame (map arrives (123 ∷ 125 ∷ []) ++ arrives b'\n' ∷ arrives 91 ∷ [])
    ≡ frame (123 ∷ 125 ∷ []) (arrives 91 ∷ [])
read_frame-line_example = read_frame-line (123 ∷ 125 ∷ []) (arrives 91 ∷ []) refl
