-- ===== src/Prelude/Lines.antt =====
-- `str::lines`: a line ends in "\n" or "\r\n"; a last line without an end keeps its bytes.
use mathlib.Core.Path.{◌≡◌, refl, ◌∙◌, ap}
use mathlib.Core.Logic.{◌≢◌}
use mathlib.Core.List.{List, [], ◌∷◌, ◌++◌, append_assoc, append-nil}
use native.Mathlib.Omega.{arith}
use clotho.Prelude.Tests.{◌==◌, if◌then◌else◌}
use clotho.Prelude.Lists.{All}
use clotho.Prelude.Bytes.{Bytes}

-- Drops one final "\r".
strip_cr : Bytes → Bytes
strip_cr [] = []
strip_cr (c ∷ []) = if c == 13 then [] else c ∷ []
strip_cr (c ∷ d ∷ s) = c ∷ strip_cr (d ∷ s)

abbrev last_line : Bytes → List Bytes
last_line [] = []
last_line (c ∷ s) = (c ∷ s) ∷ []

-- The loop, with the part of the current line that is read.
lines_from : Bytes → Bytes → List Bytes
lines_from line [] = last_line line
lines_from line (c ∷ s) =
    let closed = strip_cr line ∷ lines_from [] s in
    let longer = lines_from (line ++ c ∷ []) s in if c == 10 then closed else longer

unfoldable pub lines : Bytes → List Bytes
unfolding lines_from strip_cr
lines text = lines_from [] text

-- Neither "\n" nor "\r" occurs.
abbrev pub IsLine : Bytes → Type 0
IsLine = All (λ c. (c ≢ 10) × (c ≢ 13))

strip_cr_of_IsLine : (s : Bytes) → IsLine s → strip_cr s ≡ s
unfolding strip_cr
strip_cr_of_IsLine [] h = refl
strip_cr_of_IsLine (c ∷ []) h = ground arith
strip_cr_of_IsLine (c ∷ d ∷ s) (_, h) = ap (λ t. c ∷ t) (strip_cr_of_IsLine (d ∷ s) h)

lines_from-append :
    (line s rest : Bytes)
    → IsLine s
    → lines_from line (s ++ 10 ∷ rest) ≡ strip_cr (line ++ s) ∷ lines_from [] rest
unfolding lines_from
lines_from-append line [] rest h = rw append-nil
lines_from-append line (c ∷ s) rest ((p, q), h) =
    ground (arith, lines_from-append (line ++ c ∷ []) s rest h, append_assoc line (c ∷ []) s)

-- The first line of a text that begins with a line and its end.
pub lines-append : (s rest : Bytes) → IsLine s → lines (s ++ 10 ∷ rest) ≡ s ∷ lines rest
unfolding lines
lines-append s rest h =
    lines_from-append [] s rest h ∙ ap (λ t. t ∷ lines rest) (strip_cr_of_IsLine s h)
