-- ===== src/Submit/Directives/Laws.antt =====
-- Where the scan of a script for directives ends: src/submit/sbatch.rs.
use slotd.Prelude.{◌≡◌, refl, List, [], ◌∷◌, ◌++◌, Text, ap}
use mathlib.Core.Path.{fun_ext}
use slotd.Strings.{trim}
use slotd.Submit.Directives.{BatchDirectives, scan_line, scan_lines, line_kind, ends}

-- The lines after the first command of a script have no say in its directives.
pub scan_lines-stops :
    (d : BatchDirectives) (before : List Text) (command : Text) (rest : List Text)
    → line_kind (trim command) ≡ ends
    → scan_lines d (before ++ command ∷ rest) ≡ scan_lines d (before ++ command ∷ [])
unfolding scan_lines
scan_lines-stops d [] command rest e = rw (e, scan_lines) refl
scan_lines-stops d (b ∷ before) command rest e =
    ap (scan_line (line_kind (trim b)) d)
      (fun_ext (λ d'. scan_lines-stops d' before command rest e))
