-- ===== src/Tests/Traces.antt =====
-- A trace of three lines.
use pancake.Base.Tests.{◌≡◌, refl, List, [], ◌∷◌}
use pancake.Base.Text.{codes}
use pancake.Base.Run.{Returns}
use pancake.Double.{thousandths}
use pancake.Trace.{load_frequencies_from_trace}
use pancake.Trace.Batches.{gets_in, puts_in}
use pancake.Trace.Written.{Entry, get, put, lines_of, load_frequencies_from_trace-written}

abbrev three_lines : List Entry
three_lines =
    get (codes "GET") (codes "a")
    ∷ put (codes "PUT") (codes "b") (codes "7 8")
    ∷ get (codes "GET") (codes "c")
    ∷ []

-- the lines of the file
in_file : lines_of three_lines ≡ codes "GET a" ∷ codes "PUT b 7 8" ∷ codes "GET c" ∷ []
in_file = refl

load_frequencies_from_trace-written_example :
    Returns (load_frequencies_from_trace thousandths (lines_of three_lines) [] 2) λ (dist, trace).
      (gets_in trace ≡ codes "a" ∷ codes "c" ∷ []) × (puts_in trace ≡ (codes "b", codes "7 8") ∷ [])
load_frequencies_from_trace-written_example =
    load_frequencies_from_trace-written thousandths three_lines 2 (
      ((refl, (refl, (refl, tt))), ((refl, tt), λ e. cc, λ e. cc)),
      (
        ((refl, (refl, (refl, tt))), ((refl, tt), λ e. cc, λ e. cc), λ e. cc),
        (((refl, (refl, (refl, tt))), ((refl, tt), λ e. cc, λ e. cc)), tt),
      ),
    )
