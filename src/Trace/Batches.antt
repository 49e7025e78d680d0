-- ===== src/Trace/Batches.antt =====
-- The batches of a trace (proxy_server.cpp, `load_frequencies_from_trace`) as lists of requests.
use mathlib.Core.List.{append-nil, append_assoc}
use pancake.Base.Tests.{◌≡◌, refl, sym, ap, ◌∙◌, List, [], ◌∷◌, ◌++◌, if◌then◌else◌, arith}
use pancake.Base.Lists.{length}
use pancake.Base.Text.{Text, text_eqb, text_eq}
use pancake.Trace.{key_value}

abbrev pub zip : List Text → List Text → List (Text × Text)
zip [] vs = []
zip (k ∷ ks) [] = []
zip (k ∷ ks) (v ∷ vs) = (k, v) ∷ zip ks vs

-- A batch with values is one of puts.
abbrev pub gets_of : List Text × List Text → List Text
gets_of (ks, []) = ks
gets_of (ks, v ∷ vs) = []

abbrev pub gets_in : List (List Text × List Text) → List Text
gets_in [] = []
gets_in (b ∷ bs) = gets_of b ++ gets_in bs

abbrev pub puts_in : List (List Text × List Text) → List (Text × Text)
puts_in [] = []
puts_in ((ks, vs) ∷ bs) = zip ks vs ++ puts_in bs

-- the requests of the lines
abbrev pub gets_from : List Text → List Text
gets_from [] = []
gets_from (line ∷ lines) =
    if text_eqb (key_value line).1 [] then (key_value line).0 ∷ gets_from lines else gets_from lines

abbrev pub puts_from : List Text → List (Text × Text)
puts_from [] = []
puts_from (line ∷ lines) =
    if text_eqb (key_value line).1 [] then puts_from lines else key_value line ∷ puts_from lines

gets_in-append :
    (bs cs : List (List Text × List Text)) → gets_in (bs ++ cs) ≡ gets_in bs ++ gets_in cs
gets_in-append [] cs = refl
gets_in-append (b ∷ bs) cs =
    rw (gets_in-append bs cs) (sym (append_assoc (gets_of b) (gets_in bs) (gets_in cs)))

puts_in-append :
    (bs cs : List (List Text × List Text)) → puts_in (bs ++ cs) ≡ puts_in bs ++ puts_in cs
puts_in-append [] cs = refl
puts_in-append ((ks, vs) ∷ bs) cs =
    rw (puts_in-append bs cs) (sym (append_assoc (zip ks vs) (puts_in bs) (puts_in cs)))

pub gets_of-snoc : (ks vs : List Text) (v : Text) → gets_of (ks, vs ++ v ∷ []) ≡ []
gets_of-snoc ks [] v = refl
gets_of-snoc ks (w ∷ vs) v = refl

pub zip-snoc :
    (ks vs : List Text) (k v : Text)
    → length ks ≡ length vs
    → zip (ks ++ k ∷ []) (vs ++ v ∷ []) ≡ zip ks vs ++ (k, v) ∷ []
zip-snoc [] [] k v e = refl
zip-snoc [] (w ∷ vs) k v e = absurd (omega arith)
zip-snoc (j ∷ ks) [] k v e = absurd (omega arith)
zip-snoc (j ∷ ks) (w ∷ vs) k v e = ap (λ l. (j, w) ∷ l) (zip-snoc ks vs k v (omega arith))

zip-nil : (ks : List Text) → zip ks [] ≡ []
zip-nil [] = refl
zip-nil (k ∷ ks) = refl

-- a batch of gets at the end of the trace
pub push_gets :
    (bs : List (List Text × List Text)) (ks : List Text)
    → (gets_in (bs ++ (ks, []) ∷ []) ≡ gets_in bs ++ ks)
      × (puts_in (bs ++ (ks, []) ∷ []) ≡ puts_in bs)
push_gets bs ks = (
  gets_in-append bs ((ks, []) ∷ []) ∙ ap (λ l. gets_in bs ++ l) (append-nil ks),
  puts_in-append bs ((ks, []) ∷ [])
      ∙ ap (λ l. puts_in bs ++ l) (append-nil (zip ks []) ∙ zip-nil ks)
      ∙ append-nil (puts_in bs),
)

-- a batch of puts at the end of the trace
pub push_puts :
    (bs : List (List Text × List Text)) (ks vs : List Text)
    → gets_of (ks, vs) ≡ []
    → (gets_in (bs ++ (ks, vs) ∷ []) ≡ gets_in bs)
      × (puts_in (bs ++ (ks, vs) ∷ []) ≡ puts_in bs ++ zip ks vs)
push_puts bs ks vs e = (
  gets_in-append bs ((ks, vs) ∷ [])
      ∙ ap (λ l. gets_in bs ++ l) (append-nil (gets_of (ks, vs)) ∙ e)
      ∙ append-nil (gets_in bs),
  puts_in-append bs ((ks, vs) ∷ []) ∙ ap (λ l. puts_in bs ++ l) (append-nil (zip ks vs)),
)
