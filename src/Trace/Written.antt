-- ===== src/Trace/Written.antt =====
-- Trace files as they are written, for `load_frequencies_from_trace` (proxy_server.cpp): on each line the
-- word of an operation, a key, and the value of a put, with a space between them.
use pancake.Base.Tests.{
  ℕ, ◌≡◌, ◌≢◌, refl, ◌∙◌, ap, true, false, List, [], ◌∷◌, ◌++◌, arith, nat_eqb,
}
use pancake.Base.Lists.{All}
use pancake.Base.Text.{Text, text_eqb, text_eqb_iff, codes}
use pancake.Base.Run.{Returns}
use pancake.Double.{Double}
use pancake.Trace.{
  space, has_space, before_space, after_first, after_space, key_value, load_frequencies_from_trace,
}
use pancake.Trace.Batches.{gets_in, puts_in, gets_from, puts_from}
use pancake.Trace.Loading.{IsKey, load_frequencies_from_trace-Returns}

-- a request, with the word in front of it
pub data Entry : Type 0 where
  get : Text → Text → Entry
  put : Text → Text → Text → Entry

abbrev pub line_of : Entry → Text
line_of (get op key) = op ++ space ∷ key
line_of (put op key value) = op ++ space ∷ (key ++ space ∷ value)

abbrev pub lines_of : List Entry → List Text
lines_of [] = []
lines_of (e ∷ entries) = line_of e ∷ lines_of entries

abbrev pub gets : List Entry → List Text
gets [] = []
gets (get op key ∷ entries) = key ∷ gets entries
gets (put op key value ∷ entries) = gets entries

abbrev pub puts : List Entry → List (Text × Text)
puts [] = []
puts (get op key ∷ entries) = puts entries
puts (put op key value ∷ entries) = (key, value) ∷ puts entries

-- without a space
abbrev pub Word : Text → Type 0
Word = All (λ c. nat_eqb c 32 ≡ false)

-- a key that is one word, and not that of an operation
abbrev pub Key : Text → Type 0
Key key = Word key × (key ≢ codes "PUT") × (key ≢ codes "GET")

abbrev pub IsWritten : Entry → Type 0
IsWritten (get op key) = Word op × Key key
IsWritten (put op key value) = Word op × Key key × (value ≢ [])

Word-has_space : (t : Text) → Word t → has_space t ≡ false
unfolding has_space
Word-has_space [] h = refl
Word-has_space (c ∷ t) (here, h) = rw (here, Word-has_space t h)

-- a text is cut at the space after its first word
cut_first :
    (w t : Text)
    → Word w
    → (has_space (w ++ space ∷ t) ≡ true)
      × (before_space (w ++ space ∷ t) ≡ w)
      × (after_first (w ++ space ∷ t) ≡ t)
unfolding has_space before_space after_first
cut_first [] t h = (refl, refl, refl)
cut_first (c ∷ w) t (here, h) =
    let (some, front, back) = cut_first w t h in
    (rw (here, some), rw here (ap (λ u. c ∷ u) front), rw here back)

cut :
    (w t : Text)
    → Word w
    → (has_space (w ++ space ∷ t) ≡ true)
      × (before_space (w ++ space ∷ t) ≡ w)
      × (after_space (w ++ space ∷ t) ≡ t)
unfolding after_space
cut w t h = let (some, front, back) = cut_first w t h in (some, front, rw some back)

key_value-get : (op key : Text) → Word op → Word key → key_value (line_of (get op key)) ≡ (key, [])
unfolding key_value
key_value-get op key h k = rw ((cut op key h).2, Word-has_space key k) refl

key_value-put :
    (op key value : Text)
    → Word op
    → Word key
    → key_value (line_of (put op key value)) ≡ (key, value)
unfolding key_value
key_value-put op key value h k =
    let (some, front, back) = cut_first key value k in
    rw ((cut op (key ++ space ∷ value) h).2, some, front, back) refl

differ : (a b : Text) → a ≢ b → text_eqb a b ≡ false
differ a b h = ground (arith, text_eqb_iff a b)

lines_of-IsKey : (entries : List Entry) → All IsWritten entries → All IsKey (lines_of entries)
lines_of-IsKey [] h = tt
lines_of-IsKey (get op key ∷ entries) ((o, (k, put_no, get_no)), h) =
    let e = key_value-get op key o k in
    (
      (rw e (differ key (codes "PUT") put_no), rw e (differ key (codes "GET") get_no)),
      lines_of-IsKey entries h,
    )
lines_of-IsKey (put op key value ∷ entries) ((o, (k, put_no, get_no), some), h) =
    let e = key_value-put op key value o k in
    (
      (rw e (differ key (codes "PUT") put_no), rw e (differ key (codes "GET") get_no)),
      lines_of-IsKey entries h,
    )

from-lines_of :
    (entries : List Entry)
    → All IsWritten entries
    → (gets_from (lines_of entries) ≡ gets entries) × (puts_from (lines_of entries) ≡ puts entries)
from-lines_of [] h = (refl, refl)
from-lines_of (get op key ∷ entries) ((o, (k, _, _)), h) =
    let (g, p) = from-lines_of entries h in rw (key_value-get op key o k) (ap (λ l. key ∷ l) g, p)
from-lines_of (put op key value ∷ entries) ((o, (k, _, _), some), h) =
    let (g, p) = from-lines_of entries h in
    rw (key_value-put op key value o k, differ value [] some) (g, ap (λ l. (key, value) ∷ l) p)

-- A trace file is loaded without a fault if on each of its lines stand a word, a key, and, for a
-- put, a value, with a space between them, where the keys are single words other than GET and PUT
-- and the values not empty. The batches of the trace hold the keys of the gets, and the keys of
-- the puts with their whole values, each in the order of the lines, none lost and none twice,
-- whatever the batch size.
pub load_frequencies_from_trace-written :
    (d : Double) (entries : List Entry) (client_batch_size : ℕ)
    → All IsWritten entries
    → Returns
        (load_frequencies_from_trace d (lines_of entries) [] client_batch_size)
        λ (dist, trace). (gets_in trace ≡ gets entries) × (puts_in trace ≡ puts entries)
load_frequencies_from_trace-written d entries client_batch_size h =
    let (g, p) = from-lines_of entries h in
    let (r, run, (loaded_gets, loaded_puts)) =
      load_frequencies_from_trace-Returns d (lines_of entries) client_batch_size
        (lines_of-IsKey entries h) in
    (r, run, (loaded_gets ∙ g, loaded_puts ∙ p))
