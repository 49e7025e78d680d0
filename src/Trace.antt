-- ===== src/Trace.antt =====
-- server/src/proxy_server.cpp: `load_frequencies_from_trace`, which reads a file of requests. The file
-- is the list of its lines. The operation at the start of a line is read but never used.
pub mod Batches
pub mod Loading
pub mod Written
use pancake.Base.Tests.{
  ℕ, ◌+◌, Bool, true, false, not, ◌||◌, Option, none, some, List, [], ◌∷◌, ◌++◌, if◌then◌else◌, ltb,
  nat_eqb,
}
use pancake.Base.Lists.{length}
use pancake.Base.Text.{Text, text_eqb, text_eq, codes}
use pancake.Base.Run.{Run, ok, assertion, ◌>>=◌, ◌>>◌, guard}
use pancake.Base.Dict.{Dict, lookup, insert, or_default}
use pancake.Cuckoo.{is_some}
use pancake.Distribution.{Distribution, distribution}
use pancake.Double.{Double}

abbrev pub space : ℕ
space = 32

unfoldable pub has_space : Text → Bool
has_space [] = false
has_space (c ∷ t) = nat_eqb c space || has_space t

-- `t.substr(0, t.find(" "))`
unfoldable pub before_space : Text → Text
before_space [] = []
before_space (c ∷ t) = if nat_eqb c space then [] else c ∷ before_space t

unfoldable pub after_first : Text → Text
after_first [] = []
after_first (c ∷ t) = if nat_eqb c space then t else after_first t

-- `t.substr(t.find(" ") + 1)`: without a space, `npos + 1` is 0
unfoldable pub after_space : Text → Text
unfolding after_first has_space
after_space t = if has_space t then after_first t else t

-- the key and the value of a line
unfoldable pub key_value : Text → Text × Text
unfolding before_space after_space has_space
key_value line =
    let key = after_space line in
    if has_space key then (before_space key, after_space key) else (key, [])

-- The local variables of the loader; `trace` is the argument `trace_`.
pub record Loader : Type 0 where
  pub get_keys : List Text
  pub put_keys : List Text
  pub put_values : List Text
  pub trace : List (List Text × List Text)
  pub key_to_frequency : Dict Text ℕ
  pub frequency_sum : ℕ

unfoldable pub add_get : ℕ → Text → Loader → Loader
add_get client_batch_size key s =
    let keys = s.get_keys ++ key ∷ [] in
    if nat_eqb (length keys) client_batch_size
    then record s { trace = s.trace ++ (keys, []) ∷ []; get_keys = [] }
    else record s { get_keys = keys }

unfoldable pub add_put : ℕ → Text → Text → Loader → Loader
add_put client_batch_size key val s =
    let keys = s.put_keys ++ key ∷ [] in
    let values = s.put_values ++ val ∷ [] in
    if nat_eqb (length keys) client_batch_size
    then record s { trace = s.trace ++ (keys, values) ∷ []; put_keys = []; put_values = [] }
    else record s { put_keys = keys; put_values = values }

unfoldable pub count_key : Text → Loader → Loader
count_key key s = elim (lookup key s.key_to_frequency) [
  | none ↦ record s {
    key_to_frequency = insert key 1 s.key_to_frequency;
    frequency_sum = s.frequency_sum + 1;
  }
  | some n ↦ record s {
    key_to_frequency = insert key (n + 1) s.key_to_frequency;
    frequency_sum = s.frequency_sum + 1;
  }
]

unfoldable pub load_line : ℕ → Text → Loader → Run Loader
unfolding key_value add_get add_put count_key
load_line client_batch_size line s = do
  let (key, val) = key_value line
  let added =
      (if text_eqb val []
        then add_get client_batch_size key s
        else add_put client_batch_size key val s)
  guard (not (text_eqb key (codes "PUT"))) assertion
  guard (not (text_eqb key (codes "GET"))) assertion
  ok (count_key key added)

-- the loop over the lines
unfoldable pub load_lines : ℕ → List Text → Loader → Run Loader
unfolding load_line
load_lines client_batch_size [] s = ok s
load_lines client_batch_size (line ∷ lines) s =
    load_line client_batch_size line s >>= load_lines client_batch_size lines

-- the batches that are left
unfoldable pub push_get_keys : Loader → Loader
push_get_keys s =
    if ltb 0 (length s.get_keys)
    then record s { trace = s.trace ++ (s.get_keys, []) ∷ []; get_keys = [] }
    else s

unfoldable pub push_put_keys : Loader → Loader
push_put_keys s =
    if ltb 0 (length s.put_keys)
    then record s {
      trace = s.trace ++ (s.put_keys, s.put_values) ∷ [];
      put_keys = [];
      put_values = [];
    }
    else s

unfoldable pub push_rest : Loader → Loader
unfolding push_get_keys push_put_keys
push_rest s = push_put_keys (push_get_keys s)

-- the local variables before the loop
abbrev pub new_loader : List (List Text × List Text) → Loader
new_loader trace = record {
  get_keys = [];
  put_keys = [];
  put_values = [];
  trace = trace;
  key_to_frequency = [];
  frequency_sum = 0;
}

module _ (d : Double) where
  open d use {F, of_int, div}

  shares : Dict Text ℕ → ℕ → List F
  shares [] sum = []
  shares ((key, n) ∷ rest) sum = div (of_int n) (of_int sum) ∷ shares rest sum

  keys_of : Dict Text ℕ → List Text
  keys_of [] = []
  keys_of ((key, n) ∷ rest) = key ∷ keys_of rest

  -- the distribution of the keys that have been counted
  unfoldable pub learned : Loader → Distribution d
  unfolding shares keys_of
  learned s =
      distribution d (keys_of s.key_to_frequency) (shares s.key_to_frequency s.frequency_sum)

  unfoldable pub load_frequencies_from_trace :
      List Text
      → List (List Text × List Text)
      → ℕ
      → Run (Distribution d × List (List Text × List Text))
  unfolding load_lines push_rest learned
  load_frequencies_from_trace lines trace client_batch_size = do
    s ← load_lines client_batch_size lines (new_loader trace)
    let last = push_rest s
    ok (learned last, last.trace)
