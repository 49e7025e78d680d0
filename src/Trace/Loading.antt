-- ===== src/Trace/Loading.antt =====
-- Loading a trace file (proxy_server.cpp, `load_frequencies_from_trace`) keeps its requests in order.
use mathlib.Core.List.{append-nil, append_assoc}
use pancake.Base.Tests.{
  ℕ, ◌+◌, ◌<◌, ◌≡◌, refl, sym, ap, ◌∙◌, false, List, [], ◌∷◌, ◌++◌, arith, ltb, nat_eqb, inl, inr,
  Bool-cases, Option-cases,
}
use pancake.Base.Lists.{length, All, length-append}
use pancake.Base.Text.{Text, text_eqb, text_eq, codes}
use pancake.Base.Run.{◌>>=◌, Returns}
use pancake.Base.Dict.{lookup}
use pancake.Double.{Double}
use pancake.Trace.{
  Loader, key_value, add_get, add_put, count_key, load_line, load_lines, push_get_keys,
  push_put_keys, new_loader, push_rest, learned, load_frequencies_from_trace,
}
use pancake.Trace.Batches.{
  zip, gets_of, gets_in, puts_in, gets_from, puts_from, gets_of-snoc, zip-snoc, push_gets,
  push_puts,
}

-- What has been read: the gets and the puts, in their order, and the number of lines.
abbrev pub Loaded : List Text → List (Text × Text) → ℕ → Loader → Type 0
Loaded gets puts n s =
    (gets_in s.trace ++ s.get_keys ≡ gets)
    × (puts_in s.trace ++ zip s.put_keys s.put_values ≡ puts)
    × (length s.put_keys ≡ length s.put_values)
    × (s.frequency_sum ≡ n)

add_get-Loaded :
    (c : ℕ) (key : Text) (gets : List Text) (puts : List (Text × Text)) (n : ℕ) (s : Loader)
    → Loaded gets puts n s
    → Loaded (gets ++ key ∷ []) puts n (add_get c key s)
unfolding add_get
add_get-Loaded c key gets puts n s (g, p, len, count) =
    let ks = s.get_keys ++ key ∷ [] in
    let (g', p') = push_gets s.trace ks in
    let longer =
      sym (append_assoc (gets_in s.trace) s.get_keys (key ∷ [])) ∙ ap (λ l. l ++ key ∷ []) g in
    elim (Bool-cases (nat_eqb (length ks) c)) [
      | inl e ↦ rw (e) (
        append-nil (gets_in (s.trace ++ (ks, []) ∷ [])) ∙ g' ∙ longer,
        ap (λ l. l ++ zip s.put_keys s.put_values) p' ∙ p,
        len,
        count,
      )
      | inr e ↦ rw (e) (longer, p, len, count)
    ]

add_put-Loaded :
    (c : ℕ) (key val : Text) (gets : List Text) (puts : List (Text × Text)) (n : ℕ) (s : Loader)
    → Loaded gets puts n s
    → Loaded gets (puts ++ (key, val) ∷ []) n (add_put c key val s)
unfolding add_put
add_put-Loaded c key val gets puts n s (g, p, len, count) =
    let ks = s.put_keys ++ key ∷ [] in
    let vs = s.put_values ++ val ∷ [] in
    let (g', p') = push_puts s.trace ks vs (gets_of-snoc ks s.put_values val) in
    let more = zip-snoc s.put_keys s.put_values key val len in
    let longer =
      ap (λ l. puts_in s.trace ++ l) more
      ∙ sym (append_assoc (puts_in s.trace) (zip s.put_keys s.put_values) ((key, val) ∷ []))
      ∙ ap (λ l. l ++ (key, val) ∷ []) p in
    elim (Bool-cases (nat_eqb (length ks) c)) [
      | inl e ↦ rw e (
        ap (λ l. l ++ s.get_keys) g' ∙ g,
        append-nil (puts_in (s.trace ++ (ks, vs) ∷ [])) ∙ p' ∙ longer,
        refl,
        count,
      )
      | inr e ↦ rw e (
        g,
        longer,
        omega (arith, length-append s.put_keys (key ∷ []), length-append s.put_values (val ∷ [])),
        count,
      )
    ]

-- A key that no operation name is mistaken for.
abbrev pub IsKey : Text → Type 0
IsKey line =
    (text_eqb (key_value line).0 (codes "PUT") ≡ false)
    × (text_eqb (key_value line).0 (codes "GET") ≡ false)

count_key-Loaded :
    (key : Text) (gets : List Text) (puts : List (Text × Text)) (n : ℕ) (s : Loader)
    → Loaded gets puts n s
    → Loaded gets puts (n + 1) (count_key key s)
unfolding count_key
count_key-Loaded key gets puts n s (g, p, len, count) =
    elim (Option-cases (lookup key s.key_to_frequency)) [
      | inl e ↦ rw (count_key, e) (g, p, len, omega arith)
      | inr (m, e) ↦ rw (count_key, e) (g, p, len, omega arith)
    ]

load_line-Loaded :
    (c : ℕ) (line : Text) (gets : List Text) (puts : List (Text × Text)) (n : ℕ) (s : Loader)
    → IsKey line
    → Loaded gets puts n s
    → Returns
        (load_line c line s)
        λ t. Loaded (gets ++ gets_from (line ∷ [])) (puts ++ puts_from (line ∷ [])) (n + 1) t
unfolding load_line
load_line-Loaded c line gets puts n s (no_put, no_get) h =
    let (key, val) = key_value line in
    elim (Bool-cases (text_eqb val [])) [
      | inl e ↦ (
        count_key key (add_get c key s),
        rw (e, no_put, no_get) refl,
        rw (e, append-nil puts)
            (count_key-Loaded key (gets ++ key ∷ []) puts n (add_get c key s)
              (add_get-Loaded c key gets puts n s h)),
      )
      | inr e ↦ (
        count_key key (add_put c key val s),
        rw (e, no_put, no_get) refl,
        rw (e, append-nil gets)
            (count_key-Loaded key gets (puts ++ (key, val) ∷ []) n (add_put c key val s)
              (add_put-Loaded c key val gets puts n s h)),
      )
    ]

gets_from-cons :
    (line : Text) (lines : List Text)
    → gets_from (line ∷ lines) ≡ gets_from (line ∷ []) ++ gets_from lines
gets_from-cons line lines = ground arith

puts_from-cons :
    (line : Text) (lines : List Text)
    → puts_from (line ∷ lines) ≡ puts_from (line ∷ []) ++ puts_from lines
puts_from-cons line lines = ground arith

load_lines-Loaded :
    (c : ℕ) (lines : List Text) (gets : List Text) (puts : List (Text × Text)) (n : ℕ) (s : Loader)
    → All IsKey lines
    → Loaded gets puts n s
    → Returns
        (load_lines c lines s)
        λ t. Loaded (gets ++ gets_from lines) (puts ++ puts_from lines) (n + length lines) t
unfolding load_lines
load_lines-Loaded c [] gets puts n s known (g, p, len, count) =
    (s, refl, (g ∙ sym (append-nil gets), p ∙ sym (append-nil puts), len, omega arith))
load_lines-Loaded c (line ∷ lines) gets puts n s (here, others) h =
    let (t, run, loaded) = load_line-Loaded c line gets puts n s here h in
    let (u, run', (g, p, len, count)) =
      load_lines-Loaded c lines (gets ++ gets_from (line ∷ [])) (puts ++ puts_from (line ∷ []))
        (n + 1) t others loaded in
    (
      u,
      rw (run, ◌>>=◌) run',
      (
        g
            ∙ append_assoc gets (gets_from (line ∷ [])) (gets_from lines)
            ∙ ap (λ l. gets ++ l) (sym (gets_from-cons line lines)),
        p
            ∙ append_assoc puts (puts_from (line ∷ [])) (puts_from lines)
            ∙ ap (λ l. puts ++ l) (sym (puts_from-cons line lines)),
        len,
        omega arith,
      ),
    )

nothing : (l : List Text) → ltb 0 (length l) ≡ false → l ≡ []
nothing [] e = refl
nothing (x ∷ l) e = absurd (ground arith)

gets_of-values : (ks vs : List Text) → 0 < length vs → gets_of (ks, vs) ≡ []
gets_of-values ks [] h = absurd (omega arith)
gets_of-values ks (v ∷ vs) h = refl

-- the batch of gets that is left
push_rest-gets :
    (gets : List Text) (puts : List (Text × Text)) (n : ℕ) (s : Loader)
    → Loaded gets puts n s
    → Loaded gets puts n (push_get_keys s) × ((push_get_keys s).get_keys ≡ [])
unfolding push_get_keys
push_rest-gets gets puts n s (g, p, len, count) =
    let (g', p') = push_gets s.trace s.get_keys in
    elim (Bool-cases (ltb 0 (length s.get_keys))) [
      | inl e ↦ rw e (
        (
          append-nil (gets_in (s.trace ++ (s.get_keys, []) ∷ [])) ∙ g' ∙ g,
          ap (λ l. l ++ zip s.put_keys s.put_values) p' ∙ p,
          len,
          count,
        ),
        refl,
      )
      | inr e ↦ rw e ((g, p, len, count), nothing s.get_keys e)
    ]

push_rest-puts :
    (gets : List Text) (puts : List (Text × Text)) (n : ℕ) (s : Loader)
    → Loaded gets puts n s
    → s.get_keys ≡ []
    → (gets_in (push_put_keys s).trace ≡ gets)
      × (puts_in (push_put_keys s).trace ≡ puts)
      × ((push_put_keys s).frequency_sum ≡ n)
unfolding push_put_keys
push_rest-puts gets puts n s (g, p, len, count) none_left =
    let all : gets_in s.trace ≡ gets =
      sym (append-nil (gets_in s.trace)) ∙ ap (λ l. gets_in s.trace ++ l) (sym none_left) ∙ g in
    elim (Bool-cases (ltb 0 (length s.put_keys))) [
      | inl e ↦
          let some_left : 0 < length s.put_values = ground (arith, len, e) in
          let (g', p') =
            push_puts s.trace s.put_keys s.put_values
              (gets_of-values s.put_keys s.put_values some_left) in
          rw e (g' ∙ all, p' ∙ p, count)
      | inr e ↦ rw e (
        all,
        sym (append-nil (puts_in s.trace))
            ∙ ap (λ l. puts_in s.trace ++ zip l s.put_values) (sym (nothing s.put_keys e))
            ∙ p,
        count,
      )
    ]

-- A trace file whose keys are not the words GET and PUT is loaded without a fault. The batches of
-- the trace hold the gets of the file and its puts with their values, each in the order of the
-- lines, none lost and none twice, whatever the batch size.
pub load_frequencies_from_trace-Returns :
    (d : Double) (lines : List Text) (client_batch_size : ℕ)
    → All IsKey lines
    → Returns
        (load_frequencies_from_trace d lines [] client_batch_size)
        λ (dist, trace). (gets_in trace ≡ gets_from lines) × (puts_in trace ≡ puts_from lines)
unfolding load_frequencies_from_trace push_rest
load_frequencies_from_trace-Returns d lines client_batch_size known =
    let (s, run, loaded) =
      load_lines-Loaded client_batch_size lines [] [] 0 (new_loader []) known
        (refl, refl, refl, refl) in
    let (gets_pushed, none_left) =
      push_rest-gets (gets_from lines) (puts_from lines) (0 + length lines) s loaded in
    let (g, p, _) =
      push_rest-puts (gets_from lines) (puts_from lines) (0 + length lines) (push_get_keys s)
        gets_pushed none_left in
    ((learned d (push_rest s), (push_rest s).trace), rw (run, ◌>>=◌), (g, p))
