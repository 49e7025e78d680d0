-- ===== src/Proxy/Swapping.antt =====
-- proxy/src/pancake_proxy.cpp: `prepare_for_swapping`, `perform_swapping`, `update_distribution` and
-- `recompute_fake_distribution`, which move labels between keys when the distribution changes. The
-- times that are measured and printed are left out.
pub mod Released
pub mod Assigned
pub mod Moved
use pancake.Base.Tests.{
  ℕ, zero, suc, ◌+◌, ◌-◌, ◌*◌, none, some, List, [], ◌∷◌, ◌++◌, if◌then◌else◌, ltb, leb, nat_eqb,
  ◌%◌, ◌^◌, ◌&&◌, ◌||◌, Bool,
}
use pancake.Base.Lists.{length}
use pancake.Base.Text.{Text, text_eqb, text_eq, codes}
use pancake.Base.Run.{Run, ok, fault, thrown, assertion, out_of_range, ◌>>=◌, ◌>>◌, guard}
use pancake.Base.Dict.{Dict, lookup, insert, erase}
use pancake.Distribution.{Distribution, distribution, get_items, get_probabilities}
use pancake.Proxy.{Platform, Proxy, replica_name, fetch, number_of}
use pancake.UpdateCache.{Entry, edit_bit_vector_size}

-- `needs_labels.push_back(std::make_pair(key, i))` for the indices from `i` on
unfoldable pub new_replicas : Text → ℕ → ℕ → List (Text × ℕ)
new_replicas key i zero = []
new_replicas key i (suc rounds) = (key, i) ∷ new_replicas key (i + 1) rounds

-- An `int` assigned to a `std::string` is one char, its low byte.
abbrev pub one_char : ℕ → Text
one_char n = (n % 256) ∷ []

-- The labels of the replicas from `i` on are taken away.
unfoldable pub release : Text → ℕ → ℕ → Dict Text ℕ → Run (List Text × Dict Text ℕ)
release key i zero labels = ok ([], labels)
release key i (suc rounds) labels = elim (lookup (replica_name key i) labels) [
  | none ↦ fault assertion
  | some label ↦ do
    (rest, left) ← release key (i + 1) rounds (erase (replica_name key i) labels)
    ok (one_char label ∷ rest, left)
]

unfoldable pub skip_blanks : Text → Text
skip_blanks [] = []
skip_blanks (c ∷ t) = if nat_eqb c 32 || (leb 9 c && leb c 13) then skip_blanks t else c ∷ t

abbrev pub is_digit : ℕ → Bool
is_digit c = leb 48 c && leb c 57

-- the digits in front
unfoldable pub digits_from : ℕ → Text → ℕ
digits_from n [] = n
digits_from n (c ∷ t) =
    let more = digits_from (n * 10 + (c - 48)) t in if is_digit c then more else n

unfoldable pub magnitude : ℕ → Text → Run ℕ
unfolding digits_from
magnitude limit [] = fault (thrown (codes "stoi"))
magnitude limit (c ∷ t) =
    if is_digit c
    then (let n = digits_from 0 (c ∷ t) in guard (leb n limit) (thrown (codes "stoi")) >> ok n)
    else fault (thrown (codes "stoi"))

unfoldable pub signed : Text → Run ℕ
unfolding magnitude
signed [] = fault (thrown (codes "stoi"))
signed (c ∷ t) =
    if nat_eqb c 45
    then (magnitude (2 ^ 31) t >>= λ n. ok ((2 ^ 32 - n) % 2 ^ 32))
    else if nat_eqb c 43
    then magnitude (2 ^ 31 - 1) t
    else magnitude (2 ^ 31 - 1) (c ∷ t)

-- `std::stoi`: a negative number is its bit pattern; both exceptions have the text "stoi"
unfoldable pub stoi : Text → Run ℕ
unfolding skip_blanks signed
stoi t = signed (skip_blanks t)

-- `replica_to_label_[replica] = std::stoi(label)`, with the labels walked along
unfoldable pub perform_swapping : List Text → List (Text × ℕ) → Dict Text ℕ → Run (Dict Text ℕ)
unfolding stoi
perform_swapping unassigned [] labels = ok labels
perform_swapping [] (need ∷ needs) labels = fault out_of_range
perform_swapping (label ∷ unassigned) ((key, i) ∷ needs) labels = do
  number ← stoi label
  perform_swapping unassigned needs (insert (replica_name key i) number labels)

module _ (P : Platform) where
  open P use {double.{F, of_int, sub, mul, div, less, ceil, trunc}, cuckoo.{entries}}

  -- The vectors that `update_distribution` collects, with the proxy.
  pub record Swap : Type 0 where
    pub proxy : Proxy P
    pub unassigned_labels : List Text
    pub needs_labels : List (Text × ℕ)

  unfoldable pub prepare_for_swapping : Text → ℕ → ℕ → Swap → Run Swap
  unfolding new_replicas release
  prepare_for_swapping key r_new r_old s =
      if ltb r_old r_new
      then ok (record s {
        needs_labels = s.needs_labels ++ new_replicas key r_old (r_new - r_old);
        proxy = record s.proxy {
          missing_new_replicas =
              (if text_eqb key s.proxy.dummy_key
                then s.proxy.missing_new_replicas
                else edit_bit_vector_size P.cuckoo key r_new s.proxy.missing_new_replicas);
        };
      })
      else (if ltb r_new r_old
          then (do
            (released, labels) ← release key r_new (r_old - r_new) s.proxy.replica_to_label
            ok (record s {
              unassigned_labels = s.unassigned_labels ++ released;
              proxy = record s.proxy { replica_to_label = labels };
            }))
          else ok s)

  -- The largest probability of a key with missing replicas, above what there was. `m[k]` inserts
  -- missing keys.
  unfoldable pub max_real : Dict Text Entry → F → Proxy P → Run (F × Proxy P)
  max_real [] curr_max_real p = ok (curr_max_real, p)
  max_real ((key, e) ∷ rest) curr_max_real p = do
    let (r, numbers) = fetch key p.key_to_number_of_replicas
    guard (nat_eqb (length e.bits) r) assertion
    let (frequency, frequencies) = fetch key p.new_key_to_frequency
    let prob = of_int frequency
    max_real rest (if less prob curr_max_real then curr_max_real else prob)
        (record p { key_to_number_of_replicas = numbers; new_key_to_frequency = frequencies })

  unfoldable pub fake_shares : List Text → List F → F → Proxy P → Run (List F × Proxy P)
  fake_shares [] probabilities p_max p = ok ([], p)
  fake_shares (key ∷ keys) [] p_max p = fault out_of_range
  fake_shares (key ∷ keys) (pi ∷ probabilities) p_max p = do
    let (r, numbers) = fetch key p.key_to_number_of_replicas
    (rest, q) ←
        fake_shares keys probabilities p_max (record p { key_to_number_of_replicas = numbers })
    ok (sub (mul (of_int r) p_max) pi ∷ rest, q)

  unfoldable pub recompute_fake_distribution : Distribution P.double → Proxy P → Run (Proxy P)
  unfolding max_real fake_shares
  recompute_fake_distribution new_distribution p = do
    let new_keys = get_items P.double new_distribution
    let n = length new_keys
    (p_max, q) ← max_real (entries p.missing_new_replicas) (div (of_int 1) (of_int n)) p
    (shares, r) ←
        fake_shares new_keys (get_probabilities P.double new_distribution) p_max
          (record q { p_max = p_max })
    ok (record r {
      fake_distribution =
          distribution P.double (new_keys ++ r.dummy_key ∷ [])
            (shares ++ mul (of_int r.dummy_keys) p_max ∷ []);
    })

  -- The loop over the keys: the swap, and the number of real replicas.
  unfoldable pub swap_keys : List Text → List F → Swap → Run (ℕ × Swap)
  unfolding prepare_for_swapping
  swap_keys [] probabilities s = ok (0, s)
  swap_keys (key ∷ keys) [] s = fault out_of_range
  swap_keys (key ∷ keys) (pi ∷ probabilities) s = do
    let r_old = number_of key s.proxy.key_to_number_of_replicas
    let r_new = ceil (div pi s.proxy.alpha)
    guard (ltb 0 r_new) assertion
    t ← prepare_for_swapping key r_new r_old (record s {
      proxy = record s.proxy {
        new_key_to_frequency = insert key (trunc pi) s.proxy.new_key_to_frequency;
        key_to_number_of_replicas = insert key r_new s.proxy.key_to_number_of_replicas;
      };
    })
    (created, u) ← swap_keys keys probabilities t
    ok (r_new + created, u)

  unfoldable pub update_distribution : Distribution P.double → Proxy P → Run (Proxy P)
  unfolding swap_keys prepare_for_swapping recompute_fake_distribution perform_swapping
  update_distribution new_distribution p = do
    let new_keys = get_items P.double new_distribution
    let n = length new_keys
    (new_num_real_replicas, s) ←
        swap_keys new_keys (get_probabilities P.double new_distribution)
          (record { proxy = p; unassigned_labels = []; needs_labels = [] })
    guard (ltb new_num_real_replicas (2 * n)) assertion
    let r_old = s.proxy.dummy_keys
    let dummies = 2 * n - new_num_real_replicas
    t ←
        prepare_for_swapping s.proxy.dummy_key dummies r_old
          (record s { proxy = record s.proxy { dummy_keys = dummies } })
    q ← recompute_fake_distribution new_distribution t.proxy
    let r = record q {
      real_distribution = new_distribution;
      key_to_frequency = q.new_key_to_frequency;
    }
    guard (nat_eqb (length t.needs_labels) (length t.unassigned_labels)) assertion
    labels ← perform_swapping t.unassigned_labels t.needs_labels r.replica_to_label
    ok (record r { replica_to_label = labels })
