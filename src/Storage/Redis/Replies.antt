-- ===== src/Storage/Redis/Replies.antt =====
-- Which replies the last loops of `redis::get_batch` and `redis::put_batch` read (redis.cpp). The
-- bound of the loop shrinks while the index grows.
use pancake.Base.Tests.{
  ℕ, zero, suc, ◌+◌, ◌-◌, ◌/◌, ◌≡◌, refl, sym, ap, List, [], ◌∷◌, ◌++◌, map, arith, ltb, Bool-cases,
  inl, inr, true, false,
}
use pancake.Base.Lists.{length}
use pancake.Base.Text.{Text}
use pancake.Base.Run.{Run, ok, ◌>>=◌, ◌>>◌}
use pancake.Storage.Redis.{
  bulk, Reply, array, as_strings, strings_of, string_of, check_reply, read_replies, check_replies,
  CppRedis, Redis, group_keys, mget_groups, get_batch,
}
use pancake.Base.Dict.{Dict}

-- The texts of the first `n` replies.
abbrev pub first_replies : ℕ → List Reply → Run (List Text)
first_replies zero futures = ok []
first_replies (suc n) [] = ok []
first_replies (suc n) (reply ∷ futures) = do
  vs ← as_strings reply
  rest ← first_replies n futures
  ok (vs ++ rest)

abbrev pub check_first : ℕ → List Reply → Run (Unit {0})
check_first zero futures = ok tt
check_first (suc n) [] = ok tt
check_first (suc n) (reply ∷ futures) = check_reply reply >> check_first n futures

first_replies-nil : (n : ℕ) → first_replies n [] ≡ ok []
first_replies-nil zero = refl
first_replies-nil (suc n) = refl

check_first-nil : (n : ℕ) → check_first n [] ≡ ok tt
check_first-nil zero = refl
check_first-nil (suc n) = refl

-- The rounds left at index `i` with `n` replies left.
abbrev rounds : ℕ → ℕ → ℕ
rounds i n = (n + 1 - i) / 2

rounds-suc : (i n : ℕ) → ltb i (suc n) ≡ true → rounds i (suc n) ≡ suc (rounds (i + 1) n)
rounds-suc i n h = ground arith

rounds-zero : (i n : ℕ) → ltb i (suc n) ≡ false → rounds i (suc n) ≡ 0
rounds-zero i n h = ground arith

read_from :
    (i : ℕ) (futures : List Reply)
    → read_replies i futures ≡ first_replies (rounds i (length futures)) futures
unfolding read_replies
read_from i [] = sym (first_replies-nil (rounds i 0))
read_from i (reply ∷ futures) = elim (Bool-cases (ltb i (suc (length futures)))) [
  | inl e ↦ rw (e, rounds-suc i (length futures) e, read_from (i + 1) futures)
  | inr e ↦ rw (e, rounds-zero i (length futures) e)
]

check_from :
    (i : ℕ) (futures : List Reply)
    → check_replies i futures ≡ check_first (rounds i (length futures)) futures
unfolding check_replies
check_from i [] = sym (check_first-nil (rounds i 0))
check_from i (reply ∷ futures) = elim (Bool-cases (ltb i (suc (length futures)))) [
  | inl e ↦ rw (e, rounds-suc i (length futures) e, check_from (i + 1) futures)
  | inr e ↦ rw (e, rounds-zero i (length futures) e)
]

-- The last loops of `get_batch` and `put_batch` look at the first half of the replies, rounded
-- up: the others are neither returned nor looked at for errors.
pub read_replies-half :
    (futures : List Reply)
    → (read_replies 0 futures ≡ first_replies ((length futures + 1) / 2) futures)
      × (check_replies 0 futures ≡ check_first ((length futures + 1) / 2) futures)
read_replies-half futures =
    let start : rounds 0 (length futures) ≡ (length futures + 1) / 2 = omega arith in
    (rw (← start) (read_from 0 futures), rw (← start) (check_from 0 futures))

-- The replies of servers that hold all the values.
abbrev pub bulks : List (List Text) → List Reply
bulks [] = []
bulks (vs ∷ vss) = array (map bulk vs) ∷ bulks vss

abbrev pub concat_first : ℕ → List (List Text) → List Text
concat_first zero vss = []
concat_first (suc n) [] = []
concat_first (suc n) (vs ∷ vss) = vs ++ concat_first n vss

pub strings_of-bulk : (vs : List Text) → strings_of (map bulk vs) ≡ ok vs
unfolding strings_of string_of
strings_of-bulk [] = refl
strings_of-bulk (v ∷ vs) = rw (strings_of-bulk vs)

pub first_replies-bulks :
    (n : ℕ) (vss : List (List Text)) → first_replies n (bulks vss) ≡ ok (concat_first n vss)
unfolding as_strings
first_replies-bulks zero vss = refl
first_replies-bulks (suc n) [] = refl
first_replies-bulks (suc n) (vs ∷ vss) =
    rw (strings_of-bulk vs, ◌>>=◌) (rw (first_replies-bulks n vss))

length-bulks : (vss : List (List Text)) → length (bulks vss) ≡ length vss
length-bulks [] = refl
length-bulks (vs ∷ vss) = ap suc (length-bulks vss)

-- If the keys fall into groups by server, and every server answers its group with all values,
-- then `get_batch` returns the values of the first half of the groups alone, rounded up, group by
-- group.
pub get_batch-half :
    (s : CppRedis) (hash : Text → ℕ) (keys : List Text) (clients : Redis s hash)
    (groups : Dict ℕ (List Text)) (vss : List (List Text))
    → group_keys s hash keys clients [] ≡ ok groups
    → mget_groups s hash groups clients ≡ ok (bulks vss)
    → get_batch s hash keys clients ≡ ok (concat_first ((length vss + 1) / 2) vss)
unfolding get_batch
get_batch-half s hash keys clients groups vss e f =
    rw (e, ◌>>=◌)
      (rw (f, ◌>>=◌)
        (rw ((read_replies-half (bulks vss)).0, length-bulks vss)
          (first_replies-bulks ((length vss + 1) / 2) vss)))
