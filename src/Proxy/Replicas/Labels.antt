-- ===== src/Proxy/Replicas/Labels.antt =====
-- The labels that `insert_replicas` (pancake_proxy.cpp) hands out and writes.
use mathlib.Core.List.{append_cancel_left}
use pancake.Base.Tests.{
  ℕ, zero, suc, ◌+◌, ◌-◌, ◌<◌, ◌≡◌, refl, Bool, false, ◌&&◌, ◌||◌, some, List, [], ◌∷◌, ◌++◌,
  if◌then◌else◌, arith, leb, ltb,
}
use pancake.Base.Text.{Text, text_eqb, text_eqb_iff, text_eq, to_string, to_string_inj}
use pancake.Base.Dict.{Dict, lookup, insert, lookup-insert}
use pancake.Proxy.{replica_name}

abbrev pub elem : Text → List Text → Bool
elem l [] = false
elem l (m ∷ ms) = text_eqb m l || elem l ms

pub elem-append : (l : Text) (ms ns : List Text) → elem l (ms ++ ns) ≡ (elem l ms || elem l ns)
elem-append l [] ns = refl
elem-append l (m ∷ ms) ns = ground (arith, elem-append l ms ns)

-- `std::to_string` of `n` numbers from `l` on.
abbrev pub labels_from : ℕ → ℕ → List Text
labels_from l zero = []
labels_from l (suc n) = to_string l ∷ labels_from (l + 1) n

pub elem-labels_from :
    (x l n : ℕ) → elem (to_string x) (labels_from l n) ≡ (leb l x && ltb x (l + n))
elem-labels_from x l zero = ground arith
elem-labels_from x l (suc n) = ground (
  arith,
  elem-labels_from x (l + 1) n,
  text_eqb_iff (to_string l) (to_string x),
  to_string_inj l x,
)

-- The names of `n` replicas from index `i` on get the numbers from `l` on.
abbrev pub number_from : ℕ → ℕ → Text → ℕ → Dict Text ℕ → Dict Text ℕ
number_from zero i key l m = m
number_from (suc n) i key l m = number_from n (i + 1) key (l + 1) (insert (replica_name key i) l m)

pub replica_name_inj : (key : Text) (i n : ℕ) → replica_name key i ≡ replica_name key n → i ≡ n
unfolding replica_name
replica_name_inj key i n e =
    to_string_inj i n (append_cancel_left key (to_string i) (to_string n) e)

pub lookup-number_from :
    (n i : ℕ) (key : Text) (l : ℕ) (m : Dict Text ℕ) (x : ℕ)
    → lookup (replica_name key x) (number_from n i key l m)
      ≡ (if leb i x && ltb x (i + n) then some (l + (x - i)) else lookup (replica_name key x) m)
lookup-number_from zero i key l m x = ground arith
lookup-number_from (suc n) i key l m x = ground (
  arith,
  lookup-number_from n (i + 1) key (l + 1) (insert (replica_name key i) l m) x,
  lookup-insert (replica_name key i) (replica_name key x) l m,
  text_eqb_iff (replica_name key i) (replica_name key x),
  replica_name_inj key i x,
)

-- Every number in the dictionary is below `l`, and no two names have one number.
pub record IsNumbered (l : ℕ) (m : Dict Text ℕ) : Type 0 where
  pub below : (w : Text) (x : ℕ) → lookup w m ≡ some x → x < l
  pub apart : (w v : Text) (x : ℕ) → lookup w m ≡ some x → lookup v m ≡ some x → w ≡ v

insert-IsNumbered :
    (l : ℕ) (w : Text) (m : Dict Text ℕ) → IsNumbered l m → IsNumbered (l + 1) (insert w l m)
insert-IsNumbered l w m h = record {
  below = λ v x e. ground (arith, lookup-insert w v l m, h.below v x);
  apart = λ v u x e e'. ground (
    arith,
    lookup-insert w v l m,
    lookup-insert w u l m,
    text_eqb_iff w v,
    text_eqb_iff w u,
    h.below v x,
    h.below u x,
    h.apart v u x,
  );
}

pub number_from-IsNumbered :
    (n i : ℕ) (key : Text) (l : ℕ) (m : Dict Text ℕ)
    → IsNumbered l m
    → IsNumbered (l + n) (number_from n i key l m)
number_from-IsNumbered zero i key l m h = let e : l + 0 ≡ l = omega arith in rw e h
number_from-IsNumbered (suc n) i key l m h =
    let e : l + suc n ≡ l + 1 + n = omega arith in
    rw e (
      number_from-IsNumbered n (i + 1) key (l + 1) (insert (replica_name key i) l m)
        (insert-IsNumbered l (replica_name key i) m h))
