-- ===== src/Cuckoo/Assoc.antt =====
-- An association list meets the laws of the map, so they can be met.
use pancake.Base.Tests.{
  ◌≡◌, refl, Bool, true, false, Option, none, some, [], arith, Eq, ◌==◌, if◌then◌else◌,
}
use pancake.Base.Dict.{Dict, lookup, insert, erase, lookup-insert, lookup-erase}
use pancake.Cuckoo.{CuckooMap, kept, is_some}

module _ {K V : Type 0} ⦃key : Eq K⦄ where
  abbrev pub put_kept : K → Option V → Dict K V → Dict K V
  put_kept k none t = erase k t
  put_kept k (some v) t = insert k v t

  lookup-put_kept :
      (k j : K) (o : Option V) (t : Dict K V)
      → lookup j (put_kept k o t) ≡ (if k == j then o else lookup j t)
  lookup-put_kept k j none t = lookup-erase k j t
  lookup-put_kept k j (some v) t = lookup-insert k j v t

  -- a call on a missing key changes nothing
  abbrev pub alter : K → (V → V × Bool) → Dict K V → Dict K V × Bool
  alter k f t = elim (lookup k t) [
    | none ↦ (t, false)
    | some v ↦ (put_kept k (kept f (some v)) t, true)
  ]

  abbrev pub alter_or : K → (V → V × Bool) → V → Dict K V → Dict K V × Bool
  alter_or k f d t = elim (lookup k t) [
    | none ↦ (insert k d t, true)
    | some v ↦ (put_kept k (kept f (some v)) t, false)
  ]

  pub lookup-alter :
      (k j : K) (f : V → V × Bool) (t : Dict K V)
      → lookup j (alter k f t).0 ≡ (if k == j then kept f (lookup k t) else lookup j t)
  lookup-alter k j f t = go (lookup k t) refl
    where
      go :
          (o : Option V)
          → lookup k t ≡ o
          → lookup j (alter k f t).0 ≡ (if k == j then kept f (lookup k t) else lookup j t)
      go none e = ground (arith, key.same_iff k j)
      go (some v) e = ground (arith, lookup-put_kept k j (kept f (some v)) t)

  pub lookup-alter_or :
      (k j : K) (f : V → V × Bool) (d : V) (t : Dict K V)
      → lookup j (alter_or k f d t).0 ≡ (
          if k == j
          then (if is_some (lookup k t) then kept f (lookup k t) else some d)
          else lookup j t)
  lookup-alter_or k j f d t = go (lookup k t) refl
    where
      go :
          (o : Option V)
          → lookup k t ≡ o
          → lookup j (alter_or k f d t).0 ≡ (
              if k == j
              then (if is_some (lookup k t) then kept f (lookup k t) else some d)
              else lookup j t)
      go none e = ground (arith, lookup-insert k j d t)
      go (some v) e = ground (arith, lookup-put_kept k j (kept f (some v)) t)

  pub lookup-insert_new :
      (k j : K) (v : V) (t : Dict K V)
      → lookup j (alter_or k (λ w. (w, false)) v t).0
        ≡ (if k == j then (if is_some (lookup k t) then lookup k t else some v) else lookup j t)
  lookup-insert_new k j v t = ground (arith, lookup-alter_or k j (λ w. (w, false)) v t)

  pub lookup-drop :
      (k j : K) (t : Dict K V)
      → lookup j (alter k (λ w. (w, true)) t).0 ≡ (if k == j then none else lookup j t)
  lookup-drop k j t = ground (arith, lookup-alter k j (λ w. (w, true)) t)

  pub lookup-empty : (j : K) → lookup {V = V} j [] ≡ none
  unfolding lookup
  lookup-empty j = refl

module _ {K V : Type 0} ⦃key : Eq K⦄ where
  abbrev pub assoc : CuckooMap K V
  assoc = record {
    Table = Dict K V;
    empty = [];
    find = lookup;
    contains = λ k t. is_some (lookup k t);
    insert = λ k v t. alter_or k (λ w. (w, false)) v t;
    insert_or_assign = λ k v t. (insert k v t, if is_some (lookup k t) then false else true);
    erase = λ k t. alter k (λ w. (w, true)) t;
    erase_fn = alter;
    update_fn = λ k f t. alter k (λ v. (f v, false)) t;
    uprase_fn = alter_or;
    entries = λ t. t;
    find-empty = lookup-empty;
    contains-find = λ j t. refl;
    find-insert = lookup-insert_new;
    find-insert_or_assign = lookup-insert;
    insert_or_assign_new = λ k v t. refl;
    find-erase = lookup-drop;
    find-erase_fn = lookup-alter;
    find-update_fn = λ k j f t. lookup-alter k j (λ v. (f v, false)) t;
    find-uprase_fn = lookup-alter_or;
    lookup-entries = λ k t. refl;
  }
