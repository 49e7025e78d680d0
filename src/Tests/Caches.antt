-- ===== src/Tests/Caches.antt =====
-- The update cache, the queue, the distributions and the operations at small inputs.
use pancake.Base.Tests.{
  ℕ, ◌<◌, ◌≡◌, ◌&&◌, refl, true, false, not, ltb, none, some, List, [], ◌∷◌, ◌++◌, if◌then◌else◌,
  arith,
}
use pancake.Base.Text.{Text, text_eqb, text_eq}
use pancake.Base.Run.{Returns}
use pancake.Base.Dict.{lookup}
use pancake.Cuckoo.Assoc.{assoc}
use pancake.Operation.{Operation}
use pancake.Queue.{Queue, size}
use pancake.Queue.Fifo.{IsCounted, Call, pushes, pops, run, pushed, run-fifo}
use pancake.Tests.World.{key_a}
use pancake.UpdateCache.{
  Entry, entry, UpdateCache, check_for_update, populate_replica_updates, edit_bit_vector_size,
  check_if_missing, sample_a_replica,
}
use pancake.UpdateCache.Deliveries.{elem, check_all, check_all-populate}
use pancake.UpdateCache.Pending.{owed, HasSize, check_for_update-Returns}
use pancake.UpdateCache.Resize.{resized, handed_over, owed-edit, check_if_missing-Returns}
use pancake.UpdateCache.Sample.{initialized}

abbrev key_b : Text
key_b = 98 ∷ []

-- replica 1 of three is still owed the text 7
abbrev one_owed : UpdateCache assoc
one_owed = (key_a, entry (7 ∷ []) (false ∷ true ∷ false ∷ [])) ∷ []

find_owed : lookup key_a one_owed ≡ some (entry (7 ∷ []) (false ∷ true ∷ false ∷ []))
unfolding lookup
find_owed = refl

covers_one : 1 < 3
covers_one = omega arith

check_all-populate_example :
    Returns
      (check_all assoc key_a
        (2 ∷ 0 ∷ [])
        (populate_replica_updates assoc key_a (8 ∷ []) 3 one_owed).0)
      λ (last, sent).
        (sent ≡ (8 ∷ []) ∷ (8 ∷ []) ∷ [])
        × ((k : Text) (j : ℕ)
            → owed assoc last k j ≡ (
                if text_eqb key_a k
                then (if ltb j 3 && not (elem j (2 ∷ 0 ∷ [])) then some (8 ∷ []) else none)
                else owed assoc one_owed k j))
check_all-populate_example =
    check_all-populate assoc key_a (8 ∷ []) 3 (2 ∷ 0 ∷ []) one_owed (refl, (refl, tt))
      (omega arith, (omega arith, tt))

Covers-owed : pancake.UpdateCache.Pending.Covers (assoc.find key_a one_owed) 1
unfolding lookup
Covers-owed = omega arith

-- replica 2 is new
abbrev missing_two : Entry
missing_two = entry [] (false ∷ false ∷ true ∷ [])

find_missing : lookup key_a ((key_a, missing_two) ∷ []) ≡ some missing_two
unfolding lookup
find_missing = refl

room_owed : pancake.UpdateCache.Resize.HasRoom (assoc.find key_a one_owed) 3
unfolding lookup
room_owed = omega arith

check_if_missing-Returns_example :
    Returns
      (check_if_missing assoc key_a (8 ∷ []) ((key_a, missing_two) ∷ []) one_owed)
      λ (missing', cache').
        ((k : Text)
          → lookup k missing'
            ≡ (if text_eqb key_a k then none else lookup k ((key_a, missing_two) ∷ [])))
        × ((k : Text) (j : ℕ)
            → owed assoc cache' k j ≡ (
                if text_eqb key_a k
                then handed_over (lookup key_a one_owed) (8 ∷ []) missing_two j
                else owed assoc one_owed k j))
check_if_missing-Returns_example =
    check_if_missing-Returns assoc key_a (8 ∷ []) missing_two ((key_a, missing_two) ∷ []) one_owed
      find_missing room_owed

initialized_two : initialized (lookup key_a ((key_a, missing_two) ∷ [])) 3 ≡ 2
unfolding lookup pancake.UpdateCache.num_leading_zeros
initialized_two = refl

abbrev one_item : Queue Text
one_item = record { items = key_a ∷ []; count = 1 }

IsCounted-one : IsCounted one_item
unfolding size
IsCounted-one = refl

abbrev calls : List (Call Text)
calls = pushes key_b ∷ pops ∷ pops ∷ pops ∷ []

run-fifo_example :
    ((run calls one_item).1 ++ (run calls one_item).0.items ≡ (key_a ∷ []) ++ pushed calls)
    × IsCounted (run calls one_item).0
run-fifo_example = run-fifo calls one_item IsCounted-one

abbrev put_b : Operation
put_b = record { key = key_b; value = 7 ∷ [] }

abbrev get_b : Operation
get_b = record { key = key_b; value = [] }
