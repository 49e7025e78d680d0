-- ===== src/Tests/Setup.antt =====
-- The set-up of a key, and a batch of three with two requests waiting, on the proxy of World.antt.
use pancake.Base.Tests.{ℕ, ◌+◌, ◌-◌, ◌*◌, ◌≡◌, ◌≢◌, refl, zero, suc, some, [], ◌∷◌, arith}
use pancake.Base.Lists.{length, get_elem?}
use pancake.Base.Text.{Text}
use pancake.Base.Run.{ok, Returns}
use pancake.Operation.{Operation}
use pancake.Proxy.{Proxy}
use pancake.Proxy.Batch.{Batch, create_security_batch}
use pancake.Proxy.Batch.Fill.{Mixed, create_security_batch-Mixed}
use pancake.Base.Dict.{lookup}
use pancake.Proxy.Replicas.{insert_replicas, create_replicas}
use pancake.Proxy.Replicas.Create.{Ready, demand, create_replicas-Ready}
use pancake.Proxy.Replicas.Insert.{Kept, filled, insert_replicas-Returns}
use pancake.Proxy.Replicas.Labels.{labels_from, number_from}
use pancake.Queue.{Queue, size}
use pancake.Queue.Fifo.{IsCounted}
use pancake.Tests.World.{platform, proxy_with, key_a, counting}
use pancake.Util.{Rng, rand_str}

abbrev key_b : Text
key_b = 98 ∷ []

random_text : (rand_str 1 counting).0 ≢ []
unfolding rand_str
random_text e = cc

insert_replicas-Returns_example :
    Returns (insert_replicas platform key_b 60 (proxy_with counting)) λ q.
      Kept platform (proxy_with counting) q
      × (q.replica_to_label ≡ number_from 60 0 key_b 2 (proxy_with counting).replica_to_label)
      × (q.label_count ≡ 2 + 60)
      × platform.storage.IsOpen q.store
      × ((c : Text) × (platform.engine.decrypt c ≡ ok (rand_str 1 counting).0)
          × ((l : Text)
              → platform.storage.view q.store l
                ≡ filled c
                    (labels_from 2 60)
                    (platform.storage.view (proxy_with counting).store)
                    l))
insert_replicas-Returns_example =
    insert_replicas-Returns platform key_b 60 (proxy_with counting) (omega arith) random_text

abbrev put_a : Operation
put_a = record { key = key_a; value = 7 ∷ [] }

abbrev get_a : Operation
get_a = record { key = key_a; value = [] }

abbrev pub waiting_two : Queue (Operation × ℕ)
waiting_two = record { items = (put_a, 8) ∷ (get_a, 9) ∷ []; count = 2 }

abbrev no_batch : Batch
no_batch = record { operations = []; is_trues = []; promises = [] }

abbrev pub OfA : Operation → Type 0
OfA o = o.key ≡ key_a

pub only_a_key : (i : ℕ) (key : Text) → get_elem? (key_a ∷ []) i ≡ some key → key ≡ key_a
only_a_key zero key e = cc
only_a_key (suc i) key e = cc

IsCounted-two : IsCounted waiting_two
unfolding size
IsCounted-two = refl

pub nothing-Mixed : Mixed platform OfA ((put_a, 8) ∷ (get_a, 9) ∷ []) waiting_two no_batch
nothing-Mixed = record {
  aligned = tt;
  allowed = tt;
  waiting_allowed = (refl, (refl, tt));
  counted = IsCounted-two;
  in_order = refl;
}

create_security_batch-Mixed_example :
    Returns
      (create_security_batch platform waiting_two no_batch (proxy_with counting))
      λ (rest, b', p').
        Mixed platform OfA ((put_a, 8) ∷ (get_a, 9) ∷ []) rest b'
        × (length b'.operations ≡ 0 + 3)
        × (p' ≡ record (proxy_with counting) { rng = p'.rng })
create_security_batch-Mixed_example =
    create_security_batch-Mixed platform OfA ((put_a, 8) ∷ (get_a, 9) ∷ []) waiting_two no_batch
      (proxy_with counting)
      ((omega arith, omega arith, only_a_key), (omega arith, omega arith, only_a_key)) nothing-Mixed

-- the proxy before its set-up: one key with probability 1, two replicas for it
abbrev fresh : Proxy platform
fresh = record (proxy_with counting) {
  replica_to_label = [];
  key_to_number_of_replicas = [];
  key_to_frequency = [];
  label_count = 0;
  store = [] ∷ [];
}

digits_plain : (g : Rng) → (rand_str 1 g).0 ≢ []
unfolding rand_str
digits_plain g e = cc

fresh-Ready : Ready platform fresh
unfolding lookup
fresh-Ready = record {
  opened = omega arith;
  plain = digits_plain;
  numbered = record { below = λ w x e. cc; apart = λ w v x e e'. cc };
}

create_replicas-Ready_example : Returns (create_replicas platform fresh) λ q.
    (q.label_count ≡ 0 + 2 * 1)
    × (q.dummy_keys ≡ 2 * 1 - demand platform 500 (1000 ∷ []))
    × Ready platform q
create_replicas-Ready_example = create_replicas-Ready platform fresh fresh-Ready refl (omega arith)
