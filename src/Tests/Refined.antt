-- ===== src/Tests/Refined.antt =====
-- The proxy with the one key "a", whose two replicas hold the text 5, stands for the map that has 5 at
-- every key.
use pancake.Base.Tests.{ℕ, ◌<◌, ◌≡◌, ◌⊎◌, inl, inr, ◌∙◌, refl, sym, some, [], ◌∷◌, arith, subst}
use pancake.Base.Text.{Text, text_eqb_iff, text_eq, to_string}
use pancake.Base.Dict.{lookup}
use pancake.Proxy.{number_of, replica_name}
use pancake.Proxy.Execute.Choose.{Placed, layout}
use pancake.Proxy.Execute.Model.{Models}
use pancake.Proxy.Execute.Refines.{Refines}
use pancake.Tests.World.{platform, proxy_with, key_a, labels_a}
use pancake.Util.{Rng}

abbrev pub fives : Text → Text
fives k = 5 ∷ []

-- the only replicas
two_of_a :
    (k : Text) (i : ℕ) → i < number_of k ((key_a, 2) ∷ []) → (key_a ≡ k) × ((i ≡ 0) ⊎ (i ≡ 1))
unfolding lookup
two_of_a k i h = ground (arith, text_eqb_iff key_a k)

label_of : (i : ℕ) → (i ≡ 0) ⊎ (i ≡ 1) → lookup (replica_name key_a i) labels_a ≡ some i
unfolding lookup replica_name to_string
label_of i (inl e) = subst (λ n. lookup (replica_name key_a n) labels_a ≡ some n) (sym e) refl
label_of i (inr e) = subst (λ n. lookup (replica_name key_a n) labels_a ≡ some n) (sym e) refl

a_label :
    (k : Text) (i : ℕ)
    → i < number_of k ((key_a, 2) ∷ [])
    → lookup (replica_name k i) labels_a ≡ some i
a_label k i h = let (e, c) = two_of_a k i h in rw (← e) (label_of i c)

pub placed : (g : Rng) → Placed platform (proxy_with g)
placed g = record {
  named = λ k i h. (i, a_label k i h);
  apart = λ k j i n h h' e.
      (sym (two_of_a k i h).0 ∙ (two_of_a j n h').0, (rw (a_label k i h, a_label j n h') at e));
}

pub stored_five :
    (g : Rng) (i : ℕ)
    → (i ≡ 0) ⊎ (i ≡ 1)
    → platform.storage.view (proxy_with g).store (to_string i) ≡ some (1 ∷ 5 ∷ [])
unfolding lookup to_string
stored_five g i (inl e) =
    subst (λ n. platform.storage.view (proxy_with g).store (to_string n) ≡ some (1 ∷ 5 ∷ []))
      (sym e) refl
stored_five g i (inr e) =
    subst (λ n. platform.storage.view (proxy_with g).store (to_string n) ≡ some (1 ∷ 5 ∷ []))
      (sym e) refl

pub models :
    (g : Rng)
    → Models platform
        (layout platform (proxy_with g) (placed g))
        []
        (platform.storage.view (proxy_with g).store)
        fives
unfolding lookup to_string
models g = record {
  sized = λ k. tt;
  plain = λ k h e. cc;
  stands = λ k i h. record {
    cipher = 1 ∷ 5 ∷ [];
    stored = 5 ∷ [];
    at_label = rw (a_label k i h) (stored_five g i (two_of_a k i h).1);
    opens = refl;
    current = inr (refl, refl);
  };
}

pub refines : (g : Rng) → Refines platform (proxy_with g) fives
unfolding lookup
refines g = record {
  placed = placed g;
  unmissed = λ k. refl;
  opened = omega arith;
  models = models g;
}
