-- ===== src/Proxy/Consumer/Ordered.antt =====
-- The map that a consumer thread (pancake_proxy.cpp, `consumer_thread`) stands for: what requests
-- answer when they are served in the order of their queue.
use mathlib.Core.Path.{fun_ext}
use pancake.Base.Tests.{ℕ, ◌≡◌, refl, ap, ◌∙◌, Bool, true, false, List, [], ◌∷◌, ◌++◌, arith}
use pancake.Base.Text.{Text, text_eqb_iff}
use pancake.Operation.{Operation}
use pancake.Proxy.Batch.Aligned.{Aligned, taken}
use pancake.Proxy.Execute.Batches.{after_all, outcomes}
use pancake.Proxy.Execute.Model.{after}

-- the values after the requests
abbrev pub applied : (Text → Text) → List (Operation × ℕ) → Text → Text
applied f [] = f
applied f ((o, n) ∷ requests) = applied (after f o) requests

-- The answer to each request, under its promise: the value of its key after it.
abbrev pub answers : (Text → Text) → List (Operation × ℕ) → List (ℕ × Text)
answers f [] = []
answers f ((o, n) ∷ requests) = (n, after f o o.key) ∷ answers (after f o) requests

pub after_get : (f : Text → Text) (o : Operation) → o.value ≡ [] → after f o ≡ f
after_get f o e = fun_ext λ k. ground (arith, text_eqb_iff o.value [])

-- the gets that only hide the others change nothing
pub outcomes-taken :
    (f : Text → Text) (os : List Operation) (ts : List Bool) (ps : List ℕ)
    → Aligned os ts ps
    → (outcomes f os ts ps ≡ answers f (taken os ts ps))
      × (after_all f os ≡ applied f (taken os ts ps))
outcomes-taken f [] [] [] a = (refl, refl)
outcomes-taken f [] [] (p ∷ ps) a = absurd a
outcomes-taken f [] (t ∷ ts) ps a = absurd a
outcomes-taken f (o ∷ os) [] ps a = absurd a
outcomes-taken f (o ∷ os) (false ∷ ts) ps (get, a) =
    let (right, same) = outcomes-taken (after f o) os ts ps a in
    let e = after_get f o get in
    (right ∙ ap (λ g. answers g (taken os ts ps)) e, same ∙ ap (λ g. applied g (taken os ts ps)) e)
outcomes-taken f (o ∷ os) (true ∷ ts) [] a = absurd a
outcomes-taken f (o ∷ os) (true ∷ ts) (p ∷ ps) a =
    let (right, same) = outcomes-taken (after f o) os ts ps a in
    (ap (λ l. (p, after f o o.key) ∷ l) right, same)

pub applied-append :
    (f : Text → Text) (rs qs : List (Operation × ℕ))
    → (applied f (rs ++ qs) ≡ applied (applied f rs) qs)
      × (answers f (rs ++ qs) ≡ answers f rs ++ answers (applied f rs) qs)
applied-append f [] qs = (refl, refl)
applied-append f ((o, n) ∷ rs) qs =
    let (same, both) = applied-append (after f o) rs qs in
    (same, ap (λ l. (n, after f o o.key) ∷ l) both)
