-- ===== src/Proxy/Batch/Aligned.antt =====
-- Batches in which the marks and the promises belong to the operations (pancake_proxy.cpp,
-- `storage_batch`, `is_trues` and `promises`).

use pancake.Base.Tests.{ℕ, suc, ◌≡◌, refl, ap, Bool, true, false, List, [], ◌∷◌, ◌++◌}
use pancake.Base.Lists.{length, All}
use pancake.Operation.{Operation}
use pancake.Proxy.Execute.Batches.{Promised}

-- Each operation has its mark, each true one its promise, each other one is a get, and there are no
-- more promises.
abbrev pub Aligned : List Operation → List Bool → List ℕ → Type 0
Aligned [] [] [] = Unit {0}
Aligned (o ∷ os) (false ∷ ts) ps = (o.value ≡ []) × Aligned os ts ps
Aligned (o ∷ os) (true ∷ ts) (p ∷ ps) = Aligned os ts ps
Aligned _ _ _ = ⊥

-- The true operations with their promises.
abbrev pub taken : List Operation → List Bool → List ℕ → List (Operation × ℕ)
taken (o ∷ os) (false ∷ ts) ps = taken os ts ps
taken (o ∷ os) (true ∷ ts) (p ∷ ps) = (o, p) ∷ taken os ts ps
taken _ _ _ = []

pub Aligned-Promised :
    (os : List Operation) (ts : List Bool) (ps : List ℕ)
    → Aligned os ts ps
    → Promised os ts ps × (length os ≡ length ts)
Aligned-Promised [] [] [] a = (tt, refl)
Aligned-Promised [] [] (p ∷ ps) a = absurd a
Aligned-Promised [] (t ∷ ts) ps a = absurd a
Aligned-Promised (o ∷ os) [] ps a = absurd a
Aligned-Promised (o ∷ os) (false ∷ ts) ps a =
    let (h, e) = Aligned-Promised os ts ps a.1 in (h, ap suc e)
Aligned-Promised (o ∷ os) (true ∷ ts) [] a = absurd a
Aligned-Promised (o ∷ os) (true ∷ ts) (p ∷ ps) a =
    let (h, e) = Aligned-Promised os ts ps a in (h, ap suc e)

pub add_false :
    (os : List Operation) (ts : List Bool) (ps : List ℕ) (o : Operation)
    → o.value ≡ []
    → Aligned os ts ps
    → Aligned (os ++ o ∷ []) (ts ++ false ∷ []) ps
      × (taken (os ++ o ∷ []) (ts ++ false ∷ []) ps ≡ taken os ts ps)
add_false [] [] [] o get a = ((get, tt), refl)
add_false [] [] (p ∷ ps) o get a = absurd a
add_false [] (t ∷ ts) ps o get a = absurd a
add_false (x ∷ os) [] ps o get a = absurd a
add_false (x ∷ os) (false ∷ ts) ps o get a =
    let (h, e) = add_false os ts ps o get a.1 in ((a.0, h), e)
add_false (x ∷ os) (true ∷ ts) [] o get a = absurd a
add_false (x ∷ os) (true ∷ ts) (p ∷ ps) o get a =
    let (h, e) = add_false os ts ps o get a in (h, ap (λ l. (x, p) ∷ l) e)

pub add_true :
    (os : List Operation) (ts : List Bool) (ps : List ℕ) (o : Operation) (n : ℕ)
    → Aligned os ts ps
    → Aligned (os ++ o ∷ []) (ts ++ true ∷ []) (ps ++ n ∷ [])
      × (taken (os ++ o ∷ []) (ts ++ true ∷ []) (ps ++ n ∷ []) ≡ taken os ts ps ++ (o, n) ∷ [])
add_true [] [] [] o n a = (tt, refl)
add_true [] [] (p ∷ ps) o n a = absurd a
add_true [] (t ∷ ts) ps o n a = absurd a
add_true (x ∷ os) [] ps o n a = absurd a
add_true (x ∷ os) (false ∷ ts) ps o n a = let (h, e) = add_true os ts ps o n a.1 in ((a.0, h), e)
add_true (x ∷ os) (true ∷ ts) [] o n a = absurd a
add_true (x ∷ os) (true ∷ ts) (p ∷ ps) o n a =
    let (h, e) = add_true os ts ps o n a in (h, ap (λ l. (x, p) ∷ l) e)

pub All-snoc :
    (Q : Operation → Type 0) (os : List Operation) (o : Operation)
    → All Q os
    → Q o
    → All Q (os ++ o ∷ [])
All-snoc Q [] o h q = (q, tt)
All-snoc Q (x ∷ os) o h q = (h.0, All-snoc Q os o h.1 q)
