-- ===== src/Plan/TargetIds/Pairs.antt =====
-- Pairs of targets in a list, and lists without repetition
-- (crates/shipshape-core/src/release/target_id.rs, `journal_target_ids`).
use ossctl.Base.{String, ◌≡◌, ◌≢◌, refl, true, false, List, [], ◌∷◌, map, All, arith, eq_iff}
use ossctl.Base.Dict.{contains}
use ossctl.Schema.{Ecosystem}
use ossctl.Plan.{PlanTarget}
use ossctl.Plan.TargetIds.{all_new}

-- Any earlier element of a list against any later one.
abbrev pub Pairwise {κ} : (PlanTarget → PlanTarget → Type κ) → List PlanTarget → Type κ
Pairwise R [] = Unit
Pairwise R (x ∷ xs) = All (R x) xs × Pairwise R xs

pub All-map {κ κ'} :
    (P : PlanTarget → Type κ) (Q : PlanTarget → Type κ') (xs : List PlanTarget)
    → ((x : PlanTarget) → P x → Q x)
    → All P xs
    → All Q xs
All-map P Q [] f h = tt
All-map P Q (x ∷ xs) f h = (f x h.0, All-map P Q xs f h.1)

pub All-trivial : (xs : List PlanTarget) → All (λ x. Unit {0}) xs
All-trivial [] = tt
All-trivial (x ∷ xs) = (tt, All-trivial xs)

pub Pairwise-map {κ κ'} :
    (R : PlanTarget → PlanTarget → Type κ) (S : PlanTarget → PlanTarget → Type κ')
    (xs : List PlanTarget)
    → ((x y : PlanTarget) → R x y → S x y)
    → Pairwise R xs
    → Pairwise S xs
Pairwise-map R S [] f h = tt
Pairwise-map R S (x ∷ xs) f h = (All-map (R x) (S x) xs (f x) h.0, Pairwise-map R S xs f h.1)

pub contains-map :
    (f : PlanTarget → String) (s : String) (xs : List PlanTarget)
    → All (λ y. s ≢ f y) xs
    → contains s (map f xs) ≡ false
unfolding contains
contains-map f s [] h = refl
contains-map f s (x ∷ xs) h = ground (arith, eq_iff (f x) s, contains-map f s xs h.1, h.0)

pub all_new-map :
    (f : PlanTarget → String) (xs : List PlanTarget)
    → Pairwise (λ x y. f x ≢ f y) xs
    → all_new (map f xs) ≡ true
unfolding all_new
all_new-map f [] h = refl
all_new-map f (x ∷ xs) h = rw (contains-map f (f x) xs h.0, all_new-map f xs h.1)

pub All-contains :
    (f : PlanTarget → String) (s : String) (xs : List PlanTarget)
    → contains s (map f xs) ≡ false
    → All (λ y. s ≢ f y) xs
unfolding contains
All-contains f s [] h = tt
All-contains f s (x ∷ xs) h =
    (λ e. ground (arith, eq_iff (f x) s), All-contains f s xs (ground arith))

pub Pairwise-of_all_new :
    (f : PlanTarget → String) (xs : List PlanTarget)
    → all_new (map f xs) ≡ true
    → Pairwise (λ x y. f x ≢ f y) xs
unfolding all_new
Pairwise-of_all_new f [] h = tt
Pairwise-of_all_new f (x ∷ xs) h =
    (All-contains f (f x) xs (ground arith), Pairwise-of_all_new f xs (ground arith))

pub All-both {κ κ'} :
    (P : PlanTarget → Type κ) (Q : PlanTarget → Type κ') (xs : List PlanTarget)
    → All P xs
    → All Q xs
    → All (λ x. P x × Q x) xs
All-both P Q [] p q = tt
All-both P Q (x ∷ xs) p q = ((p.0, q.0), All-both P Q xs p.1 q.1)

pub Pairwise-both {κ κ'} :
    (R : PlanTarget → PlanTarget → Type κ) (S : PlanTarget → PlanTarget → Type κ')
    (xs : List PlanTarget)
    → Pairwise R xs
    → Pairwise S xs
    → Pairwise (λ x y. R x y × S x y) xs
Pairwise-both R S [] p q = tt
Pairwise-both R S (x ∷ xs) p q = (All-both (R x) (S x) xs p.0 q.0, Pairwise-both R S xs p.1 q.1)

pub All-family {κ} :
    (P : Ecosystem → PlanTarget → Type κ) (xs : List PlanTarget)
    → ((e : Ecosystem) → All (P e) xs)
    → All (λ x. (e : Ecosystem) → P e x) xs
All-family P [] h = tt
All-family P (x ∷ xs) h = (λ e. (h e).0, All-family P xs (λ e. (h e).1))

pub Pairwise-family {κ} :
    (R : Ecosystem → PlanTarget → PlanTarget → Type κ) (xs : List PlanTarget)
    → ((e : Ecosystem) → Pairwise (R e) xs)
    → Pairwise (λ x y. (e : Ecosystem) → R e x y) xs
Pairwise-family R [] h = tt
Pairwise-family R (x ∷ xs) h =
    (All-family (λ e. R e x) xs (λ e. (h e).0), Pairwise-family R xs (λ e. (h e).1))
