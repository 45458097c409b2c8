-- ===== src/System/Pipeline/Order.antt =====
-- The order in which the tasks of a header run, and the one in which their results are handed on.
use mathlib.Core.Path.{subst}
use mathlib.Core.List.{Permᴰ}
use mathlib.Core.List.Permᴰ
use pix_tools.Base.{◌≡◌, refl, ap, sym, ◌∙◌, List, [], ◌∷◌, map, All, arith}

-- The results of tasks that ran in one order, in the order of the header.
unfoldable pub carry {ℓ κ} :
    {A : Type ℓ} {B : Type κ} {xs ys : List A} → Permᴰ xs ys → List B → List B
carry Permᴰ.nil ks = ks
carry (Permᴰ.cons e p) [] = []
carry (Permᴰ.cons e p) (k ∷ ks) = k ∷ carry p ks
carry (Permᴰ.swap e e') (k ∷ l ∷ ks) = l ∷ k ∷ ks
carry (Permᴰ.swap e e') ks = ks
carry (Permᴰ.trans p q) ks = carry q (carry p ks)

pub carry-map {ℓ κ μ} :
    {A : Type ℓ} {B : Type κ} {C : Type μ} (f : B → C) {xs ys : List A} (p : Permᴰ xs ys)
    (ks : List B)
    → carry p (map f ks) ≡ map f (carry p ks)
unfolding carry
carry-map f Permᴰ.nil ks = refl
carry-map f (Permᴰ.cons e p) [] = refl
carry-map f (Permᴰ.cons e p) (k ∷ ks) = ap (λ l. f k ∷ l) (carry-map f p ks)
carry-map f (Permᴰ.swap e e') [] = refl
carry-map f (Permᴰ.swap e e') (k ∷ []) = refl
carry-map f (Permᴰ.swap e e') (k ∷ l ∷ ks) = refl
carry-map f (Permᴰ.trans p q) ks = ap (carry q) (carry-map f p ks) ∙ carry-map f q (carry p ks)

pub carry_of_map {ℓ κ μ} :
    {A : Type ℓ} {A' : Type κ} {B : Type μ} (f : A → A') {xs ys : List A} (p : Permᴰ xs ys)
    (ks : List B)
    → carry (Permᴰ.map f p) ks ≡ carry p ks
unfolding carry Permᴰ.map
carry_of_map f Permᴰ.nil ks = refl
carry_of_map f (Permᴰ.cons e p) [] = refl
carry_of_map f (Permᴰ.cons e p) (k ∷ ks) = ap (λ l. k ∷ l) (carry_of_map f p ks)
carry_of_map f (Permᴰ.swap e e') [] = refl
carry_of_map f (Permᴰ.swap e e') (k ∷ []) = refl
carry_of_map f (Permᴰ.swap e e') (k ∷ l ∷ ks) = refl
carry_of_map f (Permᴰ.trans p q) ks =
    carry_of_map f q (carry (Permᴰ.map f p) ks) ∙ ap (carry q) (carry_of_map f p ks)

pub map-carry {ℓ κ} :
    {A : Type ℓ} {B : Type κ} (f : B → A) {xs ys : List A} (p : Permᴰ xs ys) (ks : List B)
    → map f ks ≡ xs
    → map f (carry p ks) ≡ ys
unfolding carry
map-carry f Permᴰ.nil ks h = h
map-carry f (Permᴰ.cons e p) [] h = ground (arith, h)
map-carry f (Permᴰ.cons e p) (k ∷ ks) h =
    let next = map-carry f p ks (ground (arith, h)) in ground (arith, h, next, e)
map-carry f (Permᴰ.swap e e') [] h = ground (arith, h)
map-carry f (Permᴰ.swap e e') (k ∷ []) h = ground (arith, h)
map-carry f (Permᴰ.swap e e') (k ∷ l ∷ ks) h = ground (arith, h, e, e')
map-carry f (Permᴰ.trans p q) ks h = map-carry f q (carry p ks) (map-carry f p ks h)

pub All-carry {ℓ κ μ} :
    {A : Type ℓ} {B : Type κ} (P : B → Type μ) {xs ys : List A} (p : Permᴰ xs ys) (ks : List B)
    → All P ks
    → All P (carry p ks)
unfolding carry
All-carry P Permᴰ.nil ks h = h
All-carry P (Permᴰ.cons e p) [] h = tt
All-carry P (Permᴰ.cons e p) (k ∷ ks) (a, h) = (a, All-carry P p ks h)
All-carry P (Permᴰ.swap e e') [] h = tt
All-carry P (Permᴰ.swap e e') (k ∷ []) h = h
All-carry P (Permᴰ.swap e e') (k ∷ l ∷ ks) (a, (b, h)) = (b, (a, h))
All-carry P (Permᴰ.trans p q) ks h = All-carry P q (carry p ks) (All-carry P p ks h)

pub All_of_order {ℓ κ} :
    {A : Type ℓ} (P : A → Type κ) {xs ys : List A} → Permᴰ xs ys → All P ys → All P xs
All_of_order P Permᴰ.nil h = tt
All_of_order P (Permᴰ.cons e p) (a, h) = (subst P (sym e) a, All_of_order P p h)
All_of_order P (Permᴰ.swap e e') (a, (b, h)) = (subst P (sym e) b, (subst P (sym e') a, h))
All_of_order P (Permᴰ.trans p q) h = All_of_order P p (All_of_order P q h)
