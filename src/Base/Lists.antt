-- ===== src/Base/Lists.antt =====
-- Lists counted by native numbers, predicates over lists, and Python's dict with text keys as an
-- association list in insertion order.
use Prim.Native.Nat.{ℕ, suc, ◌+◌}
use Prim.Native.String.{String}
use mathlib.Core.Path.{◌≡◌, refl}
use mathlib.Core.Bool.{Bool, true, false, ◌||◌}
use mathlib.Core.Option.{Option, none, some}
use mathlib.Core.List.{List, [], ◌∷◌, ◌++◌, map}
use native.Mathlib.Omega.{arith}
use text.Mathlib.Text.{◌==◌}
use text.Mathlib.TextEquality.{eq_iff}
use pix_tools.Base.Tests.{if◌then◌else◌}

module _ {ℓ} {A : Type ℓ} where
  abbrev pub length : List A → ℕ
  length [] = 0
  length (x ∷ xs) = suc (length xs)

  abbrev pub is_empty : List A → Bool
  is_empty [] = true
  is_empty (_ ∷ _) = false

  -- A comprehension's `if`.
  abbrev pub keep : (A → Bool) → List A → List A
  keep p [] = []
  keep p (x ∷ xs) = if p x then x ∷ keep p xs else keep p xs

  pub length-append : (xs ys : List A) → length (xs ++ ys) ≡ length xs + length ys
  length-append [] ys = omega arith
  length-append (x ∷ xs) ys = omega (arith, length-append xs ys)

pub is_empty-map {ℓ κ} :
    {A : Type ℓ} {B : Type κ} (f : A → B) (xs : List A) → is_empty (map f xs) ≡ is_empty xs
is_empty-map f [] = refl
is_empty-map f (x ∷ xs) = refl

module _ {ℓ κ} {A : Type ℓ} (P : A → Type κ) where
  abbrev pub All : List A → Type κ
  All [] = Unit
  All (x ∷ xs) = P x × All xs

  pub All-append : (xs ys : List A) → All xs → All ys → All (xs ++ ys)
  All-append [] ys _ k = k
  All-append (x ∷ xs) ys (p, h) k = (p, All-append xs ys h k)

module _ {ℓ κ μ} {A : Type ℓ} {P : A → Type κ} {Q : A → Type μ} (f : (a : A) → P a → Q a) where
  pub All-mono : (xs : List A) → All P xs → All Q xs
  All-mono [] _ = tt
  All-mono (x ∷ xs) (p, h) = (f x p, All-mono xs h)

-- Python's `x in xs` on texts.
abbrev pub is_in : String → List String → Bool
is_in x [] = false
is_in x (y ∷ ys) = x == y || is_in x ys

module _ {ℓ} {V : Type ℓ} where
  -- `m[name] = v`: in place if the name is there, else at the end.
  abbrev pub insert : String → V → List (String × V) → List (String × V)
  insert name v [] = (name, v) ∷ []
  insert name v ((n, w) ∷ m) = if n == name then (n, v) ∷ m else (n, w) ∷ insert name v m

  abbrev pub keys : List (String × V) → List String
  keys [] = []
  keys ((n, _) ∷ m) = n ∷ keys m

  -- `m.get(name)`
  abbrev pub lookup : String → List (String × V) → Option V
  lookup name [] = none
  lookup name ((n, v) ∷ m) = if n == name then some v else lookup name m

  pub lookup-insert :
      (name other : String) (v : V) (m : List (String × V))
      → lookup other (insert name v m) ≡ (if name == other then some v else lookup other m)
  lookup-insert name other v [] = refl
  lookup-insert name other v ((n, w) ∷ rest) =
      let later = lookup-insert name other v rest in
      ground (arith, later, eq_iff n name, eq_iff n other, eq_iff name other)

  pub All-insert {κ} :
      (P : String × V → Type κ) (k : String) (v : V) (m : List (String × V))
      → ((j : String) → j ≡ k → P (j, v))
      → All P m
      → All P (insert k v m)
  All-insert P k v [] p _ = (p k refl, tt)
  All-insert P k v ((j, w) ∷ m) p (q, h) = go (j == k) (eq_iff j k).0 (All-insert P k v m p h)
    where
      go :
          (b : Bool)
          → (b ≡ true → j ≡ k)
          → All P (insert k v m)
          → All P (if b then (j, v) ∷ m else (j, w) ∷ insert k v m)
      go true e _ = (p j (e refl), h)
      go false _ later = (q, later)
