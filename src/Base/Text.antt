-- ===== src/Base/Text.antt =====
-- Python's `in`, `split` and `rsplit(c, 1)` for a single character, over code points.
use Prim.Native.Char.{Char, code}
use Prim.Native.String.{String, [], ◌∷◌, ◌++◌}
use mathlib.Core.Path.{◌≡◌, ap, refl}
use mathlib.Core.Bool.{Bool, true, false, ◌||◌}
use native.Mathlib.Omega.{arith}
use text.Mathlib.TextLemmas.{nil-append, cons-append}
use pix_tools.Base.Tests.{eqb, if◌then◌else◌}

-- `c in s`
unfoldable pub has : Char → String → Bool
has c [] = false
has c (x ∷ s) = eqb (code x) (code c) || has c s

-- `s.split(c)[0]`
unfoldable pub before_first : Char → String → String
before_first c [] = []
before_first c (x ∷ s) = if eqb (code x) (code c) then [] else x ∷ before_first c s

-- `s.split(c)[-1]`, and `s.rsplit(c, 1)[-1]`
unfoldable pub after_last : Char → String → String
unfolding has
after_last c [] = []
after_last c (x ∷ s) =
    if has c s then after_last c s else if eqb (code x) (code c) then s else x ∷ s

-- `s.rsplit(c, 1)[0]`
unfoldable pub before_last : Char → String → String
unfolding has
before_last c [] = []
before_last c (x ∷ s) =
    if has c s then x ∷ before_last c s else if eqb (code x) (code c) then [] else x ∷ s

pub has-append : (c : Char) (s t : String) → has c (s ++ t) ≡ (has c s || has c t)
unfolding has
has-append c [] t = rw nil-append
has-append c (x ∷ s) t = rw cons-append (ground (arith, has-append c s t))

pub before_first-append :
    (c : Char) (s t : String) → has c s ≡ false → before_first c (s ++ c ∷ t) ≡ s
unfolding has before_first
before_first-append c [] t h = rw nil-append (ground arith)
before_first-append c (x ∷ s) t h = rw cons-append (ground (arith, before_first-append c s t))

has-append_cons : (c : Char) (s t : String) → has c (s ++ c ∷ t) ≡ true
unfolding has
has-append_cons c [] t = rw nil-append (ground arith)
has-append_cons c (x ∷ s) t = rw cons-append (ground (arith, has-append_cons c s t))

pub after_last-append : (c : Char) (s t : String) → has c t ≡ false → after_last c (s ++ c ∷ t) ≡ t
unfolding after_last
after_last-append c [] t h = rw nil-append (ground arith)
after_last-append c (x ∷ s) t h =
    rw cons-append (rw (has-append_cons c s t) (after_last-append c s t h))

pub before_last-append :
    (c : Char) (s t : String) → has c t ≡ false → before_last c (s ++ c ∷ t) ≡ s
unfolding before_last
before_last-append c [] t h = rw nil-append (ground arith)
before_last-append c (x ∷ s) t h =
    rw cons-append (rw (has-append_cons c s t) (ap (λ r. x ∷ r) (before_last-append c s t h)))

-- A literal of one character in front of a text.
pub one-append : (c : Char) (t : String) → (c ∷ []) ++ t ≡ c ∷ t
one-append c t = rw cons-append (rw nil-append refl)

pub has-one_append :
    (c d : Char) (t : String) → has c ((d ∷ []) ++ t) ≡ (eqb (code d) (code c) || has c t)
unfolding has
has-one_append c d t = rw one-append refl
