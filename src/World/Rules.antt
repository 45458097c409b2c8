-- ===== src/World/Rules.antt =====
-- Relations between the state before an action and the state after it, and their rule for a chain.
use pix_tools.Base.{
  ◌≡◌, refl, ap, Bool, true, false, Option, none, some, Exn, if◌then◌else◌, Result, ok, err, Call,
}
use pix_tools.Platform.{Platform}
use pix_tools.World.{
  World, Action, Metric, pure, lift, gets, call, when, attempt, record_metric, reraise, retrying,
  ◌>>=◌,
}

-- A chain whose first action returns.
pub bind_ok :
    {p : Platform} {A B : Type 0} (m : Action p A) (f : A → Action p B) (w v : World p) (a : A)
    → m w ≡ (ok a, v)
    → (m >>= f) w ≡ f a v
bind_ok {p} {A} {B} m f w v a h =
    ap
      (λ (q : Result A × World p). elim q.0 as (λ _. Result B × World p) [
        | ok a ↦ f a q.1
        | err e ↦ (err e, q.1)
      ])
      h

-- A transitive relation that holds where the rows of the database stay as they are.
pub record Relation (p : Platform) : Type 1 where
  pub Rel : World p → World p → Type 0
  pub trans : (u v w : World p) → Rel u v → Rel v w → Rel u w
  pub quiet : (v w : World p) → w.jobs ≡ v.jobs → w.session ≡ v.session → Rel v w

module _ {p : Platform} (r : Relation p) where
  -- Every run of the action is related to its start.
  pub record Keeps {A : Type 0} (m : Action p A) : Type 0 where
    pub at : (w : World p) → r.Rel w (m w).1

  pub Rel-refl : (w : World p) → r.Rel w w
  Rel-refl w = r.quiet w w refl refl

  Rel-case :
      {A B : Type 0} (w : World p) (f : A → Action p B) (q : Result A × World p)
      → r.Rel w q.1
      → ((a : A) → q.0 ≡ ok a → r.Rel q.1 (f a q.1).1)
      → r.Rel w (elim q.0 as (λ _. Result B × World p) [ ok a ↦ f a q.1 | err e ↦ (err e, q.1) ]).1
  Rel-case w f (ok a, v) h k = r.trans w v (f a v).1 h (k a refl)
  Rel-case w f (err e, v) h k = h

  -- The rule for a chain at one start, where the second action may rely on the first one's result.
  pub Rel-bind :
      {A B : Type 0} (m : Action p A) (f : A → Action p B) (w : World p)
      → r.Rel w (m w).1
      → ((a : A) → (m w).0 ≡ ok a → r.Rel (m w).1 (f a (m w).1).1)
      → r.Rel w ((m >>= f) w).1
  Rel-bind m f w h k = Rel-case w f (m w) h k

  pub Keeps-bind :
      {A B : Type 0} (m : Action p A) (f : A → Action p B)
      → Keeps m
      → ((a : A) → Keeps (f a))
      → Keeps (m >>= f)
  Keeps-bind m f h k = record { at = λ w. Rel-bind m f w (h.at w) (λ a _. (k a).at (m w).1) }

  pub Keeps-lift : {A : Type 0} (q : Result A) → Keeps (lift {p = p} q)
  Keeps-lift q = record { at = Rel-refl }

  pub Keeps-pure : {A : Type 0} (a : A) → Keeps (pure {p = p} a)
  Keeps-pure a = record { at = Rel-refl }

  pub Keeps-gets : {A : Type 0} (f : World p → A) → Keeps (gets f)
  Keeps-gets f = record { at = Rel-refl }

  pub Keeps-call : (c : Call) → Keeps (call {p = p} c)
  Keeps-call c = record { at = Rel-refl }

  pub Keeps-record_metric : (m : Metric) → Keeps (record_metric {p = p} m)
  Keeps-record_metric m = record { at = λ w. r.quiet w _ refl refl }

  -- An action that leaves the rows alone.
  pub Keeps-quiet :
      {A : Type 0} (m : Action p A)
      → ((w : World p) → (m w).1.jobs ≡ w.jobs)
      → ((w : World p) → (m w).1.session ≡ w.session)
      → Keeps m
  Keeps-quiet m jobs session = record { at = λ w. r.quiet w (m w).1 (jobs w) (session w) }

  pub Keeps-attempt : (m : Action p (Unit {0})) → Keeps m → Keeps (attempt m)
  Keeps-attempt m h = record { at = h.at }

  Rel-reraise :
      {A : Type 0} (f : Exn → Exn) (w : World p) (q : Result A × World p)
      → r.Rel w q.1
      → r.Rel w (reraise f q).1
  Rel-reraise f w (ok a, v) h = h
  Rel-reraise f w (err e, v) h = h

  pub Keeps-retrying :
      {A : Type 0} (f : Exn → Exn) (m : Action p A) → Keeps m → Keeps (retrying f m)
  Keeps-retrying f m h = record { at = λ w. Rel-reraise f w (m w) (h.at w) }

  pub Keeps-if :
      {A : Type 0} (b : Bool) (m n : Action p A) → Keeps m → Keeps n → Keeps (if b then m else n)
  Keeps-if true m n h k = h
  Keeps-if false m n h k = k

  pub Keeps-when : (b : Bool) (m : Action p (Unit {0})) → Keeps m → Keeps (when b m)
  Keeps-when true m h = h
  Keeps-when false m h = Keeps-pure tt

  pub Keeps-option :
      {A B : Type 0} (o : Option A) (m : Action p B) (f : A → Action p B)
      → Keeps m
      → ((a : A) → Keeps (f a))
      → Keeps (elim o as (λ _. Action p B) [ none ↦ m | some a ↦ f a ])
  Keeps-option none m f h k = h
  Keeps-option (some a) m f h k = k a
