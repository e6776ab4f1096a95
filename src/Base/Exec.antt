-- ===== src/Base/Exec.antt =====
-- Methods that change an object and may raise. What was written before a raise stays written, so
-- an outcome carries the state in both cases.
use mathlib.Core.Path.{◌≡◌, refl}
use mathlib.Core.Logic.{◌⊎◌, inl, inr}
use mathlib.Core.Bool.{Bool, true, false}
use lustro_node_agent.Base.Tests.{if◌then◌else◌}
use lustro_node_agent.Base.Result.{Exn, Result, ok, err}

pub data Outcome {ℓ} (S A : Type ℓ) : Type ℓ where
  returned : A → S → Outcome S A
  raised : Exn → S → Outcome S A

-- The state that an outcome leaves.
abbrev pub final {ℓ} : {S A : Type ℓ} → Outcome S A → S
final (returned a s) = s
final (raised e s) = s

abbrev pub Exec {ℓ} : Type ℓ → Type ℓ → Type ℓ
Exec S A = S → Outcome S A

module _ {ℓ} {S A : Type ℓ} where
  abbrev pub pure : A → Exec S A
  pure a s = returned a s

  abbrev pub raise : Exn → Exec S A
  raise e s = raised e s

  abbrev pub settle : Result A → S → Outcome S A
  settle (ok a) s = returned a s
  settle (err e) s = raised e s

  abbrev pub lift : Result A → Exec S A
  lift r s = settle r s

module _ {ℓ} {S A B : Type ℓ} where
  abbrev pub continue : Outcome S A → (A → Exec S B) → Outcome S B
  continue (returned a s) f = f a s
  continue (raised e s) f = raised e s

infixl 5 ◌>>=◌ ◌>>◌
abbrev pub ◌>>=◌ {ℓ} : {S A B : Type ℓ} → Exec S A → (A → Exec S B) → Exec S B
◌>>=◌ m f s = continue (m s) f

abbrev pub ◌>>◌ {ℓ} : {S A B : Type ℓ} → Exec S A → Exec S B → Exec S B
◌>>◌ m k s = continue (m s) (λ _. k)

pub Outcome-cases {ℓ} :
    {S A : Type ℓ} (o : Outcome S A)
    → ((a : A) × (s : S) × (o ≡ returned a s)) ⊎ ((e : Exn) × (s : S) × (o ≡ raised e s))
Outcome-cases (returned a s) = inl (a, s, refl)
Outcome-cases (raised e s) = inr (e, s, refl)

-- Inversion of a block that returned.
pub continue-returned {ℓ} :
    {S A B : Type ℓ} (o : Outcome S A) (f : A → Exec S B) {b : B} {u : S}
    → continue o f ≡ returned b u
    → (a : A) × (t : S) × (o ≡ returned a t) × (f a t ≡ returned b u)
continue-returned (returned a t) f h = (a, t, refl, h)
continue-returned (raised e t) f h = cc

pub settle-returned {ℓ} :
    {S A B : Type ℓ} (r : Result A) (s : S) (f : A → Exec S B) {b : B} {u : S}
    → continue (settle r s) f ≡ returned b u
    → (a : A) × (r ≡ ok a) × (f a s ≡ returned b u)
settle-returned (ok a) s f h = (a, refl, h)
settle-returned (err e) s f h = cc

pub settle-is_returned {ℓ} :
    {S A : Type ℓ} (r : Result A) (s : S) {a : A} {t : S}
    → settle r s ≡ returned a t
    → (r ≡ ok a) × (t ≡ s)
settle-is_returned (ok a) s h = (cc, cc)
settle-is_returned (err e) s h = cc

-- `m` keeps `I`, whether it returns or raises.
pub record Keeps {ℓ} {S A : Type ℓ} (I : S → Type ℓ) (m : Exec S A) : Type ℓ where
  pub at : (s : S) → I s → I (final (m s))

pub final-settle {ℓ} : {S A : Type ℓ} (r : Result A) (s : S) → final (settle r s) ≡ s
final-settle (ok a) s = refl
final-settle (err e) s = refl

module _ {ℓ} {S A : Type ℓ} {I : S → Type ℓ} where
  pub Keeps-pure : (a : A) → Keeps I (pure {S = S} a)
  Keeps-pure a = record { at = λ s h. h }

  pub Keeps-raise : (e : Exn) → Keeps I (raise {A = A} e)
  Keeps-raise e = record { at = λ s h. h }

  pub Keeps-if : (b : Bool) (m n : Exec S A) → Keeps I m → Keeps I n → Keeps I (if b then m else n)
  Keeps-if true m n km kn = km
  Keeps-if false m n km kn = kn

  pub Keeps-lift : (r : Result A) → Keeps I (lift {S = S} r)
  Keeps-lift r = record { at = λ s h. rw (final-settle r s) h }

module _ {ℓ} {S A B : Type ℓ} {I : S → Type ℓ} where
  continue-Keeps :
      (o : Outcome S A) (f : A → Exec S B)
      → ((a : A) (t : S) → o ≡ returned a t → I t → I (final (f a t)))
      → I (final o)
      → I (final (continue o f))
  continue-Keeps (returned a s) f later h = later a s refl h
  continue-Keeps (raised e s) f later h = h

  pub Keeps-bind :
      (m : Exec S A) (f : A → Exec S B) → Keeps I m → ((a : A) → Keeps I (f a)) → Keeps I (m >>= f)
  Keeps-bind m f km kf = record {
    at = λ s h. continue-Keeps (m s) f (λ a t _ i. (kf a).at t i) (km.at s h);
  }

  -- The rest of a block may use what a pure step returned.
  pub Keeps-bind-lift :
      (r : Result A) (f : A → Exec S B)
      → ((a : A) → r ≡ ok a → Keeps I (f a))
      → Keeps I (lift {S = S} r >>= f)
  Keeps-bind-lift (ok a) f kf = kf a refl
  Keeps-bind-lift (err e) f kf = Keeps-raise e

pub ruleset keeps_rules = (Keeps-pure, Keeps-raise, Keeps-lift, Keeps-if, Keeps-bind)

pub returned-injective {ℓ} :
    {S A : Type ℓ} {a b : A} {s t : S} → returned a s ≡ returned b t → a ≡ b
returned-injective h = cc
