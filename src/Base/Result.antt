-- ===== src/Base/Result.antt =====
-- Exceptions as values: a call that may raise returns a `Result`.
use Prim.Native.String.{String}
use mathlib.Core.Path.{◌≡◌, refl}
use mathlib.Core.Logic.{◌⊎◌, inl, inr}
use mathlib.Core.Bool.{Bool, true, false}
use mathlib.Core.Option.{Option, none, some}
use lustro_node_agent.Base.Text.{Text}

-- The messages of `CorePinError`.
pub data PinReason : Type 0 where
  not_an_object missing_wu_id wu_id_not_string wu_id_too_long wu_id_invalid_chars : PinReason
  missing_field : String → PinReason
  field_too_long : String → PinReason
  core_sig_malformed key_id_mismatch no_pinned_key pinned_key_malformed : PinReason
  signature_invalid response_too_large response_not_json response_not_object : PinReason

-- The messages of `EgressViolation`.
pub data EgressReason : Type 0 where
  scheme_refused host_refused port_refused : EgressReason

pub data Exn : Type 0 where
  core_pin_error : PinReason → Exn
  egress_violation : EgressReason → Exn
  replay_error : Text → Exn
  value_error unicode_error type_error key_error attribute_error runtime_error : Exn
  http_error os_error transport_error other_error : Exn

pub data Result {ℓ} (A : Type ℓ) : Type ℓ where
  ok : A → Result A
  err : Exn → Result A

infixl 5 ◌>>=◌ ◌>>◌
abbrev pub ◌>>=◌ {ℓ κ} : {A : Type ℓ} {B : Type κ} → Result A → (A → Result B) → Result B
ok a >>= f = f a
err e >>= f = err e

abbrev pub ◌>>◌ {ℓ κ} : {A : Type ℓ} {B : Type κ} → Result A → Result B → Result B
m >> k = m >>= λ _. k

abbrev pub guard : Bool → Exn → Result (Unit {0})
guard true e = ok tt
guard false e = err e

-- An exception of a call that returns `Option` in this development.
abbrev pub or_raise {ℓ} : {A : Type ℓ} → Option A → Exn → Result A
or_raise (some a) e = ok a
or_raise none e = err e

pub Result-cases {ℓ} :
    {A : Type ℓ} (r : Result A) → ((a : A) × (r ≡ ok a)) ⊎ ((e : Exn) × (r ≡ err e))
Result-cases (ok a) = inl (a, refl)
Result-cases (err e) = inr (e, refl)

-- Inversion of a chain that returned: every step returned, and every guard held.
pub >>=-eq-ok {ℓ κ} :
    {A : Type ℓ} {B : Type κ} (call : Result A) (rest : A → Result B) {out : B}
    → (call >>= rest) ≡ ok out
    → (mid : A) × (call ≡ ok mid) × (rest mid ≡ ok out)
>>=-eq-ok (err e) rest chain = cc
>>=-eq-ok (ok mid) rest chain = (mid, refl, chain)

pub guard-eq-ok {ℓ} :
    {B : Type ℓ} (c : Bool) (e : Exn) (k : Result B) {b : B}
    → (guard c e >> k) ≡ ok b
    → (c ≡ true) × (k ≡ ok b)
guard-eq-ok true e k h = (refl, h)
guard-eq-ok false e k h = cc

pub ok-injective {ℓ} : {A : Type ℓ} {a b : A} → ok a ≡ ok b → a ≡ b
ok-injective h = cc

pub guard-ok : (c : Bool) (e : Exn) → guard c e ≡ ok tt → c ≡ true
guard-ok true e h = refl
guard-ok false e h = cc

module _ {ℓ} {A B C : Type ℓ} where
  pub >>=-regroup :
      (m : Result A) (f : A → Result B) (g : B → Result C) (h : A → Result C)
      → ((a : A) → h a ≡ (f a >>= g))
      → (m >>= h) ≡ ((m >>= f) >>= g)
  >>=-regroup (ok a) f g h same = same a
  >>=-regroup (err e) f g h same = refl

module _ {ℓ} {A B : Type ℓ} where
  pub >>=-congr :
      (m : Result A) (f g : A → Result B) → ((a : A) → f a ≡ g a) → (m >>= f) ≡ (m >>= g)
  >>=-congr (ok a) f g same = same a
  >>=-congr (err e) f g same = refl

pub >>=-ok {ℓ} : {A : Type ℓ} (m : Result A) → (m >>= ok) ≡ m
>>=-ok (ok a) = refl
>>=-ok (err e) = refl
