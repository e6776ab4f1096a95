-- ===== src/Base/Value.antt =====
-- The Python values that pass through the agent: what `json.loads` can give, and `bytes`.
-- A `dict` is a list of fields with distinct keys, oldest first.
use Prim.Native.Nat.{ℕ, ◌^◌}
use Prim.Native.String.{String}
use mathlib.Core.Bool.{Bool, true, false, not, ◌||◌}
use mathlib.Core.List.{[], ◌∷◌}
use mathlib.Core.Path.{◌≡◌, refl}
use mathlib.Core.Logic.{inl, inr}
use text.Mathlib.Text.{◌==◌ as str_eq}
use lustro_node_agent.Base.Tests.{◌==◌, Bool-cases, if◌then◌else◌}
use lustro_node_agent.Base.Int.{ℤ, pos, int_eq}
use lustro_node_agent.Base.Text.{Text, Bytes}

-- A float is its IEEE 754 bit pattern.
mutual
  pub data Value : Type 0 where
    null : Value
    bool : Bool → Value
    int : ℤ → Value
    float : ℕ → Value
    str : Text → Value
    bytes : Bytes → Value
    list : Items → Value
    dict : Fields → Value

  pub data Items : Type 0 where
    nil : Items
    cons : Value → Items → Items

  pub data Fields : Type 0 where
    end : Fields
    field : String → Value → Fields → Fields

-- `d.get(k)`, which gives `None` for a missing key.
unfoldable pub get : String → Fields → Value
get k end = null
get k (field j v fs) = if str_eq j k then v else get k fs

-- `k in d`
unfoldable pub has_key : String → Fields → Bool
has_key k end = false
has_key k (field j v fs) = str_eq j k || has_key k fs

-- `d[k] = v`
unfoldable pub set_key : String → Value → Fields → Fields
set_key k v end = field k v end
set_key k v (field j w fs) = if str_eq j k then field j v fs else field j w (set_key k v fs)

-- `d.pop(k, None)`, where the keys of `d` are distinct
unfoldable pub pop_key : String → Fields → Fields
pop_key k end = end
pop_key k (field j v fs) = let rest = pop_key k fs in if str_eq j k then rest else field j v rest

pub has_key-pop_key : (k : String) (fs : Fields) → has_key k (pop_key k fs) ≡ false
unfolding has_key pop_key
has_key-pop_key k end = refl
has_key-pop_key k (field j v fs) = elim (Bool-cases (str_eq j k)) [
  | inl same ↦ rw same (has_key-pop_key k fs)
  | inr other ↦ rw other (rw other (has_key-pop_key k fs))
]

or_false : (a b : Bool) → (a || b) ≡ false → (a ≡ false) × (b ≡ false)
or_false true b h = cc
or_false false b h = (refl, h)

-- To drop a key does not bring another one back.
pub pop_key-has_key :
    (j k : String) (fs : Fields) → has_key j fs ≡ false → has_key j (pop_key k fs) ≡ false
unfolding has_key pop_key
pop_key-has_key j k end h = refl
pop_key-has_key j k (field i v fs) h =
    let (differs, absent) = or_false (str_eq i j) (has_key j fs) h in
    elim (Bool-cases (str_eq i k)) [
      | inl same ↦ rw same (pop_key-has_key j k fs absent)
      | inr other ↦ rw other (rw differs (pop_key-has_key j k fs absent))
    ]

-- `bool(v)`: a float is falsy at 0.0 and at -0.0.
unfoldable pub truthy : Value → Bool
truthy null = false
truthy (bool b) = b
truthy (int n) = not (int_eq n (pos 0))
truthy (float x) = not (x == 0 || x == 2 ^ 63)
truthy (str []) = false
truthy (str (_ ∷ _)) = true
truthy (bytes []) = false
truthy (bytes (_ ∷ _)) = true
truthy (list nil) = false
truthy (list (cons _ _)) = true
truthy (dict end) = false
truthy (dict (field _ _ _)) = true

-- `v is not None`
abbrev pub is_some : Value → Bool
is_some null = false
is_some _ = true
