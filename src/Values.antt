-- ===== src/Values.antt =====
-- The values of the JavaScript programs: what a `Record<string, any>` of runner/src holds.
-- A number is the text that `String(n)` prints; functions and symbols are left out.
use supallm.Common.{
  String, Bool, true, false, ◌≡◌, refl, ◌==◌, ◌||◌, not, eq_iff, arith, if◌then◌else◌,
}

mutual
  pub data Value : Type 0 where
    undefined null : Value
    bool : Bool → Value
    num : String → Value
    str : String → Value
    obj : Fields → Value
    arr : Items → Value

  -- The own properties of an object, in enumeration order.
  pub data Fields : Type 0 where
    end : Fields
    field : String → Value → Fields → Fields

  pub data Items : Type 0 where
    cons : Value → Items → Items
    nil : Items

-- `v !== undefined`
unfoldable pub is_defined : Value → Bool
is_defined undefined = false
is_defined null = true
is_defined _ = true

-- Whether `if (v)` takes its branch.
unfoldable pub truthy : Value → Bool
truthy undefined = false
truthy null = false
truthy (bool b) = b
truthy (num n) = not (n == "0" || n == "-0" || n == "NaN")
truthy (str s) = not (s == "")
truthy (arr xs) = true
truthy (obj fs) = true

-- `fields[k]`: an absent property reads as `undefined`.
unfoldable pub get_field : String → Fields → Value
get_field k end = undefined
get_field k (field j v fs) = if j == k then v else get_field k fs

-- `fields[k] = v`
unfoldable pub set_field : String → Value → Fields → Fields
set_field k v end = field k v end
set_field k v (field j w fs) = if j == k then field j v fs else field j w (set_field k v fs)

pub get_field-set_field :
    (k j : String) (v : Value) (fs : Fields)
    → get_field j (set_field k v fs) ≡ (if k == j then v else get_field j fs)
unfolding get_field set_field
get_field-set_field k j v end = refl
get_field-set_field k j v (field i w fs) =
    ground (arith, eq_iff k j, eq_iff i k, eq_iff i j, get_field-set_field k j v fs)

-- `{ ...under, ...over }`
unfoldable pub spread : Fields → Fields → Fields
unfolding set_field
spread under end = under
spread under (field k v fs) = spread (set_field k v under) fs
