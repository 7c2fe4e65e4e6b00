-- ===== src/Shared/Json.antt =====
-- Values as `JSON.parse` or a durable object's storage gives them, and what TypeScript code reads of
-- a value of type `unknown`. The numbers are natural ones, so `Number.isInteger` holds of each.
use Prim.Native.Nat.{ℕ, zero, suc, ◌+◌, ◌/◌, ◌%◌}
use Prim.Native.String.{String, ◌++◌}
use mathlib.Core.Path.{◌≡◌, refl, ap}
use mathlib.Core.Bool.{Bool}
use mathlib.Core.Option.{Option, none, some}
use mathlib.Core.List.{List, [], ◌∷◌}
use clawdentity.Shared.Tests.{◌==◌, nat_eq, ltb, if◌then◌else◌}
use clawdentity.Shared.Text.{trim, is_empty}

mutual
  pub data Value : Type 0 where
    null : Value
    bool : Bool → Value
    number : ℕ → Value
    text : String → Value
    array : Items → Value
    object : Fields → Value

  pub data Items : Type 0 where
    nil : Items
    cons : Value → Items → Items

  pub data Fields : Type 0 where
    end : Fields
    field : String → Value → Fields → Fields

abbrev pub values : Items → List Value
values nil = []
values (cons v vs) = v ∷ values vs

abbrev pub items : List Value → Items
items [] = nil
items (v ∷ vs) = cons v (items vs)

abbrev pub pairs : Fields → List (String × Value)
pairs end = []
pairs (field k v fs) = (k, v) ∷ pairs fs

abbrev pub fields : List (String × Value) → Fields
fields [] = end
fields ((k, v) ∷ fs) = field k v (fields fs)

pub values-items : (vs : List Value) → values (items vs) ≡ vs
values-items [] = refl
values-items (v ∷ vs) = ap (λ l. v ∷ l) (values-items vs)

pub pairs-fields : (fs : List (String × Value)) → pairs (fields fs) ≡ fs
pairs-fields [] = refl
pairs-fields ((k, v) ∷ fs) = ap (λ l. (k, v) ∷ l) (pairs-fields fs)

digit : ℕ → String
digit d =
    if nat_eq d 0
    then "0"
    else if nat_eq d 1
    then "1"
    else if nat_eq d 2
    then "2"
    else if nat_eq d 3
    then "3"
    else if nat_eq d 4
    then "4"
    else if nat_eq d 5
    then "5"
    else if nat_eq d 6
    then "6"
    else if nat_eq d 7
    then "7"
    else if nat_eq d 8
    then "8"
    else "9"

-- The digits of a number below ten to the power of the fuel.
decimal : ℕ → ℕ → String
unfolding digit
decimal zero n = ""
decimal (suc fuel) n =
    let front = decimal fuel (n / 10) in if ltb n 10 then digit n else front ++ digit (n % 10)

indexed : ℕ → List Value → List (String × Value)
unfolding decimal
indexed i [] = []
indexed i (v ∷ vs) = (decimal (suc i) i, v) ∷ indexed (i + 1) vs

-- `Object.entries` of what `typeof` calls an object and is not null; `none` for all else.
unfoldable pub entries : Value → Option (List (String × Value))
unfolding indexed
entries (object fs) = some (pairs fs)
entries (array vs) = some (indexed 0 (values vs))
entries _ = none

find : List (String × Value) → String → Option Value
find [] k = none
find ((j, v) ∷ fs) k = if j == k then some v else find fs k

-- The property of a value, where `none` is undefined.
unfoldable pub member : Option Value → String → Option Value
unfolding find
member (some (object fs)) k = find (pairs fs) k
member _ k = none

-- `isNonEmptyString`, which gives the text.
unfoldable pub non_empty_string : Option Value → Option String
non_empty_string (some (text s)) = if is_empty (trim s) then none else some s
non_empty_string _ = none

unfoldable pub as_number : Option Value → Option ℕ
as_number (some (number n)) = some n
as_number _ = none
