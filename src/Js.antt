-- ===== src/Js.antt =====
-- The values of the JavaScript language that `backend/server.js` and `frontend/app.js` compute
-- with: JSON data and `undefined`, exact finite doubles, property access that may throw a
-- TypeError, `===`, truthiness, `||` and `??`.
pub mod Laws
use irhub.Prelude.{
  ℕ, zero, suc, ◌+◌, ◌*◌, ◌%◌, ◌^◌, Bool, true, false, ◌&&◌, not, Option, none, some, List, [], ◌∷◌,
  ltb, ◌==◌, if◌then◌else◌, Text, text, text_eq, length, ◌||◌,
}

-- `negsuc n` is -(n + 1).
pub data ℤ : Type 0 where
  pos : ℕ → ℤ
  negsuc : ℕ → ℤ

abbrev pub pos_part : ℤ → ℕ
pos_part (pos n) = n
pos_part (negsuc n) = 0

abbrev pub neg_part : ℤ → ℕ
neg_part (pos n) = 0
neg_part (negsuc n) = suc n

-- A double other than NaN: `finite m k` is m / 2^k. JSON text holds no NaN, and reads an overlong
-- exponent as an infinity.
pub data Number : Type 0 where
  finite : ℤ → ℕ → Number
  infinity : Number
  neg_infinity : Number

-- JSON data and `undefined`. An array and an object have list types of their own.
mutual
  pub data Value : Type 0 where
    undefined : Value
    null : Value
    bool : Bool → Value
    num : Number → Value
    str : Text → Value
    arr : Items → Value
    obj : Fields → Value

  pub data Items : Type 0 where
    nil : Items
    cons : Value → Items → Items

  pub data Fields : Type 0 where
    end : Fields
    prop : Text → Value → Fields → Fields

abbrev pub items : Items → List Value
items nil = []
items (cons v vs) = v ∷ items vs

abbrev pub fields : Fields → List (Text × Value)
fields end = []
fields (prop k v fs) = (k, v) ∷ fields fs

-- `a < b`, exactly: both sides are brought to one denominator.
unfoldable pub number_lt : Number → Number → Bool
number_lt (finite m k) (finite n l) =
    ltb (pos_part m * 2 ^ l + neg_part n * 2 ^ k) (pos_part n * 2 ^ k + neg_part m * 2 ^ l)
number_lt (finite m k) infinity = true
number_lt (finite m k) neg_infinity = false
number_lt infinity b = false
number_lt neg_infinity (finite n l) = true
number_lt neg_infinity infinity = true
number_lt neg_infinity neg_infinity = false

-- `a === b` on numbers.
unfoldable pub number_eq : Number → Number → Bool
number_eq (finite m k) (finite n l) =
    pos_part m * 2 ^ l + neg_part n * 2 ^ k == pos_part n * 2 ^ k + neg_part m * 2 ^ l
number_eq infinity infinity = true
number_eq neg_infinity neg_infinity = true
number_eq _ _ = false

-- `Number.isInteger(v)`
unfoldable pub is_integer : Value → Bool
is_integer (num (finite m k)) = (pos_part m % 2 ^ k == 0) && (neg_part m % 2 ^ k == 0)
is_integer _ = false

abbrev pub of_ℕ : ℕ → Number
of_ℕ n = finite (pos n) 0

-- `!!v`
unfoldable pub truthy : Value → Bool
truthy undefined = false
truthy null = false
truthy (bool b) = b
truthy (num (finite (pos zero) k)) = false
truthy (num _) = true
truthy (str []) = false
truthy (str (c ∷ cs)) = true
truthy (arr xs) = true
truthy (obj fs) = true

abbrev pub is_nullish : Value → Bool
is_nullish undefined = true
is_nullish null = true
is_nullish _ = false

-- `a || b`
unfoldable pub or_else : Value → Value → Value
unfolding truthy
or_else a b = if truthy a then a else b

-- `a ?? b`
unfoldable pub nullish_else : Value → Value → Value
nullish_else a b = if is_nullish a then b else a

-- `a === b` for values that come from two different JSON texts: two objects or two arrays are
-- then two references, which are never equal.
unfoldable pub strict_eq : Value → Value → Bool
unfolding number_eq text_eq
strict_eq undefined undefined = true
strict_eq null null = true
strict_eq (bool a) (bool b) = if a then b else not b
strict_eq (num a) (num b) = number_eq a b
strict_eq (str s) (str t) = text_eq s t
strict_eq _ _ = false

-- The values that `===` compares by what they hold.
abbrev pub IsPrimitive : Value → Type 0
IsPrimitive (arr xs) = ⊥
IsPrimitive (obj fs) = ⊥
IsPrimitive _ = Unit {0}

-- The value under a key, the last one given: `JSON.parse` keeps that one.
unfoldable pub lookup_or : Text → List (Text × Value) → Value → Value
unfolding text_eq
lookup_or key [] found = found
lookup_or key ((k, v) ∷ more) found = lookup_or key more (if text_eq k key then v else found)

-- `(v || {}).key`, and `v.key` where `v` is no null: for the keys that the sources read, which no
-- prototype has, `undefined` on anything but an object.
unfoldable pub field : Text → Value → Value
unfolding lookup_or
field key (obj fs) = lookup_or key (fields fs) undefined
field key _ = undefined

-- The object has a property of its own under the key.
unfoldable pub has_own : Text → Fields → Bool
unfolding text_eq
has_own key end = false
has_own key (prop k v fs) = text_eq k key || has_own key fs

-- Whether a template literal, or `>`, throws a TypeError on `v`. An object of its own `toString` has
-- no function there, since JSON holds none, and `valueOf` gives no primitive value; the items of an
-- array are joined.
unfoldable mutual
  unfolding has_own

  pub string_throws : Value → Bool
  string_throws (obj fs) = has_own (text "toString") fs
  string_throws (arr xs) = join_throws xs
  string_throws _ = false

  pub join_throws : Items → Bool
  join_throws nil = false
  join_throws (cons v vs) = string_throws v || join_throws vs

-- `v?.length`
unfoldable pub optional_length : Value → Value
unfolding field
optional_length (arr xs) = num (of_ℕ (length (items xs)))
optional_length (str s) = num (of_ℕ (length s))
optional_length v = field (text "length") v

-- A computation that may throw a TypeError.
pub data Js {ℓ} (A : Type ℓ) : Type ℓ where
  ok : A → Js A
  type_error : Js A

infixl 5 ◌>>=◌
abbrev pub ◌>>=◌ {ℓ κ} : {A : Type ℓ} {B : Type κ} → Js A → (A → Js B) → Js B
ok a >>= f = f a
type_error >>= f = type_error

-- `v.key`
unfoldable pub member : Text → Value → Js Value
unfolding field
member key v = if is_nullish v then type_error else ok (field key v)
