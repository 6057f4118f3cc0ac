-- ===== src/Backend/Lowdb.antt =====
-- What `backend/server.js` asks of lowdb (with lodash), as an interface: the chains on one
-- collection of the database, looked up by an id. `backend/node_modules` implements it.
pub mod Reference
pub mod Unique
pub mod Places
pub mod Upsert
use irhub.Prelude.{List, [], ◌∷◌, ◌++◌, Option, Bool, ◌≡◌, find, update_first, reject}
use irhub.Js.{Value, IsPrimitive, strict_eq}

-- Does an item carry this id?
abbrev pub has_id {ℓ} : {A : Type ℓ} → (A → Value) → Value → A → Bool
has_id key id x = strict_eq (key x) id

-- The operations, and what lodash documents of them: an id that is no object is compared by `===`,
-- `find` takes the first match, `assign` changes that one in place, `remove` drops every match, and
-- `push` appends. Nothing is said of ids that are objects or arrays, which lodash matches by parts.
pub record Collection {ℓ} (A : Type ℓ) (key : A → Value) : Type ℓ where
  -- `.find({ id }).value()`
  pub find_by : Value → List A → Option A
  -- `.find({ id }).assign(…).write()`, and `.find({ id }).get('buttons')…` before an `assign`
  pub assign : Value → (A → A) → List A → List A
  -- `.remove({ id }).write()`
  pub remove : Value → List A → List A
  -- `.push(item).write()`
  pub push : A → List A → List A
  pub find_lem :
      (id : Value) (xs : List A) → IsPrimitive id → find_by id xs ≡ find (has_id key id) xs
  pub assign_lem :
      (id : Value) (f : A → A) (xs : List A)
      → IsPrimitive id
      → assign id f xs ≡ update_first (has_id key id) f xs
  pub remove_lem :
      (id : Value) (xs : List A) → IsPrimitive id → remove id xs ≡ reject (has_id key id) xs
  pub push_lem : (x : A) (xs : List A) → push x xs ≡ xs ++ x ∷ []
