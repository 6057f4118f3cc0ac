-- ===== src/Js/Laws.antt =====
-- Laws of the comparisons of JavaScript values.
use irhub.Prelude.{
  ◌≡◌, refl, true, false, arith, ==_iff, text_eq_refl, Text, text_eq_sound, ap, ◌≢◌, Bool-cases,
  inl, inr,
}
use irhub.Js.{
  Number, finite, infinity, neg_infinity, Value, undefined, null, bool, num, str, arr, obj,
  number_lt, number_eq, strict_eq, IsPrimitive,
}

pub number_eq_refl : (a : Number) → number_eq a a ≡ true
unfolding number_eq
number_eq_refl (finite m k) = (==_iff _ _).1 (omega arith)
number_eq_refl infinity = refl
number_eq_refl neg_infinity = refl

-- `a < b` and `b < a` exclude one another.
pub number_lt_asymm : (a b : Number) → number_lt a b ≡ true → number_lt b a ≡ false
unfolding number_lt
number_lt_asymm (finite m k) (finite n l) h = ground arith
number_lt_asymm (finite m k) infinity h = refl
number_lt_asymm (finite m k) neg_infinity h = ground arith
number_lt_asymm infinity b h = ground arith
number_lt_asymm neg_infinity (finite n l) h = refl
number_lt_asymm neg_infinity infinity h = refl
number_lt_asymm neg_infinity neg_infinity h = refl

pub strict_eq_refl : (v : Value) → IsPrimitive v → strict_eq v v ≡ true
unfolding strict_eq
strict_eq_refl undefined p = refl
strict_eq_refl null p = refl
strict_eq_refl (bool true) p = refl
strict_eq_refl (bool false) p = refl
strict_eq_refl (num a) p = number_eq_refl a
strict_eq_refl (str s) p = text_eq_refl s
strict_eq_refl (arr xs) p = absurd p
strict_eq_refl (obj fs) p = absurd p

-- A string is `===` only to itself.
pub strict_eq-str : (v : Value) (t : Text) → strict_eq v (str t) ≡ true → v ≡ str t
unfolding strict_eq
strict_eq-str (str s) t h = ap str (text_eq_sound s t h)
strict_eq-str undefined t h = ground arith
strict_eq-str null t h = ground arith
strict_eq-str (bool b) t h = ground arith
strict_eq-str (num a) t h = ground arith
strict_eq-str (arr xs) t h = ground arith
strict_eq-str (obj fs) t h = ground arith

pub str_inj : (s t : Text) → str s ≡ str t → s ≡ t
str_inj s t e = cc

-- Two strings: `===` is equality.
pub strict_eq-str-ne : (s t : Text) → s ≢ t → strict_eq (str s) (str t) ≡ false
strict_eq-str-ne s t h = elim (Bool-cases (strict_eq (str s) (str t))) [
  | inl e ↦ absurd (h (str_inj s t (strict_eq-str (str s) t e)))
  | inr e ↦ e
]
