-- ===== src/Bufaux/MpInt/Instances.antt =====
-- The numbers 0 to 3 as integers of a library, for examples.
use ssh_1_history.Prelude.{
  ◌<◌, ◌+◌, ◌/◌, ℕ, zero, suc, ◌≡◌, refl, List, [], ◌∷◌, Option, none, some, some-injective, ◌∙◌,
  sym, ap, ◌==◌, ==_iff, arith,
}
use ssh_1_history.Bufaux.MpInt.{Gmp}

pub data Small : Type 0 where
  none_at_all one two three : Small

abbrev value : Small → ℕ
value none_at_all = 0
value one = 1
value two = 2
value three = 3

abbrev digit : ℕ → Option Small
digit zero = some none_at_all
digit (suc zero) = some one
digit (suc (suc zero)) = some two
digit (suc (suc (suc zero))) = some three
digit (suc (suc (suc (suc n)))) = none

abbrev number : List ℕ → Option Small
number [] = none
number (d ∷ []) = digit d
number (zero ∷ (d ∷ ds)) = number (d ∷ ds)
number (suc c ∷ (d ∷ ds)) = none

abbrev bits : Small → ℕ
bits none_at_all = 1
bits one = 1
bits two = 2
bits three = 2

pub digit-value : (v : Small) → digit (value v) ≡ some v
digit-value none_at_all = refl
digit-value one = refl
digit-value two = refl
digit-value three = refl

pub value-injective : (a b : Small) → value a ≡ value b → a ≡ b
value-injective a b e = some-injective (sym (digit-value a) ∙ ap digit e ∙ digit-value b)

pub value_bound : (v : Small) → value v < 16
value_bound none_at_all = omega arith
value_bound one = omega arith
value_bound two = omega arith
value_bound three = omega arith

pub one_digit : (v : Small) → 1 ≡ (bits v + 3) / 4
one_digit none_at_all = refl
one_digit one = refl
one_digit two = refl
one_digit three = refl

pub bits_positive : (v : Small) → 0 < bits v
bits_positive none_at_all = omega arith
bits_positive one = omega arith
bits_positive two = omega arith
bits_positive three = omega arith

abbrev pub small : Gmp
small = record {
  Mpz = Small;
  init = none_at_all;
  get_str = λ v. value v ∷ [];
  set_str = number;
  sizeinbase_2 = bits;
  sizeinbase_16 = λ v. 1;
  same = λ a b. value a == value b;
  get_str-digits = λ v. (value_bound v, tt);
  length-get_str = λ v. refl;
  sizeinbase_positive = bits_positive;
  sizeinbase_exact = one_digit;
  set_str-get_str = digit-value;
  set_str_leading = λ d ds. refl;
  same_iff = λ a b. (
    λ e. value-injective a b ((==_iff (value a) (value b)).0 e),
    λ e. (==_iff (value a) (value b)).1 (ap value e),
  );
}
