-- ===== src/Evaluator/Arith.antt =====
-- evaluator/lvalue.rs: `eval_binop` and `apply_assign_op`. The arms for the eight kinds of integers
-- are one, with the range of the kind.
pub mod Bounds
use metel.Prelude.{
  ℕ, suc, String, Bool, true, false, ◌+◌, ◌-◌, ◌*◌, ◌%◌, ◌&&◌, not, leb, ltb, ◌==◌, if◌then◌else◌,
  str_eq, decide, [],
}
use metel.Prelude.Int.{
  ℤ, pos, negsuc, ◌+ℤ◌, ◌-ℤ◌, ◌*ℤ◌, leb_ℤ, ltb_ℤ, eqb_ℤ, quot, rem, pos_part, neg_part,
}
use metel.Error.{Span, MetelError, RuntimeErrorCode, runtime_panic, r0007, internal, i0001}
use metel.Ast.Literals.{
  IntKind, FloatKind, BinOp, AssignOp, i8, i16, i32, i64, u8, u16, u32, u64, f32, f64,
}
use metel.Evaluator.Values.{
  Value, ValueFields, int, float, char, boolean, str, unit, struct, nil_fields, cons_fields,
}
use metel.Evaluator.Outcome.{Outcome, done, failed, aborted, out_of_fuel, ◌>>=◌}
use metel.Evaluator.Platform.{Platform}

unfoldable pub IntKind-discrete : Discrete IntKind
IntKind-discrete = hlevel

unfoldable pub FloatKind-discrete : Discrete FloatKind
FloatKind-discrete = hlevel

-- 2 to the power of the width.
abbrev pub modulus : IntKind → ℕ
modulus i8 = 256
modulus u8 = 256
modulus i16 = 65536
modulus u16 = 65536
modulus i32 = 4294967296
modulus u32 = 4294967296
modulus i64 = 18446744073709551616
modulus u64 = 18446744073709551616

-- The least and the greatest value, as the sizes of their negative and positive parts.
abbrev pub below_zero : IntKind → ℕ
below_zero i8 = 128
below_zero i16 = 32768
below_zero i32 = 2147483648
below_zero i64 = 9223372036854775808
below_zero _ = 0

abbrev pub greatest : IntKind → ℕ
greatest i8 = 127
greatest i16 = 32767
greatest i32 = 2147483647
greatest i64 = 9223372036854775807
greatest u8 = 255
greatest u16 = 65535
greatest u32 = 4294967295
greatest u64 = 18446744073709551615

abbrev pub in_range : IntKind → ℤ → Bool
in_range k n = leb (pos_part n) (greatest k) && leb (neg_part n) (below_zero k)

-- The value of the kind that has the bits.
abbrev pub of_bits : IntKind → ℕ → ℤ
of_bits k b = if leb b (greatest k) then pos b else negsuc (modulus k - 1 - b)

-- `n as …`: the value of the kind with the same low bits.
unfoldable pub wrap : IntKind → ℤ → ℤ
wrap k (pos n) = of_bits k (n % modulus k)
wrap k (negsuc n) = of_bits k (modulus k - 1 - n % modulus k)

-- `MetelError::panic`
abbrev pub panic {ℓ} : {A : Type ℓ} → RuntimeErrorCode → Span → Outcome A
panic code span = failed (runtime_panic code span [])

-- `Err(MetelError::internal(…))`
abbrev pub internal_failure {ℓ} : {A : Type ℓ} → Outcome A
internal_failure = failed (internal i0001)

-- `checked_…(b).ok_or_else(…)`
abbrev pub checked : IntKind → ℤ → Span → Outcome Value
checked k n span = if in_range k n then done (int k n) else panic r0007 span

-- The value below which nothing is, for the signed kinds, and -1.
abbrev pub is_least : IntKind → ℤ → Bool
is_least k (pos n) = false
is_least k (negsuc n) = suc n == below_zero k

abbrev pub is_minus_one : ℤ → Bool
is_minus_one n = eqb_ℤ n (negsuc 0)

abbrev pub range_fields : ℤ → ℤ → ValueFields
range_fields a b = cons_fields "start" (int i64 a) (cons_fields "end" (int i64 b) nil_fields)

abbrev pub if_i64 : IntKind → Outcome Value → Outcome Value
if_i64 i64 o = o
if_i64 _ o = internal_failure

-- `a % b` panics where the quotient overflows.
unfoldable pub int_binop : BinOp → IntKind → ℤ → ℤ → Span → Outcome Value
int_binop BinOp.add k a b span = checked k (a +ℤ b) span
int_binop BinOp.sub k a b span = checked k (a -ℤ b) span
int_binop BinOp.mul k a b span = checked k (a *ℤ b) span
int_binop BinOp.div k a b span =
    if eqb_ℤ b (pos 0) then panic r0007 span else checked k (quot a b) span
int_binop BinOp.rem k a b span =
    if eqb_ℤ b (pos 0)
    then panic r0007 span
    else if is_least k a && is_minus_one b
    then aborted
    else done (int k (rem a b))
int_binop BinOp.eq k a b span = done (boolean (eqb_ℤ a b))
int_binop BinOp.ne k a b span = done (boolean (not (eqb_ℤ a b)))
int_binop BinOp.lt k a b span = done (boolean (ltb_ℤ a b))
int_binop BinOp.le k a b span = done (boolean (leb_ℤ a b))
int_binop BinOp.gt k a b span = done (boolean (ltb_ℤ b a))
int_binop BinOp.ge k a b span = done (boolean (leb_ℤ b a))
int_binop BinOp.range k a b span = if_i64 k (done (struct "Range" (range_fields a b)))
int_binop BinOp.range_inclusive k a b span =
    if_i64 k (done (struct "RangeInclusive" (range_fields a b)))
int_binop _ k a b span = internal_failure

unfoldable pub char_binop : BinOp → ℕ → ℕ → Outcome Value
char_binop BinOp.eq a b = done (boolean (a == b))
char_binop BinOp.ne a b = done (boolean (not (a == b)))
char_binop BinOp.lt a b = done (boolean (ltb a b))
char_binop BinOp.le a b = done (boolean (leb a b))
char_binop BinOp.gt a b = done (boolean (ltb b a))
char_binop BinOp.ge a b = done (boolean (leb b a))
char_binop _ a b = internal_failure

abbrev pub same_bool : Bool → Bool → Bool
same_bool true b = b
same_bool false b = not b

unfoldable pub boolean_binop : BinOp → Bool → Bool → Outcome Value
boolean_binop BinOp.eq a b = done (boolean (same_bool a b))
boolean_binop BinOp.ne a b = done (boolean (not (same_bool a b)))
boolean_binop _ a b = internal_failure

module _ (rust : Platform) where
  unfoldable pub float_binop : BinOp → FloatKind → ℕ → ℕ → Outcome Value
  float_binop BinOp.add k a b = done (float k (rust.f_add k a b))
  float_binop BinOp.sub k a b = done (float k (rust.f_sub k a b))
  float_binop BinOp.mul k a b = done (float k (rust.f_mul k a b))
  float_binop BinOp.div k a b = done (float k (rust.f_div k a b))
  float_binop BinOp.rem k a b = done (float k (rust.f_rem k a b))
  float_binop BinOp.eq k a b = done (boolean (rust.f_eq k a b))
  float_binop BinOp.ne k a b = done (boolean (not (rust.f_eq k a b)))
  float_binop BinOp.lt k a b = done (boolean (rust.f_lt k a b))
  float_binop BinOp.le k a b = done (boolean (rust.f_le k a b))
  float_binop BinOp.gt k a b = done (boolean (rust.f_lt k b a))
  float_binop BinOp.ge k a b = done (boolean (rust.f_le k b a))
  float_binop _ k a b = internal_failure

  unfoldable pub str_binop : BinOp → String → String → Outcome Value
  str_binop BinOp.add a b = done (str (rust.concat a b))
  str_binop BinOp.eq a b = done (boolean (str_eq a b))
  str_binop BinOp.ne a b = done (boolean (not (str_eq a b)))
  str_binop _ a b = internal_failure

  unfoldable pub eval_binop : BinOp → Value → Value → Span → Outcome Value
  unfolding int_binop float_binop char_binop boolean_binop str_binop decide IntKind-discrete
      FloatKind-discrete
  eval_binop op (int k a) (int j b) span =
      if decide (IntKind-discrete k j) then int_binop op k a b span else internal_failure
  eval_binop op (float k a) (float j b) span =
      if decide (FloatKind-discrete k j) then float_binop op k a b else internal_failure
  eval_binop op (char a) (char b) span = char_binop op a b
  eval_binop op (boolean a) (boolean b) span = boolean_binop op a b
  eval_binop op (str a) (str b) span = str_binop op a b
  eval_binop op _ _ span = internal_failure

  -- `Assign` is `unreachable!`.
  unfoldable pub apply_assign_op : AssignOp → Value → Value → Span → Outcome Value
  unfolding eval_binop
  apply_assign_op AssignOp.add_assign cur rhs span = eval_binop BinOp.add cur rhs span
  apply_assign_op AssignOp.sub_assign cur rhs span = eval_binop BinOp.sub cur rhs span
  apply_assign_op AssignOp.mul_assign cur rhs span = eval_binop BinOp.mul cur rhs span
  apply_assign_op AssignOp.div_assign cur rhs span = eval_binop BinOp.div cur rhs span
  apply_assign_op AssignOp.rem_assign cur rhs span = eval_binop BinOp.rem cur rhs span
  apply_assign_op AssignOp.assign cur rhs span = aborted
