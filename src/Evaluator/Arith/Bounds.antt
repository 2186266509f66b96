-- ===== src/Evaluator/Arith/Bounds.antt =====
-- What `eval_binop` computes on integers stays in the range of the kind.
use metel.Prelude.{
  ℕ, zero, suc, String, Bool, true, false, ◌%◌, ◌≤◌, ◌<◌, ◌≡◌, refl, ◌&&◌, if◌then◌else◌, arith,
  Bool-cases, inl, inr, decide,
}
use native.Mathlib.Nat.{mod-lt}
use metel.Prelude.Int.{ℤ, pos, negsuc, ◌+ℤ◌, ◌-ℤ◌, ◌*ℤ◌, eqb_ℤ, quot, rem, magnitude, negate}
use metel.Error.{Span}
use metel.Ast.Literals.{IntKind, FloatKind, BinOp, i8, i16, i32, i64, u8, u16, u32, u64}
use metel.Evaluator.Values.{Value, int, float, char, boolean, str}
use metel.Evaluator.Outcome.{Outcome, done}
use metel.Evaluator.Platform.{Platform}
use metel.Evaluator.Arith.{
  in_range, wrap, checked, int_binop, eval_binop, IntKind-discrete, char_binop, boolean_binop,
  float_binop, str_binop, FloatKind-discrete, is_least, is_minus_one, if_i64,
}

-- An integer that the kind can hold.
abbrev pub IsInRange : Value → Type 0
IsInRange (int k n) = in_range k n ≡ true
IsInRange _ = Unit {0}

pub wrap-in_range : (k : IntKind) (n : ℤ) → in_range k (wrap k n) ≡ true
unfolding wrap
wrap-in_range i8 (pos n) = ground arith
wrap-in_range i8 (negsuc n) = ground arith
wrap-in_range i16 (pos n) = ground arith
wrap-in_range i16 (negsuc n) = ground arith
wrap-in_range i32 (pos n) = ground arith
wrap-in_range i32 (negsuc n) = ground arith
wrap-in_range i64 (pos n) = ground arith
wrap-in_range i64 (negsuc n) = ground arith
wrap-in_range u8 (pos n) = ground arith
wrap-in_range u8 (negsuc n) = ground arith
wrap-in_range u16 (pos n) = ground arith
wrap-in_range u16 (negsuc n) = ground arith
wrap-in_range u32 (pos n) = ground arith
wrap-in_range u32 (negsuc n) = ground arith
wrap-in_range u64 (pos n) = ground arith
wrap-in_range u64 (negsuc n) = ground arith

pub wrap_id : (k : IntKind) (n : ℤ) → in_range k n ≡ true → wrap k n ≡ n
unfolding wrap
wrap_id i8 (pos n) h = ground arith
wrap_id i8 (negsuc n) h = ground arith
wrap_id i16 (pos n) h = ground arith
wrap_id i16 (negsuc n) h = ground arith
wrap_id i32 (pos n) h = ground arith
wrap_id i32 (negsuc n) h = ground arith
wrap_id i64 (pos n) h = ground arith
wrap_id i64 (negsuc n) h = ground arith
wrap_id u8 (pos n) h = ground arith
wrap_id u8 (negsuc n) h = ground arith
wrap_id u16 (pos n) h = ground arith
wrap_id u16 (negsuc n) h = ground arith
wrap_id u32 (pos n) h = ground arith
wrap_id u32 (negsuc n) h = ground arith
wrap_id u64 (pos n) h = ground arith
wrap_id u64 (negsuc n) h = ground arith

-- What a result, if there is one, satisfies.
abbrev pub IfDone {ℓ κ} : {A : Type ℓ} → (A → Type κ) → Outcome A → Type κ
IfDone P (done v) = P v
IfDone P _ = Unit

checked-IsInRange : (k : IntKind) (n : ℤ) (span : Span) → IfDone IsInRange (checked k n span)
checked-IsInRange k n span = elim (Bool-cases (in_range k n)) [ inl e ↦ rw e e | inr e ↦ rw e tt ]

mod-le_self : (a b : ℕ) → a % b ≤ a
mod-le_self a b = grind arith

rem-in_range : (k : IntKind) (a b : ℤ) → in_range k a ≡ true → in_range k (rem a b) ≡ true
unfolding rem
rem-in_range k (pos a) b h = ground (arith, mod-le_self a (magnitude b))
rem-in_range k (negsuc a) b h = ground (arith, mod-le_self (suc a) (magnitude b))

-- The operands of a division, put together again from its results.
quot-rem : (a b : ℤ) → b *ℤ quot a b +ℤ rem a b ≡ a
unfolding quot rem ◌+ℤ◌ ◌*ℤ◌
quot-rem (pos a) (pos b) = grind arith
quot-rem (pos a) (negsuc b) = grind arith
quot-rem (negsuc a) (pos b) = grind arith
quot-rem (negsuc a) (negsuc b) = grind arith

-- A conditional whose branches have a property has it.
if-IfDone :
    (b : Bool) (o p : Outcome Value)
    → IfDone IsInRange o
    → IfDone IsInRange p
    → IfDone IsInRange (if b then o else p)
if-IfDone true o p h k = h
if-IfDone false o p h k = k

if_i64-IfDone :
    (k : IntKind) (o : Outcome Value) → IfDone IsInRange o → IfDone IsInRange (if_i64 k o)
if_i64-IfDone i64 o h = h
if_i64-IfDone i8 o h = tt
if_i64-IfDone _ o h = tt

int_binop-IsInRange :
    (op : BinOp) (k : IntKind) (a b : ℤ) (span : Span)
    → in_range k a ≡ true
    → IfDone IsInRange (int_binop op k a b span)
unfolding int_binop
int_binop-IsInRange BinOp.add k a b span h = checked-IsInRange k (a +ℤ b) span
int_binop-IsInRange BinOp.sub k a b span h = checked-IsInRange k (a -ℤ b) span
int_binop-IsInRange BinOp.mul k a b span h = checked-IsInRange k (a *ℤ b) span
int_binop-IsInRange BinOp.div k a b span h =
    if-IfDone (eqb_ℤ b (pos 0)) _ _ tt (checked-IsInRange k (quot a b) span)
int_binop-IsInRange BinOp.rem k a b span h =
    if-IfDone (eqb_ℤ b (pos 0)) _ _ tt
      (if-IfDone (is_least k a && is_minus_one b) _ _ tt (rem-in_range k a b h))
int_binop-IsInRange BinOp.range k a b span h = if_i64-IfDone k _ tt
int_binop-IsInRange BinOp.range_inclusive k a b span h = if_i64-IfDone k _ tt
int_binop-IsInRange BinOp.eq k a b span h = tt
int_binop-IsInRange BinOp.ne k a b span h = tt
int_binop-IsInRange _ k a b span h = tt

char_binop-IsInRange : (op : BinOp) (a b : ℕ) → IfDone IsInRange (char_binop op a b)
unfolding char_binop
char_binop-IsInRange BinOp.eq a b = tt
char_binop-IsInRange _ a b = tt

boolean_binop-IsInRange : (op : BinOp) (a b : Bool) → IfDone IsInRange (boolean_binop op a b)
unfolding boolean_binop
boolean_binop-IsInRange BinOp.eq a b = tt
boolean_binop-IsInRange _ a b = tt

decide_same : (k : IntKind) → decide (IntKind-discrete k k) ≡ true
unfolding decide IntKind-discrete
decide_same i8 = refl
decide_same i16 = refl
decide_same i32 = refl
decide_same i64 = refl
decide_same u8 = refl
decide_same u16 = refl
decide_same u32 = refl
decide_same u64 = refl

div_result :
    (k : IntKind) (a b q : ℤ) (span : Span)
    → int_binop BinOp.div k a b span ≡ done (int k q)
    → quot a b ≡ q
unfolding int_binop
div_result k a b q span h = ground (arith, h)

rem_result :
    (k : IntKind) (a b r : ℤ) (span : Span)
    → int_binop BinOp.rem k a b span ≡ done (int k r)
    → (rem a b ≡ r) × (0 < magnitude b)
unfolding int_binop
rem_result k a (pos b) r span h = (ground (arith, h), ground (arith, h))
rem_result k a (negsuc b) r span h = (ground (arith, h), omega arith)

magnitude-rem : (a b : ℤ) → 0 < magnitude b → magnitude (rem a b) < magnitude b
unfolding rem
magnitude-rem (pos a) b h = mod-lt a h
magnitude-rem (negsuc a) b h = magnitude-negate (suc a % magnitude b) (mod-lt (suc a) h)
  where
    magnitude-negate : (n : ℕ) → n < magnitude b → magnitude (negate (pos n)) < magnitude b
    magnitude-negate zero l = l
    magnitude-negate (suc n) l = ground arith

module _ (rust : Platform) where
  float_binop-IsInRange :
      (op : BinOp) (k : FloatKind) (a b : ℕ) → IfDone IsInRange (float_binop rust op k a b)
  unfolding float_binop
  float_binop-IsInRange BinOp.add k a b = tt
  float_binop-IsInRange _ k a b = tt

  str_binop-IsInRange : (op : BinOp) (a b : String) → IfDone IsInRange (str_binop rust op a b)
  unfolding str_binop
  str_binop-IsInRange BinOp.add a b = tt
  str_binop-IsInRange _ a b = tt

  binop-IsInRange :
      (op : BinOp) (lv rv : Value) (span : Span)
      → IsInRange lv
      → IfDone IsInRange (eval_binop rust op lv rv span)
  unfolding eval_binop
  binop-IsInRange op (int k a) (int j b) span h =
      if-IfDone (decide (IntKind-discrete k j)) _ _ (int_binop-IsInRange op k a b span h) tt
  binop-IsInRange op (float k a) (float j b) span h =
      if-IfDone (decide (FloatKind-discrete k j)) _ _ (float_binop-IsInRange op k a b) tt
  binop-IsInRange op (char a) (char b) span h = char_binop-IsInRange op a b
  binop-IsInRange op (boolean a) (boolean b) span h = boolean_binop-IsInRange op a b
  binop-IsInRange op (str a) (str b) span h = str_binop-IsInRange op a b
  binop-IsInRange op _ _ span h = tt

  -- If a binary operation returns, and its left operand is in the range of its kind of integers, then
  -- so is the result.
  pub eval_binop-IsInRange :
      (op : BinOp) (lv rv v : Value) (span : Span)
      → IsInRange lv
      → eval_binop rust op lv rv span ≡ done v
      → IsInRange v
  eval_binop-IsInRange op lv rv v span h e = rw e at (binop-IsInRange op lv rv span h)

  -- Where `/` and `%` both return on integers of one kind, the right operand times the quotient plus
  -- the remainder is the left operand, and the remainder is smaller than the right operand.
  pub eval_binop-div-rem :
      (k : IntKind) (a b q r : ℤ) (span : Span)
      → eval_binop rust BinOp.div (int k a) (int k b) span ≡ done (int k q)
      → eval_binop rust BinOp.rem (int k a) (int k b) span ≡ done (int k r)
      → (b *ℤ q +ℤ r ≡ a) × (magnitude r < magnitude b)
  unfolding eval_binop
  eval_binop-div-rem k a b q r span h g =
      let at_k = decide_same k in
      let quotient = div_result k a b q span (rw at_k at h) in
      let (remainder, positive) = rem_result k a b r span (rw at_k at g) in
      (rw (← quotient, ← remainder) (quot-rem a b), rw (← remainder) (magnitude-rem a b positive))
