-- ===== src/Error.antt =====
-- metel-interpreter/src/error/mod.rs and the spans of ast/mod.rs. The text of a message is not
-- modelled; its code and its place are.
use metel.Prelude.{ℕ, String, List}

pub record Span : Type 0 where
  pub start : ℕ
  pub end : ℕ
  pub filename : String
  pub line : ℕ
  pub col : ℕ

pub record FrameInfo : Type 0 where
  pub fn_name : String
  pub call_site : Span

pub data ParseErrorCode : Type 0 where
  p0001 p0002 p0003 p0004 : ParseErrorCode

pub data TypeErrorCode : Type 0 where
  t0001 t0002 t0003 t0004 t0005 t0006 t0007 t0008 t0009 t0010 t0011 t0012 t0013 : TypeErrorCode

pub data RuntimeErrorCode : Type 0 where
  r0001 r0002 r0003 r0004 r0005 r0006 r0007 r0008 r0009 r0010 r0011 r0013 : RuntimeErrorCode

pub data InternalErrorCode : Type 0 where
  i0001 i0002 : InternalErrorCode

pub data MetelError : Type 0 where
  parse_error : ParseErrorCode → Span → MetelError
  type_error : TypeErrorCode → Span → MetelError
  runtime_panic : RuntimeErrorCode → Span → List FrameInfo → MetelError
  internal : InternalErrorCode → MetelError
