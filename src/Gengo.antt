-- ===== src/Gengo.antt =====
-- libgengo/msgs.go: the data of a message specification. Go strings are lists of bytes.
pub mod Types
pub mod Fields
pub mod Spelled
pub mod Names
pub mod Legal
pub mod Lines
pub mod Print
pub mod Definition
pub mod Context
pub mod Services
use rosgo.Prelude.{ℕ, Bool, List, Bytes}
use rosgo.Prelude.Int.{ℤ}

-- The value of a constant, by its Go type: floats by their bits, strings, and the integers of some width.
pub data Literal : Type 0 where
  float32 float64 : ℕ → Literal
  text : Bytes → Literal
  signed : ℤ → Literal
  unsigned : ℕ → Literal
  boolean : Bool → Literal

pub record Constant : Type 0 where
  pub constant_type : Bytes
  pub name : Bytes
  pub value : Literal
  pub value_text : Bytes
  pub go_name : Bytes

pub record Field : Type 0 where
  pub package_name : Bytes
  pub field_type : Bytes
  pub name : Bytes
  pub is_builtin : Bool
  pub is_array : Bool
  -- -1 for an array of any length.
  pub array_len : ℤ
  pub go_name : Bytes
  pub go_type : Bytes
  pub zero_value : Bytes

pub record MsgSpec : Type 0 where
  pub fields : List Field
  pub constants : List Constant
  pub text : Bytes
  pub md5_sum : Bytes
  pub full_name : Bytes
  pub short_name : Bytes
  pub package_name : Bytes

pub record SrvSpec : Type 0 where
  pub package_name : Bytes
  pub short_name : Bytes
  pub full_name : Bytes
  pub text : Bytes
  pub md5_sum : Bytes
  pub request : MsgSpec
  pub response : MsgSpec
