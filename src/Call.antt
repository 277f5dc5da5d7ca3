-- ===== src/Call.antt =====
-- What the code hands to dyncall for one call (the dcArg* calls in order), and the kinds of dcCall*.
-- Values are the bit patterns of the C parameter types.
use fiction.Prelude.{ℕ, Bool}
use fiction.Aggregate.{Aggr}

pub data CallArg : Type 0 where
  arg_bool : Bool → CallArg
  arg_char arg_short arg_int arg_long arg_longlong arg_float arg_double arg_pointer : ℕ → CallArg
  arg_aggr : Aggr → ℕ → CallArg

-- dcCallAggr takes the description and the address of the result.
pub data RetKind : Type 0 where
  call_void call_bool call_char call_short call_int call_long call_longlong : RetKind
  call_float call_double call_pointer : RetKind
  call_aggr : Aggr → ℕ → RetKind

-- The members of dyncall's DCValue union that a callback's result is written to.
pub data CbValue : Type 0 where
  no_value : CbValue
  val_bool : Bool → CbValue
  val_char val_uchar val_short val_ushort val_int val_uint val_long val_ulong : ℕ → CbValue
  val_longlong val_ulonglong val_float val_double val_pointer : ℕ → CbValue

-- The DC_CALL_* modes that the code sets by dcMode.
pub data CallMode : Type 0 where
  c_default c_default_this c_ellipsis c_ellipsis_varargs x86_cdecl win32_std win32_fast_ms :
      CallMode
  win32_fast_gnu win32_this_ms win32_this_gnu arm_arm arm_thumb sys_default : CallMode
