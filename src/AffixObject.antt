-- ===== src/AffixObject.antt =====
-- Affix objects of lib/Affix.cxx and lib/Affix.h: the older calls, with calling conventions, C++ names
-- and results that are written back to the arguments.
pub mod Args
pub mod Results
pub mod Trigger
pub mod Make
pub mod Numbers
pub mod Conventions
pub mod Steps
pub mod Runs
pub mod Modes
pub mod Made
pub mod Bound
pub mod SameResults
pub mod Agreeing
pub mod Temps
pub mod Left
use fiction.Prelude.{ℕ, Bool, true, false, Option, none, some, List, ◌==◌, if◌then◌else◌, Text}
use fiction.Flags.{Flag, other}
use fiction.Types.{AffixType}
use fiction.Aggregate.{Aggr}
use fiction.Call.{
  CallMode, c_default, c_default_this, c_ellipsis, c_ellipsis_varargs, x86_cdecl, win32_std,
  win32_fast_ms, win32_fast_gnu, win32_this_ms, win32_this_gnu, arm_arm, arm_thumb, sys_default,
}

-- The calling convention flags, which are no types.
pub data Convention : Type 0 where
  reset this ellipsis varargs dcecl stdcall msfastcall gnufastcall msthis gnuthis : Convention
  arm thumb syscall : Convention

unfoldable pub convention_code : Convention → ℕ
convention_code reset = b'>'
convention_code this = b'*'
convention_code ellipsis = b'e'
convention_code varargs = b'.'
convention_code dcecl = b'D'
convention_code stdcall = b'T'
convention_code msfastcall = b'='
convention_code gnufastcall = b'3'
convention_code msthis = b'+'
convention_code gnuthis = b'#'
convention_code arm = b'r'
convention_code thumb = b'g'
convention_code syscall = b'H'

unfoldable pub convention_of : Flag → Option Convention
convention_of (other n) =
    if n == b'>'
    then some reset
    else if n == b'*'
    then some this
    else if n == b'e'
    then some ellipsis
    else if n == b'.'
    then some varargs
    else if n == b'D'
    then some dcecl
    else if n == b'T'
    then some stdcall
    else if n == b'='
    then some msfastcall
    else if n == b'3'
    then some gnufastcall
    else if n == b'+'
    then some msthis
    else if n == b'#'
    then some gnuthis
    else if n == b'r'
    then some arm
    else if n == b'g'
    then some thumb
    else if n == b'H'
    then some syscall
    else none
convention_of _ = none

-- The argument of dcMode.
unfoldable pub mode_of : Convention → CallMode
mode_of reset = c_default
mode_of this = c_default_this
mode_of ellipsis = c_ellipsis
mode_of varargs = c_ellipsis_varargs
mode_of dcecl = x86_cdecl
mode_of stdcall = win32_std
mode_of msfastcall = win32_fast_ms
mode_of gnufastcall = win32_fast_gnu
mode_of msthis = win32_this_ms
mode_of gnuthis = win32_this_gnu
mode_of arm = arm_arm
mode_of thumb = arm_thumb
mode_of syscall = sys_default

-- The two flags that open a variable argument list, which do not call dcReset.
unfoldable pub is_variadic : Convention → Bool
is_variadic ellipsis = true
is_variadic varargs = true
is_variadic _ = false

-- The conventions after which the call restores the default mode.
unfoldable pub sets_reset_mode : Convention → Bool
sets_reset_mode this = true
sets_reset_mode ellipsis = true
sets_reset_mode varargs = true
sets_reset_mode _ = false

-- struct Affix. `args` is arg_types with arg_info; `temp_ptrs` and `ret_ptr` outlive a call.
pub record Affix : Type 0 where
  pub num_args : ℕ
  pub args : List (Flag × AffixType)
  pub ret_type : Flag
  pub ret_info : AffixType
  pub lib_name : Option Text
  pub lib_handle : ℕ
  pub entry_point : ℕ
  pub aggregates : ℕ → Option Aggr
  pub ret_aggregate : Option Aggr
  pub ellipsis : Bool
  pub cpp_constructor : Bool
  pub cpp_const : Bool
  pub cpp_struct : Bool
  -- the array, if it is allocated: NULL is 0
  pub temp_ptrs : Option (ℕ → ℕ)
  pub ret_ptr : ℕ
