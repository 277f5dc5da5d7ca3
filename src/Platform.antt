-- ===== src/Platform.antt =====
-- `boot_Affix_Platform` of lib/Affix/Platform.cxx: what the build knows of its machine, as constants of the
-- package Affix::Platform.
pub mod Names
pub mod Systems
mod Macros
use fiction.Prelude.{
  ℕ, ◌/◌, ◌%◌, ◌&&◌, ◌||◌, String, Bool, List, [], ◌∷◌, ◌++◌, ◌==◌, if◌then◌else◌, Text, codes,
}
use fiction.Flags.{
  Flag, bool_flag, schar_flag, char_flag, uchar_flag, wchar_flag, short_flag, ushort_flag, int_flag,
  uint_flag, long_flag, ulong_flag, longlong_flag, ulonglong_flag, float_flag, double_flag,
}
use fiction.Env.{sizeof, sizeof_intptr}
use fiction.Dump.{decimal}
use Macros.{os_names, compiler_names, architecture_names, object_names}
use fiction.Exports.{
  Value, pv, chars, iv, bool, Registration, new_constant, new_constant_export, Symbols,
  register_all,
}

-- DC_Version, DC_Stage and the numbers, from DYNCALL_VERSION
abbrev stage : ℕ → String
stage version = if version % 16 == 15 then "release" else "current"

abbrev version_constants : ℕ → List Registration
version_constants version =
    new_constant "Affix::Platform" "DC_Version" (
      chars (
        decimal (version / 4096)
        ++ (codes "." ++ (decimal (version / 256 % 16) ++ (codes "-" ++ codes (stage version))))))
    ∷ new_constant "Affix::Platform" "DC_Major" (iv (version / 4096))
    ∷ new_constant "Affix::Platform" "DC_Minor" (iv (version / 256 % 16))
    ∷ new_constant "Affix::Platform" "DC_Patch" (iv (version / 16 % 16))
    ∷ new_constant "Affix::Platform" "DC_Stage" (pv (stage version))
    ∷ new_constant "Affix::Platform" "DC_RawVersion" (iv version)
    ∷ []

abbrev number : (name tag : String) → ℕ → Registration
number name tag n = new_constant_export "Affix::Platform" name tag n

-- The sizes of the C types, on LP64.
abbrev size_constants : List Registration
size_constants =
    number "SIZEOF_BOOL" "sizeof" (sizeof bool_flag)
    ∷ number "SIZEOF_CHAR" "sizeof" (sizeof char_flag)
    ∷ number "SIZEOF_SCHAR" "sizeof" (sizeof schar_flag)
    ∷ number "SIZEOF_UCHAR" "sizeof" (sizeof uchar_flag)
    ∷ number "SIZEOF_WCHAR" "sizeof" (sizeof wchar_flag)
    ∷ number "SIZEOF_SHORT" "sizeof" (sizeof short_flag)
    ∷ number "SIZEOF_USHORT" "sizeof" (sizeof ushort_flag)
    ∷ number "SIZEOF_INT" "sizeof" (sizeof int_flag)
    ∷ number "SIZEOF_UINT" "sizeof" (sizeof uint_flag)
    ∷ number "SIZEOF_LONG" "sizeof" (sizeof long_flag)
    ∷ number "SIZEOF_ULONG" "sizeof" (sizeof ulong_flag)
    ∷ number "SIZEOF_LONGLONG" "sizeof" (sizeof longlong_flag)
    ∷ number "SIZEOF_ULONGLONG" "sizeof" (sizeof ulonglong_flag)
    ∷ number "SIZEOF_FLOAT" "sizeof" (sizeof float_flag)
    ∷ number "SIZEOF_DOUBLE" "sizeof" (sizeof double_flag)
    ∷ number "SIZEOF_SIZE_T" "sizeof" (sizeof ulong_flag)
    ∷ number "SIZEOF_INTPTR_T" "sizeof" sizeof_intptr
    ∷ []

-- What the compiler defines.
module _ (defined : String → Bool) where
  -- an `#if` chain over macros
  unfoldable pub first_defined : List (String × String) → String
  first_defined [] = "Unknown"
  first_defined ((macro, name) ∷ rest) = if defined macro then name else first_defined rest

  unfoldable pub os : String
  unfolding first_defined
  os = first_defined os_names

  unfoldable pub compiler : String
  unfolding first_defined
  compiler = first_defined compiler_names

  unfoldable pub architecture : String
  unfolding first_defined
  architecture =
      if (defined "__arm64__" || defined "__arm64e__" || defined "__aarch64__")
        && defined "DC__OS_MacOSX"
      then "Apple Silicon"
      else first_defined architecture_names

  unfoldable pub obj : String
  unfolding first_defined
  obj = first_defined object_names

  abbrev flag : String → Bool → Registration
  flag name b = new_constant "Affix::Platform" name (bool b)

  -- the system, the compiler, the machine and its features
  abbrev pub machine_constants : List Registration
  machine_constants =
      new_constant "Affix::Platform" "OS" (pv os)
      ∷ flag "Cygwin" (defined "DC__OS_Cygwin")
      ∷ flag "MinGW" (defined "DC__OS_MinGW")
      ∷ new_constant "Affix::Platform" "Compiler" (pv compiler)
      ∷ new_constant "Affix::Platform" "Architecture" (pv architecture)
      ∷ flag "ARCH_Apple_Silicon" (
          (defined "__arm64__" || defined "__arm64e__" || defined "__aarch64__")
          && defined "DC__OS_MacOSX")
      ∷ flag "ARCH_x86_64" (defined "DC__Arch_AMD64")
      ∷ flag "ARCH_x86" (defined "DC__Arch_Intel_x86")
      ∷ flag "ARCH_Itanium" (defined "DC__Arch_Itanium")
      ∷ flag "ARCH_PPC64" (defined "DC__Arch_PPC64")
      ∷ flag "ARCH_PPC32" (defined "DC__Arch_PPC32")
      ∷ flag "ARCH_MIPS64" (defined "DC__Arch_MIPS64")
      ∷ flag "ARCH_MIPS" (defined "DC__Arch_MIPS")
      ∷ flag "ARCH_ARM" (defined "DC__Arch_ARM")
      ∷ flag "ARCH_ARM64" (defined "DC__Arch_ARM64")
      ∷ flag "ARCH_SuperH" (defined "DC__Arch_SuperH")
      ∷ flag "ARCH_Sparc64" (defined "DC__Arch_Sparc64")
      ∷ flag "ARCH_Sparc" (defined "DC__Arch_Sparc")
      ∷ flag "ARM_Thumb" (defined "DC__Arch_ARM_THUMB")
      ∷ flag "ARM_EABI" (defined "DC__ABI_ARM_EABI")
      ∷ flag "ARM_OABI" (defined "DC__ABI_ARM_OABI")
      ∷ flag "MIPS_O32" (defined "DC__ABI_MIPS_O32")
      ∷ flag "MIPS_N64" (defined "DC__ABI_MIPS_N64")
      ∷ flag "MIPS_N32" (defined "DC__ABI_MIPS_N32")
      ∷ flag "MIPS_EABI" (defined "DC__ABI_MIPS_EABI")
      ∷ flag "HardFloat" (defined "DC__ABI_ARM_HF" || defined "DC__ABI_HARDFLOAT")
      ∷ flag "BigEndian" (defined "DC__Endian_BIG")
      ∷ flag "Syscall" (defined "DC__Feature_Syscall")
      ∷ flag "AggrByValue" (defined "DC__Feature_AggrByVal")
      ∷ flag "OBJ_PE" (defined "DC__Obj_PE")
      ∷ flag "OBJ_Mach" (defined "DC__Obj_Mach")
      ∷ flag "OBJ_ELF" (defined "DC__Obj_ELF")
      ∷ flag "OBJ_ELF64" (defined "DC__Obj_ELF64")
      ∷ flag "OBJ_ELF32" (defined "DC__Obj_ELF32")
      ∷ new_constant "Affix::Platform" "OBJ" (pv obj)
      ∷ []

  -- the system again, one constant for each
  abbrev pub system_constants : List Registration
  system_constants =
      flag "Win64" (defined "DC__OS_Win64")
      ∷ flag "Win32" (defined "DC__OS_Win32")
      ∷ flag "macOS" (defined "DC__OS_MacOSX")
      ∷ flag "iPhone" (defined "DC__OS_IPhone")
      ∷ flag "Linux" (defined "DC__OS_Linux")
      ∷ flag "FreeBSD" (defined "DC__OS_FreeBSD")
      ∷ flag "OpenBSD" (defined "DC__OS_OpenBSD")
      ∷ flag "NetBSD" (defined "DC__OS_NetBSD")
      ∷ flag "DragonFlyBSD" (defined "DC__OS_DragonFlyBSD")
      ∷ flag "NintendoDS" (defined "DC__OS_NDS")
      ∷ flag "SonyPSP" (defined "DC__OS_PSP")
      ∷ flag "BeOS" (defined "DC__OS_BeOS")
      ∷ flag "Plan9" (defined "DC__OS_Plan9")
      ∷ flag "VMS" (defined "DC__OS_VMS")
      ∷ flag "Minix" (defined "DC__OS_Minix")
      ∷ []

-- the alignments that the compiler gives the types
abbrev align_constants : (String → ℕ) → List Registration
align_constants alignof =
    number "BYTE_ALIGN" "all" 8
    ∷ number "ALIGNOF_BOOL" "all" (alignof "BOOL")
    ∷ number "ALIGNOF_CHAR" "all" (alignof "CHAR")
    ∷ number "ALIGNOF_UCHAR" "all" (alignof "UCHAR")
    ∷ number "ALIGNOF_SCHAR" "all" (alignof "SCHAR")
    ∷ number "ALIGNOF_WCHAR" "all" (alignof "WCHAR")
    ∷ number "ALIGNOF_SHORT" "all" (alignof "SHORT")
    ∷ number "ALIGNOF_USHORT" "all" (alignof "USHORT")
    ∷ number "ALIGNOF_INT" "all" (alignof "INT")
    ∷ number "ALIGNOF_UINT" "all" (alignof "UINT")
    ∷ number "ALIGNOF_LONG" "all" (alignof "LONG")
    ∷ number "ALIGNOF_ULONG" "all" (alignof "ULONG")
    ∷ number "ALIGNOF_LONGLONG" "all" (alignof "LONGLONG")
    ∷ number "ALIGNOF_ULONGLONG" "all" (alignof "ULONGLONG")
    ∷ number "ALIGNOF_FLOAT" "all" (alignof "FLOAT")
    ∷ number "ALIGNOF_DOUBLE" "all" (alignof "DOUBLE")
    ∷ number "ALIGNOF_SIZE_T" "all" (alignof "SIZE_T")
    ∷ number "ALIGNOF_INTPTR_T" "all" (alignof "INTPTR_T")
    ∷ []

module _ (defined : String → Bool) (alignof : String → ℕ) (version : ℕ) where
  -- What is registered, with dyncall's version.
  abbrev pub platform_constants : List Registration
  platform_constants =
      version_constants version
      ++ (machine_constants defined
          ++ (size_constants ++ (align_constants alignof ++ system_constants defined)))

  unfoldable pub boot_platform : Symbols → Symbols
  unfolding register_all
  boot_platform = register_all platform_constants
