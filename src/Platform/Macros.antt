-- ===== src/Platform/Macros.antt =====
-- The `#if` chains of lib/Affix/Platform.cxx: macros of dyncall and the compiler, and the names they stand for.
use fiction.Prelude.{String, List, [], ◌∷◌}

-- The macros of dyncall for the systems, in the order of the `#if` chain, and the names.
abbrev pub os_names : List (String × String)
os_names =
    ("DC__OS_Win64", "Win64")
    ∷ ("DC__OS_Win32", "Win32")
    ∷ ("DC__OS_MacOSX", "macOS")
    ∷ ("DC__OS_IPhone", "iOS")
    ∷ ("DC__OS_Linux", "Linux")
    ∷ ("DC__OS_FreeBSD", "FreeBSD")
    ∷ ("DC__OS_OpenBSD", "OpenBSD")
    ∷ ("DC__OS_NetBSD", "NetBSD")
    ∷ ("DC__OS_DragonFlyBSD", "DragonFly BSD")
    ∷ ("DC__OS_NDS", "Nintendo DS")
    ∷ ("DC__OS_PSP", "PlayStation Portable")
    ∷ ("DC__OS_BeOS", "Haiku")
    ∷ ("DC__OS_Plan9", "Plan9")
    ∷ ("DC__OS_VMS", "VMS")
    ∷ ("DC__OS_Minix", "Minix")
    ∷ []

-- compilers
abbrev pub compiler_names : List (String × String)
compiler_names =
    ("DC__C_Intel", "Intel")
    ∷ ("DC__C_MSVC", "MSVC")
    ∷ ("DC__C_CLANG", "Clang")
    ∷ ("DC__C_GNU", "GNU")
    ∷ ("DC__C_WATCOM", "Watcom")
    ∷ ("DC__C_PCC", "ppc")
    ∷ ("DC__C_SUNPRO", "Oracle")
    ∷ []

-- architectures, but for the first of the chain
abbrev pub architecture_names : List (String × String)
architecture_names =
    ("DC__Arch_AMD64", "x86_64")
    ∷ ("DC__Arch_Intel_x86", "x86")
    ∷ ("DC__Arch_Itanium", "Itanium")
    ∷ ("DC__Arch_PPC64", "PPC64")
    ∷ ("DC__Arch_PPC64", "PPC32")
    ∷ ("DC__Arch_MIPS64", "MIPS64")
    ∷ ("DC__Arch_MIPS", "MIPS")
    ∷ ("DC__Arch_ARM", "ARM")
    ∷ ("DC__Arch_ARM64", "ARM64")
    ∷ ("DC__Arch_SuperH", "SuperH")
    ∷ ("DC__Arch_Sparc64", "SPARC64")
    ∷ ("DC__Arch_Sparc", "SPARC")
    ∷ []

-- object formats
abbrev pub object_names : List (String × String)
object_names =
    ("DC__Obj_PE", "PE")
    ∷ ("DC__Obj_Mach", "Mach-O")
    ∷ ("DC__Obj_ELF64", "64-bit ELF")
    ∷ ("DC__Obj_ELF32", "32-bit ELF")
    ∷ ("DC__Obj_ELF", "ELF")
    ∷ []
