-- ===== src/Platform/Systems.antt =====
-- The names of systems and architectures agree with their constants.
use fiction.Prelude.{
  ℕ, ◌&&◌, ◌||◌, ◌≡◌, ◌≢◌, refl, ap, ◌∙◌, inl, inr, String, Bool, true, false, Bool-cases, Option,
  some, List, [], ◌∷◌, arith,
}
use text.Mathlib.Text.{◌==◌}
use text.Mathlib.TextEquality.{eq_iff}
use fiction.Exports.{
  Sub, pv, bool, constant, Symbols, find_sub, register_all, register_one, export_constant,
  export_function,
}
use fiction.Platform.{first_defined, os, architecture, boot_platform}
use fiction.Platform.Macros.{os_names}
use fiction.Platform.Names.{
  macro_of, has_macro, first_defined-macro_of, first_defined-unknown, chain-ppc32,
}

-- The name that the OS constant has for each system, and that system's own constant.
abbrev pub systems : List (String × String)
systems =
    ("Win64", "Win64")
    ∷ ("Win32", "Win32")
    ∷ ("macOS", "macOS")
    ∷ ("iOS", "iPhone")
    ∷ ("Linux", "Linux")
    ∷ ("FreeBSD", "FreeBSD")
    ∷ ("OpenBSD", "OpenBSD")
    ∷ ("NetBSD", "NetBSD")
    ∷ ("DragonFly BSD", "DragonFlyBSD")
    ∷ ("Nintendo DS", "NintendoDS")
    ∷ ("PlayStation Portable", "SonyPSP")
    ∷ ("Haiku", "BeOS")
    ∷ ("Plan9", "Plan9")
    ∷ ("VMS", "VMS")
    ∷ ("Minix", "Minix")
    ∷ []

abbrev pub Each : (String → String → Type 0) → List (String × String) → Type 0
Each P [] = Unit {0}
Each P ((a, b) ∷ rest) = P a b × Each P rest

abbrev pub value_of : String → Symbols → Option Sub
value_of name s = find_sub "Affix::Platform" name s.subs

module _ (defined : String → Bool) (alignof : String → ℕ) (version : ℕ) (s : Symbols) where
  abbrev booted : Symbols
  booted = boot_platform defined alignof version s

  os-value : value_of "OS" booted ≡ some (constant (pv (os defined)))
  unfolding boot_platform register_all register_one find_sub export_constant export_function
  os-value = refl

  architecture-value : value_of "Architecture" booted ≡ some (constant (pv (architecture defined)))
  unfolding boot_platform register_all register_one find_sub export_constant export_function
  architecture-value = refl

  os-true :
      (name c macro : String)
      → (name == "Unknown") ≡ false
      → macro_of name os_names ≡ some macro
      → value_of c booted ≡ some (constant (bool (defined macro)))
      → value_of "OS" booted ≡ some (constant (pv name))
      → value_of c booted ≡ some (constant (bool true))
  unfolding os
  os-true name c macro known m v e =
      let chain : first_defined defined os_names ≡ name = cc (os-value, e) in
      v
      ∙ ap (λ b. some (constant (bool b)))
          (first_defined-macro_of defined os_names name macro refl chain
            (λ k. ground (arith, k, known, eq_iff name "Unknown")) m)

  os-false :
      (c macro : String)
      → has_macro macro os_names ≡ true
      → value_of c booted ≡ some (constant (bool (defined macro)))
      → value_of "OS" booted ≡ some (constant (pv "Unknown"))
      → value_of c booted ≡ some (constant (bool false))
  unfolding os
  os-false c macro m v e =
      let chain : first_defined defined os_names ≡ "Unknown" = cc (os-value, e) in
      v
      ∙ ap (λ b. some (constant (bool b)))
          (first_defined-unknown defined os_names macro refl chain m)

  known-systems :
      Each
        (λ name c.
          value_of "OS" booted ≡ some (constant (pv name))
          → value_of c booted ≡ some (constant (bool true)))
        systems
  unfolding boot_platform register_all register_one find_sub export_constant export_function
  known-systems = (
    os-true "Win64" "Win64" "DC__OS_Win64" refl refl refl,
    (
      os-true "Win32" "Win32" "DC__OS_Win32" refl refl refl,
      (
        os-true "macOS" "macOS" "DC__OS_MacOSX" refl refl refl,
        (
          os-true "iOS" "iPhone" "DC__OS_IPhone" refl refl refl,
          (
            os-true "Linux" "Linux" "DC__OS_Linux" refl refl refl,
            (
              os-true "FreeBSD" "FreeBSD" "DC__OS_FreeBSD" refl refl refl,
              (
                os-true "OpenBSD" "OpenBSD" "DC__OS_OpenBSD" refl refl refl,
                (
                  os-true "NetBSD" "NetBSD" "DC__OS_NetBSD" refl refl refl,
                  (
                    os-true "DragonFly BSD" "DragonFlyBSD" "DC__OS_DragonFlyBSD" refl refl refl,
                    (
                      os-true "Nintendo DS" "NintendoDS" "DC__OS_NDS" refl refl refl,
                      (
                        os-true "PlayStation Portable" "SonyPSP" "DC__OS_PSP" refl refl refl,
                        (
                          os-true "Haiku" "BeOS" "DC__OS_BeOS" refl refl refl,
                          (
                            os-true "Plan9" "Plan9" "DC__OS_Plan9" refl refl refl,
                            (
                              os-true "VMS" "VMS" "DC__OS_VMS" refl refl refl,
                              (os-true "Minix" "Minix" "DC__OS_Minix" refl refl refl, tt),
                            ),
                          ),
                        ),
                      ),
                    ),
                  ),
                ),
              ),
            ),
          ),
        ),
      ),
    ),
  )

  unknown-systems :
      value_of "OS" booted ≡ some (constant (pv "Unknown"))
      → Each (λ name c. value_of c booted ≡ some (constant (bool false))) systems
  unfolding boot_platform register_all register_one find_sub export_constant export_function
  unknown-systems e = (
    os-false "Win64" "DC__OS_Win64" refl refl e,
    (
      os-false "Win32" "DC__OS_Win32" refl refl e,
      (
        os-false "macOS" "DC__OS_MacOSX" refl refl e,
        (
          os-false "iPhone" "DC__OS_IPhone" refl refl e,
          (
            os-false "Linux" "DC__OS_Linux" refl refl e,
            (
              os-false "FreeBSD" "DC__OS_FreeBSD" refl refl e,
              (
                os-false "OpenBSD" "DC__OS_OpenBSD" refl refl e,
                (
                  os-false "NetBSD" "DC__OS_NetBSD" refl refl e,
                  (
                    os-false "DragonFlyBSD" "DC__OS_DragonFlyBSD" refl refl e,
                    (
                      os-false "NintendoDS" "DC__OS_NDS" refl refl e,
                      (
                        os-false "SonyPSP" "DC__OS_PSP" refl refl e,
                        (
                          os-false "BeOS" "DC__OS_BeOS" refl refl e,
                          (
                            os-false "Plan9" "DC__OS_Plan9" refl refl e,
                            (
                              os-false "VMS" "DC__OS_VMS" refl refl e,
                              (os-false "Minix" "DC__OS_Minix" refl refl e, tt),
                            ),
                          ),
                        ),
                      ),
                    ),
                  ),
                ),
              ),
            ),
          ),
        ),
      ),
    ),
  )

  -- The branch for PPC32 tests the macro of PPC64 again.
  no-ppc32 : value_of "Architecture" booted ≢ some (constant (pv "PPC32"))
  unfolding architecture
  no-ppc32 e =
      let chain : architecture defined ≡ "PPC32" = cc (architecture-value, e) in
      elim (Bool-cases (
        (defined "__arm64__" || defined "__arm64e__" || defined "__aarch64__")
        && defined "DC__OS_MacOSX")) [
          | inl apple ↦ ground (arith, rw apple at chain, eq_iff "Apple Silicon" "PPC32")
          | inr other ↦ chain-ppc32 defined (rw other at chain)
        ]

  -- Whatever macros the build defines: where the OS constant names a system, that system's own constant is
  -- true; and where it says Unknown, the constants of all systems are false.
  pub platform-names :
      Each
        (λ name c.
          value_of "OS" booted ≡ some (constant (pv name))
          → value_of c booted ≡ some (constant (bool true)))
        systems
      × (value_of "OS" booted ≡ some (constant (pv "Unknown"))
          → Each (λ name c. value_of c booted ≡ some (constant (bool false))) systems)
  platform-names = (known-systems, unknown-systems)
