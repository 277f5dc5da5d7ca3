-- ===== src/Types/Layout.antt =====
-- `padding_needed_for` of lib/Affix/Utils.cxx.
use fiction.Prelude.{ℕ, ◌+◌, ◌-◌, ◌%◌, ◌≤◌, ◌<◌, ◌≡◌, refl, ap, ◌∙◌, arith, ◌==◌, if◌then◌else◌}
use native.Mathlib.Nat.{mod_self, zero-mod, mod-eq_of_lt, mod-add-mod, mod-lt}

pub padding_needed_for : ℕ → ℕ → ℕ
padding_needed_for offset alignment =
    if alignment == 0
    then 0
    else let misalignment = offset % alignment in
      if misalignment == 0 then 0 else alignment - misalignment

-- What the padding of a residue `r` comes to.
pad_of : ℕ → ℕ → ℕ
pad_of r alignment = if r == 0 then 0 else alignment - r

padding_needed_for-pad_of :
    (offset alignment : ℕ)
    → 0 < alignment
    → padding_needed_for offset alignment ≡ pad_of (offset % alignment) alignment
unfolding padding_needed_for pad_of
padding_needed_for-pad_of offset alignment h = ground arith

pad_of-aligns : (r alignment : ℕ) → r < alignment → (r + pad_of r alignment) % alignment ≡ 0
unfolding pad_of
pad_of-aligns r alignment h = ground (
  arith,
  mod_self alignment,
  ap (λ (n : ℕ). n % alignment) (cancel r alignment h),
  zero-mod alignment,
)
  where
    cancel : (r a : ℕ) → r < a → r + (a - r) ≡ a
    cancel r a h = omega arith

pad_of-least :
    (r alignment p : ℕ) → r < alignment → (r + p) % alignment ≡ 0 → pad_of r alignment ≤ p
unfolding pad_of
pad_of-least r alignment p h e =
    ground (arith, λ (lt : r + p < alignment). mod-eq_of_lt {n = r + p} {m = alignment} lt)

-- The padded offset is a multiple of a positive alignment.
pub padding_needed_for-aligns :
    (offset alignment : ℕ)
    → 0 < alignment
    → (offset + padding_needed_for offset alignment) % alignment ≡ 0
padding_needed_for-aligns offset alignment h =
    rw (padding_needed_for-pad_of offset alignment h, ← mod-add-mod)
      (pad_of-aligns (offset % alignment) alignment (mod-lt offset h))

-- No smaller padding aligns.
pub padding_needed_for-least :
    (offset alignment p : ℕ)
    → 0 < alignment
    → (offset + p) % alignment ≡ 0
    → padding_needed_for offset alignment ≤ p
padding_needed_for-least offset alignment p h e =
    rw (padding_needed_for-pad_of offset alignment h) (
      pad_of-least (offset % alignment) alignment p (mod-lt offset h)
        (mod-add-mod offset alignment p ∙ e))

-- A positive alignment is padded by less than itself; alignment 0 is not padded.
pub padding_needed_for-lt :
    (offset alignment : ℕ)
    → (0 < alignment → padding_needed_for offset alignment < alignment)
      × (padding_needed_for offset 0 ≡ 0)
unfolding padding_needed_for
padding_needed_for-lt offset alignment = (λ h. ground arith, refl)

-- For a positive alignment, `padding_needed_for` gives the least number of bytes whose addition makes
-- the offset a multiple of it, and that is less than the alignment; alignment 0 is not padded.
padding_needed_for-IsLeast :
    (offset alignment : ℕ)
    → (0 < alignment
        → ((offset + padding_needed_for offset alignment) % alignment ≡ 0)
          × (padding_needed_for offset alignment < alignment)
          × ((p : ℕ) → (offset + p) % alignment ≡ 0 → padding_needed_for offset alignment ≤ p))
      × (padding_needed_for offset 0 ≡ 0)
padding_needed_for-IsLeast offset alignment =
    let bound = padding_needed_for-lt offset alignment in
    (
      λ h. (
        padding_needed_for-aligns offset alignment h,
        bound.0 h,
        λ p e. padding_needed_for-least offset alignment p h e,
      ),
      bound.1,
    )
