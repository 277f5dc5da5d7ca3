-- ===== src/Memory/Bytes.antt =====
-- Laws of byte writes and reads, and of the little-endian representation.
use fiction.Prelude.{
  ℕ, zero, suc, ◌+◌, ◌*◌, ◌/◌, ◌≤◌, ◌<◌, ◌≡◌, refl, sym, inl, ◌⊎◌, List, [], ◌∷◌, arith, length,
  ◌++◌, ap, ◌∙◌,
}
use native.Mathlib.Nat.{add-zero}
use fiction.Memory.{Bytes, drop_block, write_byte, write_bytes, read_bytes, encode, decode, zeros}

-- The number of values of `n` bytes.
abbrev pub values : ℕ → ℕ
values zero = 1
values (suc n) = 256 * values n

pub length-encode : (n v : ℕ) → length (encode n v) ≡ n
unfolding encode
length-encode zero v = refl
length-encode (suc n) v = ground (arith, length-encode n (v / 256))

pub decode-encode : (n v : ℕ) → v < values n → decode (encode n v) ≡ v
unfolding encode decode
decode-encode zero v h = omega arith
decode-encode (suc n) v h = omega (arith, decode-encode n (v / 256) (omega arith))

pub length-zeros : (n : ℕ) → length (zeros n) ≡ n
unfolding zeros
length-zeros zero = refl
length-zeros (suc n) = omega (arith, length-zeros n)

-- A write leaves the addresses outside it alone.
pub write_bytes-outside :
    (a : ℕ) (bs : List ℕ) (m : Bytes) (p : ℕ)
    → (p < a) ⊎ (a + length bs ≤ p)
    → write_bytes a bs m p ≡ m p
unfolding write_bytes write_byte
write_bytes-outside a [] m p h = refl
write_bytes-outside a (b ∷ bs) m p h =
    ground (arith, write_bytes-outside (a + 1) bs (write_byte a b m) p)

pub read-write :
    (a : ℕ) (bs : List ℕ) (m : Bytes) → read_bytes a (length bs) (write_bytes a bs m) ≡ bs
unfolding read_bytes write_bytes write_byte
read-write a [] m = refl
read-write a (b ∷ bs) m = ground (
  arith,
  write_bytes-outside (a + 1) bs (write_byte a b m) a,
  read-write (a + 1) bs (write_byte a b m),
)

pub read-write_disjoint :
    (a n b : ℕ) (bs : List ℕ) (m : Bytes)
    → (a + n ≤ b) ⊎ (b + length bs ≤ a)
    → read_bytes a n (write_bytes b bs m) ≡ read_bytes a n m
unfolding read_bytes
read-write_disjoint a zero b bs m h = refl
read-write_disjoint a (suc n) b bs m h =
    ground (arith, write_bytes-outside b bs m a, read-write_disjoint (a + 1) n b bs m)

-- A read depends on the bytes that it covers.
pub read_bytes_congr :
    (a n : ℕ) (m m' : Bytes)
    → ((p : ℕ) → a ≤ p → p < a + n → m p ≡ m' p)
    → read_bytes a n m ≡ read_bytes a n m'
unfolding read_bytes
read_bytes_congr a zero m m' same = refl
read_bytes_congr a (suc n) m m' same = ground (
  arith,
  same a (omega arith) (omega arith),
  read_bytes_congr (a + 1) n m m' (λ p l r. same p (omega arith) (omega arith)),
)

-- Two writes, the second where the first ends, are one.
pub write_bytes-append :
    (a : ℕ) (bs cs : List ℕ) (m : Bytes)
    → write_bytes (a + length bs) cs (write_bytes a bs m) ≡ write_bytes a (bs ++ cs) m
unfolding write_bytes
write_bytes-append a [] cs m = ap (λ p. write_bytes p cs m) (add-zero a)
write_bytes-append a (b ∷ bs) cs m =
    ap (λ p. write_bytes p cs (write_bytes (a + 1) bs (write_byte a b m))) (shift a (length bs))
    ∙ write_bytes-append (a + 1) bs cs (write_byte a b m)
  where
    shift : (a n : ℕ) → a + suc n ≡ a + 1 + n
    shift a n = omega arith

-- the beginning of what is written
pub read-write_prefix :
    (a : ℕ) (t rest : List ℕ) (m : Bytes)
    → read_bytes a (length t) (write_bytes a (t ++ rest) m) ≡ t
read-write_prefix a t rest m =
    ap (read_bytes a (length t)) (sym (write_bytes-append a t rest m))
    ∙ read-write_disjoint a (length t) (a + length t) rest (write_bytes a t m) (inl (omega arith))
    ∙ read-write a t m

pub drop_block-first : (a n : ℕ) (bs : List (ℕ × ℕ)) → drop_block a ((a, n) ∷ bs) ≡ bs
unfolding drop_block
drop_block-first a n bs = ground arith
