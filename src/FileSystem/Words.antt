-- ===== src/FileSystem/Words.antt =====
-- A block of bytes read as an array of `uint`, as the indirect block of an inode is.
use csci_315_operating_sytem.Prelude.{
  ℕ, ◌+◌, ◌*◌, ◌/◌, ◌%◌, ◌^◌, ◌<◌, ◌≡◌, ◌≢◌, refl, arith, ◌==◌, if◌then◌else◌,
}

-- A byte of a little-endian word.
abbrev byte_of : (x r : ℕ) → ℕ
byte_of x r =
    if r == 0
    then x % 256
    else (if r == 1
        then x / 256 % 256
        else (if r == 2 then x / 65536 % 256 else x / 16777216 % 256))

-- `a[i]`
unfoldable pub get_word : (ℕ → ℕ) → ℕ → ℕ
get_word f i = f (4 * i) + 256 * f (4 * i + 1) + 65536 * f (4 * i + 2) + 16777216 * f (4 * i + 3)

-- `a[i] = x`
unfoldable pub put_word : (ℕ → ℕ) → ℕ → ℕ → ℕ → ℕ
put_word f i x a = if a / 4 == i then byte_of x (a % 4) else f a

put_byte : (f : ℕ → ℕ) (i x r a : ℕ) → r < 4 → a ≡ 4 * i + r → put_word f i x a ≡ byte_of x r
unfolding put_word
put_byte f i x r a lt e = ground (arith, quotient, rest)
  where
    quotient : a / 4 ≡ i
    quotient = omega arith

    rest : a % 4 ≡ r
    rest = omega arith

-- A word that was put is read back.
pub get-put_word : (f : ℕ → ℕ) (i x : ℕ) → x < 2 ^ 32 → get_word (put_word f i x) i ≡ x
unfolding get_word
get-put_word f i x lt = omega (
  arith,
  put_byte f i x 0 (4 * i) (omega arith) (omega arith),
  put_byte f i x 1 (4 * i + 1) (omega arith) (omega arith),
  put_byte f i x 2 (4 * i + 2) (omega arith) (omega arith),
  put_byte f i x 3 (4 * i + 3) (omega arith) (omega arith),
)

put_byte_ne : (f : ℕ → ℕ) (i j x r a : ℕ) → r < 4 → a ≡ 4 * j + r → j ≢ i → put_word f i x a ≡ f a
unfolding put_word
put_byte_ne f i j x r a lt e ne = ground (arith, quotient)
  where
    quotient : a / 4 ≡ j
    quotient = omega arith

-- The other words stay.
pub get-put_word_ne : (f : ℕ → ℕ) (i j x : ℕ) → j ≢ i → get_word (put_word f i x) j ≡ get_word f j
unfolding get_word
get-put_word_ne f i j x ne = omega (
  arith,
  put_byte_ne f i j x 0 (4 * j) (omega arith) (omega arith) ne,
  put_byte_ne f i j x 1 (4 * j + 1) (omega arith) (omega arith) ne,
  put_byte_ne f i j x 2 (4 * j + 2) (omega arith) (omega arith) ne,
  put_byte_ne f i j x 3 (4 * j + 3) (omega arith) (omega arith) ne,
)

-- A zeroed block holds no block numbers.
pub get_word-zero : (i : ℕ) → get_word (λ _. 0) i ≡ 0
unfolding get_word
get_word-zero i = refl
