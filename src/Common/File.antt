-- ===== src/Common/File.antt =====
-- What the program uses of POSIX files: an open descriptor is the bytes of its file and a position.
-- `off_t` has 32 bits, so an offset of 2 ^ 31 or more is negative and `lseek` refuses it.
-- How many bytes a `write` takes is the environment's choice, and an argument.
use concentrator.Common.{
  ℕ, zero, suc, ◌+◌, ◌-◌, ◌*◌, ◌/◌, ◌%◌, ◌^◌, ◌≤◌, ◌<◌, ◌≡◌, refl, ap, ap₂, ◌∙◌, Option, none, some,
  List, [], ◌∷◌, ◌++◌, append-nil, arith, ltb, if◌then◌else◌, length, take, drop, replicate,
  take-append,
}

pub record File : Type 0 where
  pub bytes : List ℕ
  pub pos : ℕ

-- `lseek(fd, off, SEEK_SET)`; `none` is -1.
abbrev pub seek_set : File → ℕ → Option File
seek_set f off = if ltb off (2 ^ 31) then some (record f { pos = off }) else none

-- `lseek(fd, 0, SEEK_END)`, which returns the new position.
abbrev pub seek_end : File → File
seek_end f = record f { pos = length f.bytes }

-- `lseek(fd, 0 - back, SEEK_END)`; `none` is -1, for a file that is too short.
abbrev pub seek_back : File → ℕ → Option File
seek_back f back =
    if ltb (length f.bytes) back then none else some (record f { pos = length f.bytes - back })

-- The bytes that `read(fd, buf, n)` gets, and the descriptor behind them.
abbrev pub read_bytes : File → ℕ → List ℕ
read_bytes f n = take n (drop f.pos f.bytes)

abbrev pub after_read : File → ℕ → File
after_read f n = record f { pos = f.pos + length (read_bytes f n) }

-- `data` put over the bytes from `pos` on; a gap is filled with zeros.
abbrev pub splice : List ℕ → ℕ → List ℕ → List ℕ
splice bytes pos data' =
    take pos (bytes ++ replicate (pos - length bytes) 0)
    ++ (data' ++ drop (pos + length data') bytes)

-- `write(fd, data, length)` when the disk takes `room` bytes at most.
abbrev pub write_bytes : File → List ℕ → (room : ℕ) → File
write_bytes f data' room =
    let taken = take room data' in
    record f { bytes = splice f.bytes f.pos taken; pos = f.pos + length taken }

-- The bytes that `write` reports.
abbrev pub written : List ℕ → (room : ℕ) → ℕ
written data' room = length (take room data')

-- An `unsigned int` in memory, low byte first.
unfoldable pub le32 : ℕ → List ℕ
le32 n = (n % 256) ∷ (n / 256 % 256) ∷ (n / 256 ^ 2 % 256) ∷ (n / 256 ^ 3 % 256) ∷ []

unfoldable pub of_le32 : List ℕ → ℕ
of_le32 (a ∷ b ∷ c ∷ d ∷ rest) = a + 256 * b + 256 ^ 2 * c + 256 ^ 3 * d
of_le32 _ = 0

pub of_le32-le32 : (n : ℕ) (rest : List ℕ) → n < 2 ^ 32 → of_le32 (le32 n ++ rest) ≡ n
unfolding le32 of_le32
of_le32-le32 n rest h = omega arith

pub length-le32 : (n : ℕ) → length (le32 n) ≡ 4
unfolding le32
length-le32 n = refl

take_all : (xs : List ℕ) (n : ℕ) → length xs ≡ n → take n xs ≡ xs
take_all [] zero e = refl
take_all [] (suc n) e = refl
take_all (x ∷ xs) zero e = absurd (omega arith)
take_all (x ∷ xs) (suc n) e = ap (λ l. x ∷ l) (take_all xs n (omega arith))

drop_all : (xs : List ℕ) (n : ℕ) → length xs ≤ n → drop n xs ≡ []
drop_all [] zero e = refl
drop_all [] (suc n) e = refl
drop_all (x ∷ xs) zero e = absurd (omega arith)
drop_all (x ∷ xs) (suc n) e = drop_all xs n (omega arith)

-- A write at the end appends.
pub splice_end : (bytes data' : List ℕ) → splice bytes (length bytes) data' ≡ bytes ++ data'
splice_end bytes data' = ap₂ ◌++◌ front (
    ap (λ l. data' ++ l) (drop_all bytes (length bytes + length data') (omega arith))
    ∙ append-nil data')
  where
    front : take (length bytes) (bytes ++ replicate (length bytes - length bytes) 0) ≡ bytes
    front = take-append bytes (replicate (length bytes - length bytes) 0)

-- A write that the disk takes whole, and one that it does not take at all.
pub take_enough : (data' : List ℕ) (room : ℕ) → length data' ≤ room → take room data' ≡ data'
take_enough [] zero h = refl
take_enough [] (suc room) h = refl
take_enough (x ∷ xs) zero h = absurd (omega arith)
take_enough (x ∷ xs) (suc room) h = ap (λ l. x ∷ l) (take_enough xs room (omega arith))
