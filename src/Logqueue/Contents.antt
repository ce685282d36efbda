-- ===== src/Logqueue/Contents.antt =====
-- src/logqueue.c: what the three files stand for, and the reading of the next message.
use concentrator.Common.{
  lt→ltb, ==_refl, ℕ, ◌+◌, ◌-◌, ◌^◌, ◌≤◌, ◌<◌, ◌≡◌, refl, ap, ◌∙◌, none, some, List, [], ◌∷◌, ◌++◌,
  append-nil, arith, length, length-append, length-take, length-drop, take, drop, drop-append,
  drop-length, ltb, if◌then◌else◌, Bool-cases, inl, inr,
}
use concentrator.Common.Maybe.{◌>>=◌}
use concentrator.Common.File.{File, after_read, le32, of_le32}
use concentrator.Logqueue.{
  Logqueue, lqidx_bytes, bytes_lqidx, read_pointer, read_entry, read_data, read_message,
}

-- The number that the pointer file holds.
unfoldable pub pointer : List ℕ → ℕ
pointer bytes = if ltb (length bytes) 4 then 0 else of_le32 (drop (length bytes - 4) bytes)

-- A message stands in the data file at an offset.
abbrev pub StandsAt : List ℕ → ℕ → List ℕ → Type 0
StandsAt stored off message = take (length message) (drop off stored) ≡ message

-- The index bytes list the messages, one entry of eight bytes for each.
abbrev pub Lists : List ℕ → List (List ℕ) → List ℕ → Type 0
Lists stored [] bytes = bytes ≡ []
Lists stored (m ∷ ms) bytes =
    (off : ℕ) × (rest : List ℕ) × (off < 2 ^ 31)
    × (length m < 2 ^ 32)
    × StandsAt stored off m
    × (bytes ≡ lqidx_bytes (record { offset = off; len = length m }) ++ rest)
    × Lists stored ms rest

-- The three files hold exactly these messages, oldest first.
pub record Holds (q : Logqueue) (messages : List (List ℕ)) : Type 0 where
  pub used : List ℕ
  pub pending : List ℕ
  pub index : q.ifd.bytes ≡ used ++ pending
  pub points : pointer q.pfd.bytes ≡ length used
  pub listed : Lists q.dfd.bytes messages pending
  pub index_small : length q.ifd.bytes < 2 ^ 31
  pub data_small : length q.dfd.bytes < 2 ^ 31

-- The last four bytes of a file are there to be read.
last_four :
    (bytes : List ℕ) → 4 ≤ length bytes → length (take 4 (drop (length bytes - 4) bytes)) ≡ 4
last_four bytes h =
    omega
      (arith, length-take 4 (drop (length bytes - 4) bytes), length-drop (length bytes - 4) bytes)

take_four : (bytes : List ℕ) → of_le32 (take 4 bytes) ≡ of_le32 bytes
unfolding of_le32
take_four [] = refl
take_four (a ∷ []) = refl
take_four (a ∷ b ∷ []) = refl
take_four (a ∷ b ∷ c ∷ []) = refl
take_four (a ∷ b ∷ c ∷ d ∷ rest) = refl

-- The read of the pointer does not fail, and leaves the file as it was.
pub read_pointer_lem :
    (f : File) → (f' : File) × (read_pointer f ≡ some (pointer f.bytes, f')) × (f'.bytes ≡ f.bytes)
unfolding read_pointer pointer
read_pointer_lem f = elim (Bool-cases (ltb (length f.bytes) 4)) [
  | inl short ↦ (f, rw (short, read_pointer), refl)
  | inr long ↦
      let at = record f { pos = length f.bytes - 4 } in
      let four = last_four f.bytes (ground arith) in
      (after_read at 4, rw (long, read_pointer) (rw (four, take_four) refl), refl)
]

-- The parts of an index entry at the front of some bytes.
entry_length :
    (off len : ℕ) (rest : List ℕ)
    → length (take 8 (lqidx_bytes (record { offset = off; len = len }) ++ rest)) ≡ 8
unfolding le32
entry_length off len rest = refl

entry_offset :
    (off len : ℕ) (rest : List ℕ)
    → off < 2 ^ 31
    → len < 2 ^ 32
    → bytes_lqidx (take 8 (lqidx_bytes (record { offset = off; len = len }) ++ rest))
      ≡ record { offset = off; len = len }
unfolding le32 of_le32
entry_offset off len rest h k = ground arith

read_entry_lem :
    (f : File) (used rest : List ℕ) (off len : ℕ)
    → f.bytes ≡ used ++ (lqidx_bytes (record { offset = off; len = len }) ++ rest)
    → length used < 2 ^ 31
    → off < 2 ^ 31
    → len < 2 ^ 32
    → read_entry f (length used)
      ≡ some (record { offset = off; len = len }, record f { pos = length used + 8 })
unfolding read_entry
read_entry_lem f used rest off len e small h k =
    rw (lt→ltb (length used) (2 ^ 31) small, ◌>>=◌)
      (rw (e, drop-append, entry_length off len rest, entry_offset off len rest h k) refl)

read_data_lem :
    (f : File) (m : List ℕ) (off : ℕ)
    → off < 2 ^ 31
    → StandsAt f.bytes off m
    → read_data f (record { offset = off; len = length m })
      ≡ some (m, record f { pos = off + length m })
unfolding read_data
read_data_lem f m off small at =
    rw (lt→ltb off (2 ^ 31) small, ◌>>=◌) (rw (at, ==_refl (length m)) refl)

-- What the reading of a message leaves: the same files, with the index read past the first entry.
pub record Fetched (q q' : Logqueue) (used : List ℕ) : Type 0 where
  pub same_data : q'.dfd.bytes ≡ q.dfd.bytes
  pub same_index : q'.ifd.bytes ≡ q.ifd.bytes
  pub same_pointer : q'.pfd.bytes ≡ q.pfd.bytes
  pub passed : q'.ifd.pos ≡ length used + 8

-- The next message of a queue that is not empty is read.
pub read_message_lem :
    (q : Logqueue) (m : List ℕ) (ms : List (List ℕ)) (h : Holds q (m ∷ ms))
    → (q' : Logqueue) × (read_message q ≡ some (m, q')) × Fetched q q' h.used
unfolding read_message
read_message_lem q m ms h =
    let (off, rest, small, fits, at, e, tail) = h.listed in
    let (pfd, ep, same) = read_pointer_lem q.pfd in
    let ei =
      read_entry_lem q.ifd h.used rest off (length m) (h.index ∙ ap (λ l. h.used ++ l) e)
        (omega (arith, ap length h.index, length-append h.used h.pending, h.index_small)) small
        fits in
    (
      record {
        dfd = record (q.dfd) { pos = off + length m };
        ifd = record (q.ifd) { pos = length h.used + 8 };
        pfd = pfd;
      },
      rw (ep, h.points, ei, read_data_lem q.dfd m off small at) refl,
      record { same_data = refl; same_index = refl; same_pointer = same; passed = refl },
    )

-- At the end of the index there is no message to read.
pub read_message_empty : (q : Logqueue) → Holds q [] → read_message q ≡ none
unfolding read_message read_entry
read_message_empty q h =
    let (pfd, ep, same) = read_pointer_lem q.pfd in
    rw (ep, h.points, lt→ltb (length h.used) (2 ^ 31) used_small) (rw (index, drop-length) refl)
  where
    index : q.ifd.bytes ≡ h.used
    index = h.index ∙ ap (λ l. h.used ++ l) h.listed ∙ append-nil h.used

    used_small : length h.used < 2 ^ 31
    used_small = omega (arith, ap length index, h.index_small)
