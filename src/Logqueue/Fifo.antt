-- ===== src/Logqueue/Fifo.antt =====
-- src/logqueue.c: `lqfront`, `lqdequeue` and `lqempty` on the messages that the files hold.
use concentrator.Common.{
  lt→ltb, ℕ, ◌+◌, ◌^◌, ◌≤◌, ◌<◌, ◌≡◌, ◌↔◌, refl, sym, ap, ◌∙◌, inl, inr, true, none, some, List, [],
  ◌∷◌, ◌++◌, append_assoc, append-nil, arith, ◌==◌, length, length-append, take, u32, Bool-cases,
}
use concentrator.Common.File.{le32, length-le32, splice_end, take_enough}
use concentrator.Logqueue.{Logqueue, Lqidx, lqidx_bytes, read_message, lqempty, lqfront, lqdequeue}
use concentrator.Logqueue.Contents.{
  pointer, Lists, Holds, read_pointer_lem, read_message_lem, read_message_empty,
}
use concentrator.Logqueue.Append.{pointer-append}
use concentrator.Logqueue.Enqueue.{entry_length, data_grows}

-- The messages stay when the data and the index do and the pointer file says what it said.
same_files :
    (q q' : Logqueue) (ms : List (List ℕ))
    → Holds q ms
    → q'.dfd.bytes ≡ q.dfd.bytes
    → q'.ifd.bytes ≡ q.ifd.bytes
    → q'.pfd.bytes ≡ q.pfd.bytes
    → Holds q' ms
same_files q q' ms h ed ei ep =
    data_grows q q' ms [] h (ed ∙ sym (append-nil q.dfd.bytes)) ei ep (omega (arith, h.data_small))

-- `lqfront` returns the oldest message, and the queue still holds all of them.
pub lqfront-Holds :
    (q : Logqueue) (m : List ℕ) (ms : List (List ℕ))
    → Holds q (m ∷ ms)
    → ((lqfront q).1 ≡ some m) × Holds (lqfront q).0 (m ∷ ms)
unfolding lqfront
lqfront-Holds q m ms h =
    let (q', e, f) = read_message_lem q m ms h in
    rw (e, lqfront) (refl, same_files q q' (m ∷ ms) h f.same_data f.same_index f.same_pointer)

-- The pointer moves over one entry.
pointer_moves :
    (q q' : Logqueue) (m : List ℕ) (ms : List (List ℕ)) (h : Holds q (m ∷ ms))
    → q'.dfd.bytes ≡ q.dfd.bytes
    → q'.ifd.bytes ≡ q.ifd.bytes
    → pointer q'.pfd.bytes ≡ length h.used + 8
    → Holds q' ms
pointer_moves q q' m ms h ed ei ep =
    let (off, rest, small, fits, at, e, tail) = h.listed in
    let idx : Lqidx = record { offset = off; len = length m } in
    record {
      used = h.used ++ lqidx_bytes idx;
      pending = rest;
      index =
          ei ∙ h.index ∙ ap (λ l. h.used ++ l) e ∙ sym (append_assoc h.used (lqidx_bytes idx) rest);
      points = rw (ep, length-append, entry_length idx) refl;
      listed = rw ed tail;
      index_small = rw ei h.index_small;
      data_small = rw ed h.data_small;
    }

-- An entry is pending, so the offset behind it is no more than the length of the index.
entry_fits :
    (q : Logqueue) (m : List ℕ) (ms : List (List ℕ)) (h : Holds q (m ∷ ms))
    → length h.used + 8 < 2 ^ 31
entry_fits q m ms h =
    let (off, rest, small, fits, at, e, tail) = h.listed in
    let idx : Lqidx = record { offset = off; len = length m } in
    omega (
      arith,
      ap length h.index,
      ap length e,
      length-append h.used h.pending,
      length-append (lqidx_bytes idx) rest,
      entry_length idx,
      h.index_small,
    )

-- With room for the pointer `lqdequeue` returns the oldest message, and the queue holds the others.
pub lqdequeue-Holds :
    (q : Logqueue) (m : List ℕ) (ms : List (List ℕ)) (room : ℕ)
    → Holds q (m ∷ ms)
    → 4 ≤ room
    → ((lqdequeue q room).1 ≡ some m) × Holds (lqdequeue q room).0 ms
unfolding lqdequeue le32
lqdequeue-Holds q m ms room h le =
    let (q', e, f) = read_message_lem q m ms h in
    let small = entry_fits q m ms h in
    let new = length h.used + 8 in
    let all : take room (le32 new) ≡ le32 new =
      take_enough (le32 new) room (omega (arith, length-le32 new)) in
    let offset : u32 q'.ifd.pos ≡ new = omega (arith, f.passed) in
    rw (e, lqdequeue, offset, all, length-le32)
      (
        refl,
        pointer_moves q _ m ms h f.same_data f.same_index (
            ap pointer (splice_end q'.pfd.bytes (le32 new))
            ∙ pointer-append q'.pfd.bytes new (omega arith)),
      )

-- When the disk takes nothing of the pointer, `lqdequeue` returns 0 and the message is still there.
pub lqdequeue-failed :
    (q : Logqueue) (m : List ℕ) (ms : List (List ℕ))
    → Holds q (m ∷ ms)
    → ((lqdequeue q 0).1 ≡ none) × Holds (lqdequeue q 0).0 (m ∷ ms)
unfolding lqdequeue
lqdequeue-failed q m ms h =
    let (q', e, f) = read_message_lem q m ms h in
    rw (e, lqdequeue)
      (
        refl,
        same_files q _ (m ∷ ms) h f.same_data f.same_index
            (splice_end q'.pfd.bytes [] ∙ append-nil q'.pfd.bytes ∙ f.same_pointer),
      )

-- A queue without messages is left as it is by `lqdequeue` and `lqfront`, which return 0.
pub lqdequeue-empty :
    (q : Logqueue) (room : ℕ)
    → Holds q []
    → (lqdequeue q room ≡ (q, none)) × (lqfront q ≡ (q, none))
unfolding lqdequeue lqfront
lqdequeue-empty q room h = (rw (nothing, lqdequeue) refl, rw (nothing, lqfront) refl)
  where
    nothing : read_message q ≡ none
    nothing = read_message_empty q h

-- The index bytes of some messages are none exactly when the messages are.
empty_index :
    (stored : List ℕ) (ms : List (List ℕ)) (bytes : List ℕ)
    → Lists stored ms bytes
    → (length bytes ≡ 0) ↔ (ms ≡ [])
empty_index stored [] bytes h = (λ _. refl, λ _. ap length h)
empty_index stored (m ∷ ms) bytes (off, rest, small, fits, at, e, tail) = (
  λ k. absurd (omega (arith, ap length e, length-append (lqidx_bytes idx) rest, entry_length idx)),
  λ k. absurd (omega (arith, ap length k)),
)
  where
    idx : Lqidx
    idx = record { offset = off; len = length m }

-- `lqempty` tells whether the queue holds a message, and changes nothing.
pub lqempty-Holds :
    (q : Logqueue) (ms : List (List ℕ))
    → Holds q ms
    → (((lqempty q).1 ≡ true) ↔ (ms ≡ [])) × Holds (lqempty q).0 ms
unfolding lqempty
lqempty-Holds q ms h =
    let (pfd, ep, same) = read_pointer_lem q.pfd in
    let (to, from) = empty_index q.dfd.bytes ms h.pending h.listed in
    rw (ep, h.points)
      (elim (Bool-cases (length q.ifd.bytes == length h.used)) [
        | inl at_end ↦
            rw at_end
              ((λ _. to (ground (arith, total)), λ _. refl), same_files q _ ms h refl refl same)
        | inr before ↦
            rw (before, lt→ltb (length h.used) (2 ^ 31) (omega (arith, total, h.index_small)))
              (
                (λ e. absurd (cc), λ e. absurd (ground (arith, total, from e))),
                same_files q _ ms h refl refl same,
              )
      ])
  where
    total : length q.ifd.bytes ≡ length h.used + length h.pending
    total = ap length h.index ∙ length-append h.used h.pending
