-- ===== src/Logqueue/Enqueue.antt =====
-- src/logqueue.c: `lqenqueue` adds a message at the end, or fails and leaves the messages.
use concentrator.Common.{
  ==_refl, ℕ, ◌+◌, ◌^◌, ◌≤◌, ◌<◌, ◌≡◌, refl, ap, ◌∙◌, ◌⊎◌, inl, inr, true, false, List, [], ◌∷◌,
  ◌++◌, append_assoc, append-nil, arith, ◌==◌, length, length-append, length-take, take, u32,
  Bool-cases,
}
use concentrator.Common.File.{
  File, seek_end, write_bytes, written, le32, length-le32, splice_end, take_enough,
}
use concentrator.Logqueue.{Logqueue, Lqidx, lqidx_bytes, lqenqueue}
use concentrator.Logqueue.Contents.{pointer, Holds}
use concentrator.Logqueue.Append.{Lists-extend, StandsAt-end, Lists-snoc}

-- A write at the end of a file.
write_end :
    (f : File) (data' : List ℕ) (room : ℕ)
    → (write_bytes (seek_end f) data' room).bytes ≡ f.bytes ++ take room data'
write_end f data' room = splice_end f.bytes (take room data')

pub entry_length : (idx : Lqidx) → length (lqidx_bytes idx) ≡ 8
entry_length idx = omega (
  arith,
  length-append (le32 idx.offset) (le32 idx.len),
  length-le32 idx.offset,
  length-le32 idx.len,
)

-- The messages stay when the index and the pointer do and the data file only grows.
pub data_grows :
    (q q' : Logqueue) (ms : List (List ℕ)) (more : List ℕ)
    → Holds q ms
    → q'.dfd.bytes ≡ q.dfd.bytes ++ more
    → q'.ifd.bytes ≡ q.ifd.bytes
    → q'.pfd.bytes ≡ q.pfd.bytes
    → length q.dfd.bytes + length more < 2 ^ 31
    → Holds q' ms
data_grows q q' ms more h ed ei ep small = record {
  used = h.used;
  pending = h.pending;
  index = ei ∙ h.index;
  points = ap pointer ep ∙ h.points;
  listed = rw ed (Lists-extend q.dfd.bytes more ms h.pending h.listed);
  index_small = rw ei h.index_small;
  data_small = rw (ed, length-append) small;
}

both_grow :
    (q q' : Logqueue) (ms : List (List ℕ)) (m : List ℕ)
    → Holds q ms
    → q'.dfd.bytes ≡ q.dfd.bytes ++ m
    → q'.ifd.bytes
      ≡ q.ifd.bytes ++ lqidx_bytes (record { offset = length q.dfd.bytes; len = length m })
    → q'.pfd.bytes ≡ q.pfd.bytes
    → length q.dfd.bytes + length m < 2 ^ 31
    → length q.ifd.bytes + 8 < 2 ^ 31
    → Holds q' (ms ++ m ∷ [])
both_grow q q' ms m h ed ei ep small_d small_i = record {
  used = h.used;
  pending = h.pending ++ lqidx_bytes idx;
  index = rw (ei, h.index, append_assoc) refl;
  points = ap pointer ep ∙ h.points;
  listed = rw ed (
      Lists-snoc (q.dfd.bytes ++ m) ms h.pending m (length q.dfd.bytes) h.data_small (omega arith)
        (StandsAt-end q.dfd.bytes m) (Lists-extend q.dfd.bytes m ms h.pending h.listed));
  index_small = rw (ei, length-append) (omega (arith, entry_length idx));
  data_small = rw (ed, length-append) small_d;
}
  where
    idx : Lqidx
    idx = record { offset = length q.dfd.bytes; len = length m }

-- With room on the disk and below the limits of the offsets, `lqenqueue` returns 1, and the message is
-- the last of the queue.
pub lqenqueue-Holds :
    (q : Logqueue) (ms : List (List ℕ)) (m : List ℕ) (room_d room_i : ℕ)
    → Holds q ms
    → length m ≤ room_d
    → 8 ≤ room_i
    → length q.dfd.bytes + length m < 2 ^ 31
    → length q.ifd.bytes + 8 < 2 ^ 31
    → ((lqenqueue q m room_d room_i).1 ≡ true)
      × Holds (lqenqueue q m room_d room_i).0 (ms ++ m ∷ [])
unfolding lqenqueue
lqenqueue-Holds q ms m room_d room_i h rd ri small_d small_i =
    rw (whole, whole_entry, same_offset)
      (
        refl,
        both_grow q _ ms m h
            (write_end q.dfd m room_d ∙ ap (λ l. q.dfd.bytes ++ l) (take_enough m room_d rd))
            (write_end q.ifd entry room_i ∙ ap (λ l. q.ifd.bytes ++ l) all_entry) refl small_d
            small_i,
      )
  where
    entry : List ℕ
    entry = lqidx_bytes (record { offset = length q.dfd.bytes; len = length m })

    all_entry : take room_i entry ≡ entry
    all_entry =
        take_enough entry room_i
          (omega (arith, entry_length (record { offset = length q.dfd.bytes; len = length m })))

    same_offset : u32 (length q.dfd.bytes) ≡ length q.dfd.bytes
    same_offset = omega arith

    whole : (written m room_d == length m) ≡ true
    whole = rw (take_enough m room_d rd) (==_refl (length m))

    whole_entry :
        (written (lqidx_bytes (record { offset = u32 (length q.dfd.bytes); len = length m })) room_i
          == 8)
        ≡ true
    whole_entry =
        rw (same_offset, all_entry)
          (rw (entry_length (record { offset = length q.dfd.bytes; len = length m })) refl)

-- When the disk does not take the message, or nothing of its entry, `lqenqueue` returns 0 and the queue holds what it held.
pub lqenqueue-failed :
    (q : Logqueue) (ms : List (List ℕ)) (m : List ℕ) (room_d room_i : ℕ)
    → Holds q ms
    → (room_d < length m) ⊎ (room_i ≡ 0)
    → length q.dfd.bytes + length m < 2 ^ 31
    → ((lqenqueue q m room_d room_i).1 ≡ false) × Holds (lqenqueue q m room_d room_i).0 ms
unfolding lqenqueue
lqenqueue-failed q ms m room_d room_i h cause small =
    elim (Bool-cases (written m room_d == length m)) [
      | inl whole ↦
          let none_left = zero_left (whole_room whole) in
          rw whole (
            rw none_left refl,
            data_grows q _ ms (take room_d m) h (write_end q.dfd m room_d)
                (write_end q.ifd entry room_i
                  ∙ ap (λ r. q.ifd.bytes ++ take r entry) none_left
                  ∙ append-nil q.ifd.bytes)
                refl fits,
          )
      | inr cut ↦
          rw cut
            (refl, data_grows q _ ms (take room_d m) h (write_end q.dfd m room_d) refl refl fits)
    ]
  where
    entry : List ℕ
    entry = lqidx_bytes (record { offset = u32 (length q.dfd.bytes); len = length m })

    fits : length q.dfd.bytes + length (take room_d m) < 2 ^ 31
    fits = omega (arith, length-take room_d m)

    whole_room : (written m room_d == length m) ≡ true → length m ≤ room_d
    whole_room e = ground (arith, length-take room_d m)

    zero_left : length m ≤ room_d → room_i ≡ 0
    zero_left le = elim cause [ inl lt ↦ absurd (omega arith) | inr e ↦ e ]
