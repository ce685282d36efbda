-- ===== src/Serial/Tests.antt =====
-- Runs of the reads from a serial port.
use concentrator.Common.{
  ℕ, zero, suc, ◌<◌, ◌≡◌, refl, false, List, [], ◌∷◌, ◌++◌, length, Bool-cases, inl, inr, ◌==◌,
  replicate, arith,
}
use concentrator.Serial.{
  Chunk, arrived, comm_ok, comm_nodata, outside, read_buf, read_loop, copy_frame, find_begin,
  find_end, flag_at,
}
use concentrator.Serial.Framed.{Framed, bytes_of, read_buf-Framed}
use concentrator.Serial.Whole.{flag_at-short, stream, frame_of, read_buf-whole}

abbrev first_flag : List ℕ
first_flag = 170 ∷ 128 ∷ []

abbrev last_flag : List ℕ
last_flag = 238 ∷ 221 ∷ []

-- A frame in two pieces, with a byte in front of it and one behind.
abbrev pieces : List Chunk
pieces = arrived (9 ∷ 170 ∷ 128 ∷ 1 ∷ []) ∷ arrived (2 ∷ 238 ∷ 221 ∷ 7 ∷ []) ∷ []

two_pieces :
    read_buf first_flag last_flag 1024 pieces ≡ comm_ok (170 ∷ 128 ∷ 1 ∷ 2 ∷ 238 ∷ 221 ∷ [])
unfolding read_buf read_loop copy_frame find_begin find_end
two_pieces = refl

read_buf-Framed_example :
    Framed first_flag last_flag 1024 (bytes_of pieces) (170 ∷ 128 ∷ 1 ∷ 2 ∷ 238 ∷ 221 ∷ [])
read_buf-Framed_example =
    read_buf-Framed first_flag last_flag 1024 pieces (170 ∷ 128 ∷ 1 ∷ 2 ∷ 238 ∷ 221 ∷ [])
      (omega arith) (omega arith) two_pieces

-- Behind the flag that begins a frame two more reads are made.
too_slow :
    read_buf first_flag last_flag 1024 (
      arrived (170 ∷ 128 ∷ [])
      ∷ arrived (1 ∷ [])
      ∷ arrived (2 ∷ [])
      ∷ arrived (238 ∷ 221 ∷ [])
      ∷ [])
    ≡ comm_nodata
unfolding read_buf read_loop copy_frame find_begin find_end
too_slow = refl

-- A second read of as much as there is place in all leaves the buffer.
too_much :
    read_buf first_flag last_flag 1024 (arrived (170 ∷ 128 ∷ []) ∷ arrived (replicate 1023 1) ∷ [])
    ≡ outside
unfolding read_buf read_loop copy_frame find_begin find_end
too_much = refl

no_end_later :
    (k : ℕ)
    → length ((9 ∷ []) ++ (first_flag ++ (1 ∷ 2 ∷ []))) < k
    → flag_at (stream first_flag last_flag (9 ∷ []) (1 ∷ 2 ∷ []) (7 ∷ []) 1024) last_flag k ≡ false
no_end_later k h = elim (Bool-cases (k == 6)) [
  | inl one ↦ let e : k ≡ 6 = ground (arith, one) in rw e refl
  | inr more ↦
      flag_at-short (stream first_flag last_flag (9 ∷ []) (1 ∷ 2 ∷ []) (7 ∷ []) 1024) last_flag k
        (ground (arith, more, h)) (omega arith)
]

no_begin_earlier :
    (k : ℕ)
    → k < 1
    → flag_at (stream first_flag last_flag (9 ∷ []) (1 ∷ 2 ∷ []) (7 ∷ []) 1024) first_flag k ≡ false
no_begin_earlier zero h = refl
no_begin_earlier (suc k) h = absurd (omega arith)

read_buf-whole_example :
    read_buf first_flag last_flag 1024
      (arrived (stream first_flag last_flag (9 ∷ []) (1 ∷ 2 ∷ []) (7 ∷ []) 1024) ∷ [])
    ≡ comm_ok (frame_of first_flag last_flag (9 ∷ []) (1 ∷ 2 ∷ []) (7 ∷ []) 1024)
read_buf-whole_example =
    read_buf-whole first_flag last_flag (9 ∷ []) (1 ∷ 2 ∷ []) (7 ∷ []) 1024 (omega arith)
      (omega arith) no_begin_earlier no_end_later
