-- ===== src/Serial/Whole.antt =====
-- src/CSerialComm.cpp: a frame that the port brings at once is returned by `ReadBuf`.
use concentrator.Common.{
  ℕ, zero, suc, ◌+◌, ◌-◌, ◌≤◌, ◌<◌, ◌≡◌, refl, sym, ap, ◌∙◌, true, false, some, List, [], ◌∷◌, ◌++◌,
  append_assoc, ltb, ◌==◌, length, length-append, length-take, length-drop, take, drop, take-append,
  drop-append, arith, Bool-cases, inl, inr,
}
use mathlib.Core.Path.{subst}
use concentrator.Common.Upto.{and_both}
use concentrator.Cardhost.Command.{same_bytes}
use concentrator.Serial.{
  arrived, comm_ok, flag_at, find_begin, find_end, copy_frame, finished, progress, read_loop,
  read_buf,
}

same_bytes_refl : (xs : List ℕ) → same_bytes xs xs ≡ true
same_bytes_refl [] = refl
same_bytes_refl (x ∷ xs) = ground (arith, same_bytes_refl xs)

same_bytes-length : (xs ys : List ℕ) → same_bytes xs ys ≡ true → length xs ≡ length ys
same_bytes-length [] [] e = refl
same_bytes-length [] (y ∷ ys) e = cc
same_bytes-length (x ∷ xs) [] e = cc
same_bytes-length (x ∷ xs) (y ∷ ys) e =
    ap suc (same_bytes-length xs ys (and_both (x == y) (same_bytes xs ys) e).1)

-- A flag behind some bytes.
flag_at-append :
    (before flag behind : List ℕ) → flag_at (before ++ (flag ++ behind)) flag (length before) ≡ true
flag_at-append before flag behind =
    rw (drop-append before (flag ++ behind), take-append flag behind) (same_bytes_refl flag)

-- No flag begins where too few bytes are left.
pub flag_at-short :
    (buffer flag : List ℕ) (k : ℕ)
    → length buffer < k + length flag
    → 0 < length flag
    → flag_at buffer flag k ≡ false
flag_at-short buffer flag k short some_flag = elim (Bool-cases (flag_at buffer flag k)) [
  | inr off ↦ off
  | inl on ↦
      let size = same_bytes-length (take (length flag) (drop k buffer)) flag on in
      absurd (omega (arith, size, length-take (length flag) (drop k buffer), length-drop k buffer))
]

find_begin-first :
    (buffer flag : List ℕ) (left index t : ℕ)
    → index ≤ t
    → t ≤ index + left
    → flag_at buffer flag t ≡ true
    → ((k : ℕ) → k < t → flag_at buffer flag k ≡ false)
    → find_begin buffer flag left index ≡ some t
unfolding find_begin
find_begin-first buffer flag zero index t lo hi at first =
    let same : t ≡ index = omega arith in
    let here : flag_at buffer flag index ≡ true =
      subst (λ k. flag_at buffer flag k ≡ true) same at in
    rw (here, same) refl
find_begin-first buffer flag (suc left) index t lo hi at first = elim (Bool-cases (t == index)) [
  | inl now ↦
      let same : t ≡ index = ground (arith, now) in
      let here : flag_at buffer flag index ≡ true =
        subst (λ k. flag_at buffer flag k ≡ true) same at in
      rw (here, same) refl
  | inr later ↦
      let more : index < t = ground (arith, later, lo) in
      rw (first index more) (
        find_begin-first buffer flag left (index + 1) t (omega (arith, more)) (omega arith) at
          first)
]

find_end-last :
    (buffer flag : List ℕ) (steps index t : ℕ)
    → t ≤ index
    → index ≤ t + steps
    → flag_at buffer flag t ≡ true
    → ((k : ℕ) → t < k → k ≤ index → flag_at buffer flag k ≡ false)
    → find_end buffer flag steps index ≡ some t
unfolding find_end
find_end-last buffer flag zero index t lo hi at behind =
    let same : t ≡ index = omega arith in
    let here : flag_at buffer flag index ≡ true =
      subst (λ k. flag_at buffer flag k ≡ true) same at in
    rw (here, same) refl
find_end-last buffer flag (suc steps) index t lo hi at behind = elim (Bool-cases (t == index)) [
  | inl now ↦
      let same : t ≡ index = ground (arith, now) in
      let here : flag_at buffer flag index ≡ true =
        subst (λ k. flag_at buffer flag k ≡ true) same at in
      rw (here, same) refl
  | inr later ↦
      let more : t < index = ground (arith, later, lo) in
      rw (behind index more (omega arith)) (
        find_end-last buffer flag steps (index - 1) t (omega (arith, more)) (omega arith) at
          (λ k above below. behind k above (omega (arith, below))))
]

module _ (begin_flag end_flag noise body behind : List ℕ) (buffer_len : ℕ) where
  -- The bytes up to the end of the frame, and all.
  abbrev pub frame_of : List ℕ
  frame_of = begin_flag ++ (body ++ end_flag)

  abbrev pub stream : List ℕ
  stream = noise ++ (begin_flag ++ (body ++ (end_flag ++ behind)))

  -- A frame behind other bytes in which its first flag does not begin, with bytes behind it in which its last flag
  -- does not begin, is returned whole when it comes at once and fits both buffers.
  pub read_buf-whole :
      length stream ≤ 1024
      → length frame_of ≤ buffer_len
      → ((k : ℕ) → k < length noise → flag_at stream begin_flag k ≡ false)
      → ((k : ℕ) → length (noise ++ (begin_flag ++ body)) < k → flag_at stream end_flag k ≡ false)
      → read_buf begin_flag end_flag buffer_len (arrived stream ∷ []) ≡ comm_ok frame_of
  unfolding read_buf read_loop copy_frame
  read_buf-whole small fits first final =
      let n_tail : length (end_flag ++ behind) ≡ length end_flag + length behind =
        length-append end_flag behind in
      let n_body : length (body ++ (end_flag ++ behind))
          ≡ length body + length (end_flag ++ behind) =
        length-append body (end_flag ++ behind) in
      let n_rest : length (begin_flag ++ (body ++ (end_flag ++ behind)))
          ≡ length begin_flag + length (body ++ (end_flag ++ behind)) =
        length-append begin_flag (body ++ (end_flag ++ behind)) in
      let n_all : length stream
          ≡ length noise + length (begin_flag ++ (body ++ (end_flag ++ behind))) =
        length-append noise (begin_flag ++ (body ++ (end_flag ++ behind))) in
      let n_frame : length frame_of ≡ length begin_flag + length (body ++ end_flag) =
        length-append begin_flag (body ++ end_flag) in
      let n_inner : length (body ++ end_flag) ≡ length body + length end_flag =
        length-append body end_flag in
      let sizes : length stream ≡ length noise + length frame_of + length behind =
        omega (arith, n_tail, n_body, n_rest, n_all, n_frame, n_inner) in
      let room : ltb 1024 (length stream) ≡ false = ground (arith, small) in
      let long : ltb (length stream) (length begin_flag) ≡ false = ground (arith, sizes, n_frame) in
      let long' : ltb (length stream) (length end_flag) ≡ false =
        ground (arith, sizes, n_frame, n_inner) in
      let begins : find_begin stream begin_flag (length stream - length begin_flag) 0
          ≡ some (length noise) =
        find_begin-first stream begin_flag (length stream - length begin_flag) 0 (length noise)
          (omega arith) (omega (arith, sizes, n_frame))
          (flag_at-append noise begin_flag (body ++ (end_flag ++ behind))) first in
      let last = length stream - length end_flag in
      let front = noise ++ (begin_flag ++ body) in
      let n_front : length front ≡ length noise + (length begin_flag + length body) =
        omega (
          arith,
          length-append {0} noise (begin_flag ++ body),
          length-append {0} begin_flag body,
        ) in
      let parts : front ++ (end_flag ++ behind) ≡ stream =
        append_assoc noise (begin_flag ++ body) (end_flag ++ behind)
        ∙ ap (λ (l : List ℕ). noise ++ l) (append_assoc begin_flag body (end_flag ++ behind)) in
      let there : flag_at stream end_flag (length front) ≡ true =
        rw (← parts) (flag_at-append front end_flag behind) in
      let steps = last + 1 - (length noise + length begin_flag) in
      let ended : find_end stream end_flag steps last ≡ some (length front) =
        find_end-last stream end_flag steps last (length front)
          (omega (arith, sizes, n_frame, n_inner, n_front))
          (omega (arith, sizes, n_frame, n_inner, n_front)) there
          (λ k above below. final k above) in
      let count : length front - length noise + length end_flag ≡ length frame_of =
        omega (arith, n_frame, n_inner, n_front) in
      let enough : ltb buffer_len (length frame_of) ≡ false = ground (arith, fits) in
      let regroup : begin_flag ++ (body ++ (end_flag ++ behind)) ≡ frame_of ++ behind =
        ap (λ (l : List ℕ). begin_flag ++ l) (sym (append_assoc body end_flag behind))
        ∙ sym (append_assoc begin_flag (body ++ end_flag) behind) in
      let cut : take (length frame_of) (drop (length noise) stream) ≡ frame_of =
        rw (drop-append noise (begin_flag ++ (body ++ (end_flag ++ behind))), regroup)
          (take-append frame_of behind) in
      let copied : copy_frame begin_flag end_flag buffer_len stream (length noise) (length front)
          ≡ comm_ok frame_of =
        rw (copy_frame, count, enough, cut) refl in
      rw (room, long, begins, finished, long', ended, progress, long, begins) copied
