-- ===== src/Cardhost/Write.antt =====
-- src/CCardHost.cpp: what one turn of `Run` that writes does with the oldest cell.
use concentrator.Common.{
  ℕ, ◌+◌, ◌-◌, ◌≤◌, ◌<◌, ◌≡◌, sym, ap, ◌∙◌, ◌⊎◌, some, List, [], length, length-take, length-drop,
  take, drop, get_or, min, if◌then◌else◌, ◌==◌, arith,
}
use concentrator.Common.Memory.{length-load}
use concentrator.Common.Parts.{take-drop, take_of_append, drop_of_append}
use concentrator.Cbuffer.{Cbuffer, cbuffer_read_done}
use concentrator.Cardhost.{short_length}
use concentrator.Cardhost.Answer.{Sender, set_wlen, write_turn}
use concentrator.Cardhost.Oldest.{Oldest}

-- A cell that starts with a frame with a one-byte length, and that frame.
abbrev pub IsCell : List ℕ → Type 0
IsCell c = (get_or c 1 0 < 255) × (short_length (get_or c 1 0) ≤ length c)

abbrev pub frame_of : List ℕ → List ℕ
frame_of c = take (short_length (get_or c 1 0)) c

-- `n` bytes of the oldest cell's frame have been sent; at the first byte `wlen` is left over.
abbrev pub Sending : (c : List ℕ) (n wlen : ℕ) → Type 0
Sending c n wlen = (n < length (frame_of c)) × ((n ≡ 0) ⊎ (wlen ≡ length (frame_of c)))

-- The bytes of a turn.
abbrev pub out_bytes : (c : List ℕ) (n room : ℕ) → ℕ
out_bytes c n room = min room (length (frame_of c) - n)

pub frame_size : (c : List ℕ) → IsCell c → length (frame_of c) ≡ short_length (get_or c 1 0)
frame_size c h = omega (arith, length-take (short_length (get_or c 1 0)) c)

part_of_frame :
    (c : List ℕ) (n t : ℕ)
    → IsCell c
    → n + t ≤ length (frame_of c)
    → take t (drop n c) ≡ take t (drop n (frame_of c))
part_of_frame c n t h fits =
    ap (λ l. take t (drop n l)) (sym (take-drop (short_length (get_or c 1 0)) c))
    ∙ ap (take t)
        (drop_of_append n (frame_of c) (drop (short_length (get_or c 1 0)) c) (omega arith))
    ∙ take_of_append t (drop n (frame_of c)) (drop (short_length (get_or c 1 0)) c)
        (omega (arith, length-drop n (frame_of c)))

set_wlen-Sending :
    (c : List ℕ) (n wlen : ℕ)
    → IsCell c
    → Sending c n wlen
    → set_wlen (record { wrote = n; wlen = wlen }) c ≡ some (length (frame_of c))
unfolding set_wlen
set_wlen-Sending c n wlen h s = ground (arith, frame_size c h)

-- What a turn does.
abbrev pub turn_result :
    (buf : Cbuffer) (c : List ℕ) (n m : ℕ) (out : List ℕ) → Cbuffer × Sender × List ℕ
turn_result buf c n m out =
    if n == m
    then (buf, record { wrote = n; wlen = length (frame_of c) }, [])
    else if m == length (frame_of c)
    then (cbuffer_read_done buf, record { wrote = 0; wlen = length (frame_of c) }, out)
    else (buf, record { wrote = m; wlen = length (frame_of c) }, out)

pub write_turn-Oldest :
    (buf : Cbuffer) (c : List ℕ) (cs : List (List ℕ)) (n wlen room : ℕ)
    → Oldest buf c cs
    → IsCell c
    → Sending c n wlen
    → write_turn buf (record { wrote = n; wlen = wlen }) room
      ≡ some (
          turn_result buf c n
            (n + out_bytes c n room)
            (take (out_bytes c n room) (drop n (frame_of c))))
unfolding write_turn
write_turn-Oldest buf c cs n wlen room o h s =
    let size : length (take (out_bytes c n room) (drop n (frame_of c))) ≡ out_bytes c n room =
      omega (
        arith,
        length-take (out_bytes c n room) (drop n (frame_of c)),
        length-drop n (frame_of c),
        s,
      ) in
    rw
      (
        o.found,
        write_turn,
        o.bytes,
        set_wlen-Sending c n wlen h s,
        part_of_frame c n (out_bytes c n room) h (omega arith),
      )
      (rw size (
        ground (
          arith,
          s,
          h,
          frame_size c h,
          length-load buf.start o.cell buf.cellsize,
          ap length o.bytes,
        )))
