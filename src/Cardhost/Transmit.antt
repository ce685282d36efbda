-- ===== src/Cardhost/Transmit.antt =====
-- src/CCardHost.cpp: however the port takes the bytes, `Run` sends the frames of the ring.
use mathlib.Core.List.{flatten}
use concentrator.Common.{
  ℕ, zero, suc, ◌+◌, ◌≤◌, ◌<◌, ◌≡◌, refl, sym, ap, ◌∙◌, inl, inr, false, some, List, [], ◌∷◌, ◌++◌,
  append-nil, map, All, length, take, drop, ◌==◌, arith, Bool-cases,
}
use concentrator.Cbuffer.{Cbuffer, cbuffer_read_done}
use concentrator.Cbuffer.Queue.{IsValid, contents}
use concentrator.Cardhost.Answer.{Sender, transmit}
use concentrator.Cardhost.Oldest.{contents-Oldest}
use concentrator.Cardhost.Write.{
  IsCell, frame_of, frame_size, Sending, out_bytes, write_turn-Oldest,
}
use concentrator.Cardhost.Sent.{
  any_full, pending, Sent, transmit-nothing, pending-next, pending_more, turn-full, turn-out,
}

-- Between frames.
Sent-between :
    (rooms : List ℕ) (buf : Cbuffer) (cs : List (List ℕ)) (wlen : ℕ)
    → ((c : List ℕ) (cs : List (List ℕ))
        → contents buf ≡ c ∷ cs
        → All IsCell (c ∷ cs)
        → Sent rooms (c ∷ cs) 0 (transmit buf (record { wrote = 0; wlen = wlen }) rooms))
    → IsValid buf
    → contents buf ≡ cs
    → All IsCell cs
    → Sent rooms cs 0 (transmit buf (record { wrote = 0; wlen = wlen }) rooms)
Sent-between rooms buf [] wlen go v holds all = record {
  buf = buf;
  sender = record { wrote = 0; wlen = wlen };
  out = [];
  left = [];
  returns = transmit-nothing rooms buf wlen v holds;
  valid = v;
  holds = holds;
  in_order = refl;
  progress = inl refl;
}
Sent-between rooms buf (c ∷ cs) wlen go v holds all = go c cs holds all

transmit-cells :
    (rooms : List ℕ) (buf : Cbuffer) (c : List ℕ) (cs : List (List ℕ)) (n wlen : ℕ)
    → IsValid buf
    → contents buf ≡ c ∷ cs
    → All IsCell (c ∷ cs)
    → Sending c n wlen
    → Sent rooms (c ∷ cs) n (transmit buf (record { wrote = n; wlen = wlen }) rooms)
unfolding transmit
transmit-cells [] buf c cs n wlen v holds all s = record {
  buf = buf;
  sender = record { wrote = n; wlen = wlen };
  out = [];
  left = c ∷ cs;
  returns = refl;
  valid = v;
  holds = holds;
  in_order = refl;
  progress = inr (inr (pending_more c cs n s.0));
}
transmit-cells (room ∷ rooms) buf c cs n wlen v holds all s =
    let o = contents-Oldest buf c cs v holds in
    let turn = write_turn-Oldest buf c cs n wlen room o all.0 s in
    let m = n + out_bytes c n room in
    let out = take (out_bytes c n room) (drop n (frame_of c)) in
    let size = frame_size c all.0 in
    elim (Bool-cases (room == 0)) [
      | inl full ↦
          turn-full buf c cs n wlen room rooms o all.0 s full
            (transmit-cells rooms buf c cs n (length (frame_of c)) v holds all (s.0, inr refl))
      | inr some_room ↦
          let pos : 0 < out_bytes c n room = ground (arith, s, some_room) in
          let moved : (n == m) ≡ false = ground (arith, pos) in
          elim (Bool-cases (m == length (frame_of c))) [
            | inl last ↦
                let e : m ≡ length (frame_of c) = ground (arith, last) in
                turn-out buf c cs n wlen room rooms o all.0 s (cbuffer_read_done buf)
                  (record { wrote = 0; wlen = length (frame_of c) }) cs 0
                  (turn ∙ rw (moved, last) refl) pos (ap (pending (c ∷ cs)) e ∙ pending-next c cs)
                  (Sent-between rooms (cbuffer_read_done buf) cs (length (frame_of c))
                    (λ d ds held every.
                      transmit-cells rooms (cbuffer_read_done buf) d ds 0 (length (frame_of c))
                        o.valid held every (omega (arith, frame_size d every.0), inl refl))
                    o.valid o.others all.1)
            | inr more ↦
                turn-out buf c cs n wlen room rooms o all.0 s buf
                  (record { wrote = m; wlen = length (frame_of c) }) (c ∷ cs) m
                  (turn ∙ rw (moved, more) refl) pos refl
                  (transmit-cells rooms buf c cs m (length (frame_of c)) v holds all
                    (ground (arith, more, s), inr refl))
          ]
    ]

-- When the ring holds cells that start with frames with one-byte lengths, the bytes on the line and those that
-- are still to be sent are these frames, whole and in order, however the port takes them; the ring holds the
-- last of the cells, whose first may have been sent in part; and cells are left only when the port took nothing
-- in a turn or there were fewer turns than bytes.
pub transmit-Sent :
    (rooms : List ℕ) (buf : Cbuffer) (cs : List (List ℕ)) (wlen : ℕ)
    → IsValid buf
    → contents buf ≡ cs
    → All IsCell cs
    → Sent rooms cs 0 (transmit buf (record { wrote = 0; wlen = wlen }) rooms)
transmit-Sent rooms buf cs wlen v holds all =
    Sent-between rooms buf cs wlen
      (λ c ds held every.
        transmit-cells rooms buf c ds 0 wlen v held every
          (omega (arith, frame_size c every.0), inl refl))
      v holds all

-- When each cell of a valid ring holds a frame with a length of one byte, and there are as many turns as bytes, in each
-- of which the port takes a byte, `Run` sends all frames of the ring and leaves it empty.
pub transmit-every :
    (rooms : List ℕ) (buf : Cbuffer) (cs : List (List ℕ)) (wlen : ℕ)
    → IsValid buf
    → contents buf ≡ cs
    → All IsCell cs
    → any_full rooms ≡ false
    → length (flatten (map frame_of cs)) ≤ length rooms
    → (buf' : Cbuffer) × (s : Sender) × (transmit buf (record { wrote = 0; wlen = wlen }) rooms
        ≡ some (buf', s, flatten (map frame_of cs)))
      × (contents buf' ≡ [])
unfolding flatten
transmit-every rooms buf cs wlen v holds all free enough =
    let r = transmit-Sent rooms buf cs wlen v holds all in
    let none_left : r.left ≡ [] = elim r.progress [
      | inl done ↦ done
      | inr (inl full) ↦ absurd (ground (arith, full, free))
      | inr (inr short) ↦ absurd (omega (arith, short, enough))
    ] in
    let nothing : pending r.left r.sender.wrote ≡ [] =
      ap (λ l. pending l r.sender.wrote) none_left ∙ drop_nothing r.sender.wrote in
    let every : r.out ≡ flatten (map frame_of cs) =
      sym (append-nil r.out) ∙ ap (λ l. r.out ++ l) (sym nothing) ∙ sym r.in_order in
    (
      r.buf,
      r.sender,
      r.returns ∙ ap (λ out. some (r.buf, r.sender, out)) every,
      r.holds ∙ none_left,
    )
  where
    drop_nothing : (n : ℕ) → drop {A = ℕ} n [] ≡ []
    drop_nothing zero = refl
    drop_nothing (suc n) = refl
