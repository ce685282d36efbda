-- ===== src/Cardhost/Receive.antt =====
-- src/CCardHost.cpp: however the port splits the incoming bytes, `Run` passes on the frames.
use concentrator.Common.{
  ℕ, ◌+◌, ◌<◌, refl, sym, ap, append_assoc, ◌∙◌, inl, inr, List, [], ◌∷◌, ◌++◌, length,
  length-append, length-drop, All, arith, Bool-cases, take, drop, ◌==◌,
}
use mathlib.Core.List.{flatten}
use concentrator.Common.Parts.{take-drop}
use concentrator.Cardhost.{receive}
use concentrator.Cardhost.Turn.{IsFrame, wanted, awaiting, Awaits, turn_bytes}
use concentrator.Cardhost.Received.{
  Received, receive-nothing, Received-idle, Received-part, Received-last,
}

-- Between frames: the turns on a first frame are enough.
Received-between :
    (rooms : List ℕ) (fs : List (List ℕ)) (rlen : ℕ)
    → ((f : List ℕ) (fs : List (List ℕ))
        → All IsFrame (f ∷ fs)
        → Received rooms
            (f ∷ fs)
            (f ++ flatten fs)
            (receive (record { cmd = []; rlen = rlen }) rooms (f ++ flatten fs)))
    → All IsFrame fs
    → Received rooms fs (flatten fs) (receive (record { cmd = []; rlen = rlen }) rooms (flatten fs))
unfolding flatten
Received-between rooms [] rlen go all =
    let (s, none_kept, e) = receive-nothing rooms rlen in
    record {
      state = s;
      rest = [];
      frames = [];
      left = [];
      returns = e;
      in_order = refl;
      kept = ap (λ l. l ++ []) none_kept;
      progress = inl refl;
    }
Received-between rooms (f ∷ fs) rlen go all = go f fs all

receive-frames :
    (rooms : List ℕ) (f : List ℕ) (fs : List (List ℕ)) (n rlen : ℕ)
    → All IsFrame (f ∷ fs)
    → Awaits f n rlen
    → Received rooms
        (f ∷ fs)
        (drop n f ++ flatten fs)
        (receive (awaiting f n rlen) rooms (drop n f ++ flatten fs))
unfolding receive flatten
receive-frames [] f fs n rlen all a = record {
  state = awaiting f n rlen;
  rest = drop n f ++ flatten fs;
  frames = [];
  left = f ∷ fs;
  returns = refl;
  in_order = refl;
  kept =
      sym (append_assoc (take n f) (drop n f) (flatten fs))
      ∙ ap (λ l. l ++ flatten fs) (take-drop n f);
  progress = inr (inr (omega (arith, length-append (drop n f) (flatten fs), length-drop n f, a.0)));
}
receive-frames (room ∷ rooms) f fs n rlen all a = elim (Bool-cases (room == 0)) [
  | inl idle ↦
      Received-idle room rooms f fs n rlen all.0 a idle
        (receive-frames rooms f fs n (wanted f n) all (a.0, inr refl))
  | inr some_room ↦
      let pos : 0 < turn_bytes f n room = ground (arith, all.0, a) in
      elim (Bool-cases (n + turn_bytes f n room == length f)) [
        | inl last ↦ Received-last room rooms f fs n rlen all.0 a pos last (
            Received-between rooms fs (length f)
              (λ f' fs' all'.
                receive-frames rooms f' fs' 0 (length f) all' (ground (arith, all'.0), inl refl))
              all.1)
        | inr more ↦
            let m = n + turn_bytes f n room in
            Received-part room rooms f fs n rlen all.0 a pos more
              (receive-frames rooms f fs m (wanted f m) all (ground (arith, all.0, more), inr refl))
      ]
]

-- When the terminal sends frames with one-byte lengths, `Run` passes on the first of them, whole and in
-- order, however the port splits the bytes; what it keeps of a frame and what still comes are the other
-- frames; and a frame is missing only when a turn found no byte or there were fewer turns than bytes.
pub receive-Received :
    (rooms : List ℕ) (fs : List (List ℕ)) (rlen : ℕ)
    → All IsFrame fs
    → Received rooms fs (flatten fs) (receive (record { cmd = []; rlen = rlen }) rooms (flatten fs))
receive-Received rooms fs rlen all =
    Received-between rooms fs rlen
      (λ f' fs' all'. receive-frames rooms f' fs' 0 rlen all' (ground (arith, all'.0), inl refl))
      all
