-- ===== src/Cardhost/Received.antt =====
-- src/CCardHost.cpp: what one turn of `Run` that reads adds to those after it.
use concentrator.Common.{
  ℕ, zero, suc, ◌+◌, ◌<◌, ◌≡◌, refl, ap, ◌⊎◌, inl, inr, Bool, true, false, Option, some, none, List,
  [], ◌∷◌, ◌++◌, length, length-append, length-drop, arith, take, drop, min, ◌==◌, ◌||◌,
}
use mathlib.Core.List.{flatten}
use concentrator.Cardhost.{Receiver, read_turn, receive}
use concentrator.Cardhost.Turn.{
  IsFrame, wanted, awaiting, Awaits, turn_bytes, read_turn-idle, read_turn-some,
}

-- The port is said to be readable and has nothing.
abbrev pub any_idle : List ℕ → Bool
any_idle [] = false
any_idle (room ∷ rooms) = (room == 0) || any_idle rooms

-- What the turns on the bytes of some frames come to: the first frames were passed on, in order; what is
-- kept and what still comes are the other frames; and a frame is missing only for want of turns.
pub record Received (rooms : List ℕ) (fs : List (List ℕ)) (incoming : List ℕ)
    (o : Option (Receiver × List ℕ × List (List ℕ))) : Type 0 where
  pub state : Receiver
  pub rest : List ℕ
  pub frames : List (List ℕ)
  pub left : List (List ℕ)
  pub returns : o ≡ some (state, rest, frames)
  pub in_order : fs ≡ frames ++ left
  pub kept : state.cmd ++ rest ≡ flatten left
  pub progress : (left ≡ []) ⊎ (any_idle rooms ≡ true) ⊎ (length rooms < length incoming)

-- With nothing to read the receiver stays empty.
read_turn-nothing :
    (rlen room : ℕ)
    → read_turn (record { cmd = []; rlen = rlen }) [] room
      ≡ some (record { cmd = []; rlen = 4 }, [], none)
unfolding read_turn
read_turn-nothing rlen room = rw (take_nil (min room 4)) refl
  where
    take_nil : (n : ℕ) → take {A = ℕ} n [] ≡ []
    take_nil zero = refl
    take_nil (suc n) = refl

pub receive-nothing :
    (rooms : List ℕ) (rlen : ℕ)
    → (s : Receiver) × (s.cmd ≡ [])
      × (receive (record { cmd = []; rlen = rlen }) rooms [] ≡ some (s, [], []))
unfolding receive
receive-nothing [] rlen = (record { cmd = []; rlen = rlen }, refl, refl)
receive-nothing (room ∷ rooms) rlen =
    let (s, none_kept, e) = receive-nothing rooms 4 in
    (s, none_kept, rw (read_turn-nothing rlen room, e) refl)

-- A turn that gets nothing.
pub Received-idle :
    (room : ℕ) (rooms : List ℕ) (f : List ℕ) (fs : List (List ℕ)) (n rlen : ℕ)
    → IsFrame f
    → Awaits f n rlen
    → (room == 0) ≡ true
    → Received rooms
        (f ∷ fs)
        (drop n f ++ flatten fs)
        (receive (awaiting f n (wanted f n)) rooms (drop n f ++ flatten fs))
    → Received
        (room ∷ rooms)
        (f ∷ fs)
        (drop n f ++ flatten fs)
        (receive (awaiting f n rlen) (room ∷ rooms) (drop n f ++ flatten fs))
unfolding receive
Received-idle room rooms f fs n rlen frame a idle next = record {
  state = next.state;
  rest = next.rest;
  frames = next.frames;
  left = next.left;
  returns =
      rw (read_turn-idle f (flatten fs) n rlen room frame a (ground arith), next.returns) refl;
  in_order = next.in_order;
  kept = next.kept;
  progress = inr (inl (rw idle refl));
}

-- A turn that gets some bytes of a frame, but not the last.
pub Received-part :
    (room : ℕ) (rooms : List ℕ) (f : List ℕ) (fs : List (List ℕ)) (n rlen : ℕ)
    → IsFrame f
    → Awaits f n rlen
    → 0 < turn_bytes f n room
    → (n + turn_bytes f n room == length f) ≡ false
    → Received rooms (f ∷ fs) (drop (n + turn_bytes f n room) f ++ flatten fs) (
        receive
          (awaiting f (n + turn_bytes f n room) (wanted f (n + turn_bytes f n room)))
          rooms
          (drop (n + turn_bytes f n room) f ++ flatten fs))
    → Received
        (room ∷ rooms)
        (f ∷ fs)
        (drop n f ++ flatten fs)
        (receive (awaiting f n rlen) (room ∷ rooms) (drop n f ++ flatten fs))
unfolding receive
Received-part room rooms f fs n rlen frame a pos more next = record {
  state = next.state;
  rest = next.rest;
  frames = next.frames;
  left = next.left;
  returns = rw (read_turn-some f (flatten fs) n rlen room frame a pos, more, next.returns) refl;
  in_order = next.in_order;
  kept = next.kept;
  progress = elim next.progress [
    | inl done ↦ inl done
    | inr (inl idle) ↦ inr (inl (ground (arith, idle)))
    | inr (inr short) ↦ inr (
        inr (
          omega (
            arith,
            short,
            length-append (drop n f) (flatten fs),
            length-append (drop (n + turn_bytes f n room) f) (flatten fs),
            length-drop n f,
            length-drop (n + turn_bytes f n room) f,
            a.0,
          )))
  ];
}

-- A turn that gets the last bytes of a frame.
pub Received-last :
    (room : ℕ) (rooms : List ℕ) (f : List ℕ) (fs : List (List ℕ)) (n rlen : ℕ)
    → IsFrame f
    → Awaits f n rlen
    → 0 < turn_bytes f n room
    → (n + turn_bytes f n room == length f) ≡ true
    → Received rooms fs (flatten fs) (receive (awaiting f 0 (length f)) rooms (flatten fs))
    → Received
        (room ∷ rooms)
        (f ∷ fs)
        (drop n f ++ flatten fs)
        (receive (awaiting f n rlen) (room ∷ rooms) (drop n f ++ flatten fs))
unfolding receive
Received-last room rooms f fs n rlen frame a pos last next = record {
  state = next.state;
  rest = next.rest;
  frames = f ∷ next.frames;
  left = next.left;
  returns = rw (read_turn-some f (flatten fs) n rlen room frame a pos, last, next.returns) refl;
  in_order = ap (λ l. f ∷ l) next.in_order;
  kept = next.kept;
  progress = elim next.progress [
    | inl done ↦ inl done
    | inr (inl idle) ↦ inr (inl (ground (arith, idle)))
    | inr (inr short) ↦
        inr
          (inr (omega (arith, short, length-append (drop n f) (flatten fs), length-drop n f, a.0)))
  ];
}
