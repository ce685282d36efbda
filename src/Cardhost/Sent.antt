-- ===== src/Cardhost/Sent.antt =====
-- src/CCardHost.cpp: what one turn of `Run` that writes adds to those after it.
use mathlib.Core.List.{flatten}
use concentrator.Common.{
  ℕ, ◌+◌, ◌≤◌, ◌<◌, ◌≡◌, refl, sym, ap, ap₂, ◌∙◌, ◌⊎◌, inl, inr, Bool, true, false, ◌||◌, Option,
  some, List, [], ◌∷◌, ◌++◌, append_assoc, map, length, length-append, length-take, length-drop,
  take, drop, drop-append, ◌==◌, arith,
}
use concentrator.Common.Parts.{take-drop, drop-drop, take_of_append, drop_of_append}
use concentrator.Cbuffer.{Cbuffer}
use concentrator.Cbuffer.Queue.{IsValid, contents}
use concentrator.Cardhost.Answer.{Sender, write_turn, transmit}
use concentrator.Cardhost.Oldest.{Oldest, contents-none}
use concentrator.Cardhost.Write.{IsCell, frame_of, Sending, out_bytes, write_turn-Oldest}

-- The port is writable and takes nothing.
abbrev pub any_full : List ℕ → Bool
any_full [] = false
any_full (room ∷ rooms) = (room == 0) || any_full rooms

-- The bytes of some cells that are still to be sent, after `n` bytes of the first.
abbrev pub pending : (cs : List (List ℕ)) (n : ℕ) → List ℕ
pending cs n = drop n (flatten (map frame_of cs))

-- What the turns on some cells come to: the ring holds the last of them; the bytes on the line and those still
-- to be sent are the frames, in order; and cells are left only for want of room or turns.
pub record Sent (rooms : List ℕ) (cs : List (List ℕ)) (n : ℕ)
    (o : Option (Cbuffer × Sender × List ℕ)) : Type 0 where
  pub buf : Cbuffer
  pub sender : Sender
  pub out : List ℕ
  pub left : List (List ℕ)
  pub returns : o ≡ some (buf, sender, out)
  pub valid : IsValid buf
  pub holds : contents buf ≡ left
  pub in_order : pending cs n ≡ out ++ pending left sender.wrote
  pub progress : (left ≡ []) ⊎ (any_full rooms ≡ true) ⊎ (length rooms < length (pending cs n))

pub transmit-nothing :
    (rooms : List ℕ) (buf : Cbuffer) (wlen : ℕ)
    → IsValid buf
    → contents buf ≡ []
    → transmit buf (record { wrote = 0; wlen = wlen }) rooms
      ≡ some (buf, record { wrote = 0; wlen = wlen }, [])
unfolding transmit write_turn
transmit-nothing [] buf wlen v none_held = refl
transmit-nothing (room ∷ rooms) buf wlen v none_held =
    rw (contents-none buf v none_held, write_turn, transmit-nothing rooms buf wlen v none_held) refl

pending-out :
    (c : List ℕ) (cs : List (List ℕ)) (n t : ℕ)
    → n + t ≤ length (frame_of c)
    → pending (c ∷ cs) n ≡ take t (drop n (frame_of c)) ++ pending (c ∷ cs) (n + t)
unfolding flatten
pending-out c cs n t fits =
    let rest = flatten (map frame_of cs) in
    sym (take-drop t (pending (c ∷ cs) n))
    ∙ ap₂ ◌++◌
        (ap (take t) (drop_of_append n (frame_of c) rest (omega arith))
          ∙ take_of_append t (drop n (frame_of c)) rest (omega (arith, length-drop n (frame_of c))))
        (drop-drop n t (frame_of c ++ rest))

pub pending-next :
    (c : List ℕ) (cs : List (List ℕ)) → pending (c ∷ cs) (length (frame_of c)) ≡ pending cs 0
unfolding flatten
pending-next c cs = drop-append (frame_of c) (flatten (map frame_of cs))

pub pending_more :
    (c : List ℕ) (cs : List (List ℕ)) (n : ℕ)
    → n < length (frame_of c)
    → 0 < length (pending (c ∷ cs) n)
unfolding flatten
pending_more c cs n h = omega (
  arith,
  length-drop n (frame_of c ++ flatten (map frame_of cs)),
  length-append (frame_of c) (flatten (map frame_of cs)),
)

-- A turn that ends, and one that does not end, the oldest cell's frame.
module _ (buf : Cbuffer) (c : List ℕ) (cs : List (List ℕ)) (n wlen room : ℕ) (rooms : List ℕ)
    (o : Oldest buf c cs) (h : IsCell c) (s : Sending c n wlen) where
  abbrev m : ℕ
  m = n + out_bytes c n room

  abbrev turns : Option (Cbuffer × Sender × List ℕ)
  turns = transmit buf (record { wrote = n; wlen = wlen }) (room ∷ rooms)

  abbrev sent_on : (k : ℕ) → Option (Cbuffer × Sender × List ℕ)
  sent_on k = transmit buf (record { wrote = k; wlen = length (frame_of c) }) rooms

  pub turn-full :
      (room == 0) ≡ true → Sent rooms (c ∷ cs) n (sent_on n) → Sent (room ∷ rooms) (c ∷ cs) n turns
  unfolding transmit
  turn-full full next =
      let nothing : (n == n + out_bytes c n room) ≡ true = ground arith in
      record {
        buf = next.buf;
        sender = next.sender;
        out = next.out;
        left = next.left;
        returns = rw (write_turn-Oldest buf c cs n wlen room o h s, nothing, next.returns) refl;
        valid = next.valid;
        holds = next.holds;
        in_order = next.in_order;
        progress = inr (inl (rw full refl));
      }

  pub turn-out :
      (buf' : Cbuffer) (s' : Sender) (ds : List (List ℕ)) (k : ℕ)
      → write_turn buf (record { wrote = n; wlen = wlen }) room
        ≡ some (buf', s', take (out_bytes c n room) (drop n (frame_of c)))
      → 0 < out_bytes c n room
      → pending (c ∷ cs) (n + out_bytes c n room) ≡ pending ds k
      → Sent rooms ds k (transmit buf' s' rooms)
      → Sent (room ∷ rooms) (c ∷ cs) n turns
  unfolding transmit
  turn-out buf' s' ds k turn some_out rest next =
      let order : pending (c ∷ cs) n
          ≡ take (out_bytes c n room) (drop n (frame_of c)) ++ pending ds k =
        pending-out c cs n (out_bytes c n room) (omega arith)
        ∙ ap (λ l. take (out_bytes c n room) (drop n (frame_of c)) ++ l) rest in
      record {
        buf = next.buf;
        sender = next.sender;
        out = take (out_bytes c n room) (drop n (frame_of c)) ++ next.out;
        left = next.left;
        returns = rw (turn, next.returns) refl;
        valid = next.valid;
        holds = next.holds;
        in_order =
            order
            ∙ ap (λ l. take (out_bytes c n room) (drop n (frame_of c)) ++ l) next.in_order
            ∙ sym (
                append_assoc (take (out_bytes c n room) (drop n (frame_of c))) next.out
                  (pending next.left next.sender.wrote));
        progress = elim next.progress [
          | inl done ↦ inl done
          | inr (inl full) ↦ inr (inl (ground (arith, full)))
          | inr (inr short) ↦ inr (
              inr (
                omega (
                  arith,
                  short,
                  ap length order,
                  length-append (take (out_bytes c n room) (drop n (frame_of c))) (pending ds k),
                  length-take (out_bytes c n room) (drop n (frame_of c)),
                  length-drop n (frame_of c),
                  s,
                )))
        ];
      }
