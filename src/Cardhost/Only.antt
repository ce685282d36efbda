-- ===== src/Cardhost/Only.antt =====
-- src/CCardHost.cpp: a frame whose command `ParseAndExecute` executes is a request of the terminal.
use mathlib.Core.Path.{subst}
use concentrator.Common.{
  ℕ, zero, suc, ◌+◌, ◌-◌, ◌%◌, ◌≤◌, ◌<◌, ◌≡◌, refl, sym, ap, ap₂, ◌∙◌, Bool, ◌||◌, true, false,
  some, List, [], ◌∷◌, ◌++◌, length, length-take, length-drop, ◌==◌, arith, dec_lt, take, drop,
  take-append, get_or, replicate,
}
use concentrator.Common.Upto.{and_both}
use concentrator.Common.Parts.{
  take-drop, drop-drop, take_of_append, drop_of_append, get_or-append_left, drop-cons,
}
use concentrator.Utils.Crc.{generate_crc, crc_loop}
use concentrator.Cardhost.{pktlen}
use concentrator.Cardhost.Turn.{IsFrame}
use concentrator.Cardhost.Answer.{be16}
use concentrator.Cardhost.Command.{Verdict, accepted, all_equal, buffer_of, parse_command}
use concentrator.Cardhost.Checks.{Summed, Addressed, parse_command-Addressed}
use concentrator.Cardhost.Request.{request_body, request}

-- The head of a frame up to its addresses.
abbrev preamble : ℕ → List ℕ
preamble n = 85 ∷ n ∷ 0 ∷ 0 ∷ 0 ∷ 0 ∷ 0 ∷ 0 ∷ 255 ∷ 255 ∷ 255 ∷ 255 ∷ 255 ∷ 255 ∷ []

all_equal-replicate :
    (v : ℕ) (xs : List ℕ) (k : ℕ) → all_equal v xs ≡ true → length xs ≡ k → xs ≡ replicate k v
all_equal-replicate v [] zero e size = refl
all_equal-replicate v [] (suc k) e size = absurd (omega arith)
all_equal-replicate v (x ∷ xs) zero e size = absurd (omega arith)
all_equal-replicate v (x ∷ xs) (suc k) e size =
    let (here, there) = and_both (x == v) (all_equal v xs) e in
    ap₂ ◌∷◌ (ground (arith, here)) (all_equal-replicate v xs k there (omega arith))

-- The part of a frame from a place on, in its buffer.
part_of_buffer :
    (f : List ℕ) (i n : ℕ) → i + n ≤ length f → take n (drop i (buffer_of f)) ≡ take n (drop i f)
part_of_buffer f i n h =
    ap (take n) (drop_of_append i f (replicate (pktlen - length f) 0) (omega arith))
    ∙ take_of_append n (drop i f) (replicate (pktlen - length f) 0) (omega (arith, length-drop i f))

byte_of_buffer : (f : List ℕ) (i : ℕ) → i < length f → get_or (buffer_of f) i 0 ≡ get_or f i 0
byte_of_buffer f i h = get_or-append_left f (replicate (pktlen - length f) 0) i 0 h

-- An address of equal bytes.
address_of :
    (f : List ℕ) (i v : ℕ)
    → i + 6 ≤ length f
    → all_equal v (take 6 (drop i (buffer_of f))) ≡ true
    → drop i f ≡ replicate 6 v ++ drop (i + 6) f
address_of f i v h e =
    sym (take-drop 6 (drop i f))
    ∙ ap₂ ◌++◌
        (all_equal-replicate v (take 6 (drop i f)) 6
          (ap (all_equal v) (sym (part_of_buffer f i 6 h)) ∙ e)
          (omega (arith, length-take 6 (drop i f), length-drop i f)))
        (drop-drop i 6 f)

head_of :
    (f : List ℕ)
    → 14 ≤ length f
    → get_or (buffer_of f) 0 0 ≡ 85
    → all_equal 0 (take 6 (drop 2 (buffer_of f))) ≡ true
    → all_equal 255 (take 6 (drop 8 (buffer_of f))) ≡ true
    → f ≡ preamble (get_or f 1 0) ++ drop 14 f
head_of f h head zeros ones =
    drop-cons 0 f 0 (omega arith)
    ∙ ap₂ ◌∷◌ (sym (byte_of_buffer f 0 (omega arith)) ∙ head) (
        drop-cons 1 f 0 (omega arith)
        ∙ ap (λ l. get_or f 1 0 ∷ l)
            (address_of f 2 0 (omega arith) zeros
              ∙ ap (λ l. replicate 6 0 ++ l) (address_of f 8 255 (omega arith) ones)))

-- A frame that is a request with its checksum.
pub record IsRequest (f : List ℕ) (code : ℕ) (data' : List ℕ) : Type 0 where
  pub crc : ℕ
  pub made : generate_crc (request_body code data') ≡ some crc
  pub is_request : f ≡ request code data' crc

module _ (f : List ℕ) (k : ℕ) (whole : length f ≡ 17 + k)
    (headed : f ≡ preamble (3 + k) ++ drop 14 f) (s : Summed (buffer_of f) (15 + k)) where
  payload : List ℕ
  payload = take k (drop 15 f)

  payload_size : length payload ≡ k
  unfolding payload
  payload_size = omega (arith, length-take k (drop 15 f), length-drop 15 f)

  checksum : drop (15 + k) f ≡ be16 s.crc
  checksum =
      drop-cons (15 + k) f 0 (omega arith)
      ∙ ap₂ ◌∷◌ (sym (byte_of_buffer f (15 + k) (omega arith)) ∙ sym s.high) (
          drop-cons (suc (15 + k)) f 0 (omega arith)
          ∙ ap₂ ◌∷◌ last (nothing_left (suc (suc (15 + k))) f (omega arith)))
    where
      next : suc (15 + k) ≡ 15 + k + 1
      next = omega arith

      last : get_or f (suc (15 + k)) 0 ≡ s.crc % 256
      last = rw next (sym (byte_of_buffer f (15 + k + 1) (omega arith)) ∙ sym s.low)

      nothing_left : (n : ℕ) (xs : List ℕ) → length xs ≤ n → drop n xs ≡ []
      nothing_left zero [] h = refl
      nothing_left (suc n) [] h = refl
      nothing_left zero (x ∷ xs) h = absurd (omega arith)
      nothing_left (suc n) (x ∷ xs) h = nothing_left n xs (omega arith)

  tail_of : drop 14 f ≡ get_or f 14 0 ∷ (payload ++ be16 s.crc)
  unfolding payload
  tail_of =
      drop-cons 14 f 0 (omega arith)
      ∙ ap (λ l. get_or f 14 0 ∷ l)
          (sym (take-drop k (drop 15 f))
            ∙ ap (λ l. take k (drop 15 f) ++ l) (drop-drop 15 k f ∙ checksum))

  frame-request : f ≡ request (get_or f 14 0) payload s.crc
  frame-request = headed ∙ ap₂ (λ n l. preamble n ++ l) (omega (arith, payload_size)) tail_of

  summed_part : take (15 + k) (buffer_of f) ≡ request_body (get_or f 14 0) payload
  summed_part =
      part_of_buffer f 0 (15 + k) (omega arith)
      ∙ ap₂ take {y = length (request_body (get_or f 14 0) payload)} (omega (arith, payload_size))
          frame-request
      ∙ take-append (request_body (get_or f 14 0) payload) (be16 s.crc)

  frame-IsRequest : IsRequest f (get_or (buffer_of f) 14 0) (take k (drop 15 (buffer_of f)))
  unfolding payload
  frame-IsRequest =
      rw (byte_of_buffer f 14 (omega arith), part_of_buffer f 15 k (omega arith))
        (record {
          crc = s.crc;
          made = sym (ap generate_crc summed_part) ∙ s.made;
          is_request = frame-request;
        })

-- The codes of the `switch`.
abbrev pub is_command : ℕ → Bool
is_command code = (code == 1) || (code == 2) || (code == 5) || (code == 245)

some_value : {a b : ℕ} → some a ≡ some b → a ≡ b
some_value e = cc

-- Frames that announce no room for a code and a checksum: the checksum is wrong, or stands where the code is
-- read and is none.
short-frame :
    (n : ℕ) (t : List ℕ)
    → n < 3
    → Summed (preamble n ++ t) (12 + n)
    → is_command (get_or t 0 0) ≡ false
unfolding generate_crc crc_loop
short-frame zero t h s = absurd (omega (arith, s.high, some_value s.made))
short-frame (suc zero) t h s = absurd (omega (arith, s.high, some_value s.made))
short-frame (suc (suc zero)) t h s = ground (arith, s.high, some_value s.made)
short-frame (suc (suc (suc n))) t h s = absurd (omega arith)

projected : Verdict → ℕ × List ℕ × ℕ
projected (accepted code data' len) = (code, data', len)
projected _ = (0, [], 0)

-- When the checks let a frame with a one-byte length pass and its code is one of the `switch`, the frame is a
-- request with that code, with the data that the command gets and with the right checksum.
pub parse_command-only :
    (f : List ℕ) (code : ℕ) (data' : List ℕ) (len : ℕ)
    → IsFrame f
    → parse_command (buffer_of f) ≡ accepted code data' len
    → is_command code ≡ true
    → IsRequest f code (take len data') × (length f ≡ 17 + len)
unfolding projected
parse_command-only f code data' len frame e known =
    let n = get_or f 1 0 in
    let same : get_or (buffer_of f) 1 0 ≡ n = byte_of_buffer f 1 (omega (arith, frame)) in
    let (head, a₀) = parse_command-Addressed (buffer_of f) (omega (arith, same, frame)) e in
    let a : Addressed (buffer_of f) n 2 code data' len =
      subst (λ m. Addressed (buffer_of f) m 2 code data' len) same a₀ in
    let headed = head_of f (omega (arith, frame)) head a.source a.target in
    let e₁ = ap (λ v. (projected v).0) a.fields in
    let e₃ = ap (λ v. (projected v).2) a.fields in
    let s : Summed (buffer_of f) (12 + n) =
      subst (λ i. Summed (buffer_of f) i) (omega (arith, frame)) a.summed in
    elim (dec_lt n 3) [
      | yes few ↦
          let rest = drop 14 f ++ replicate (pktlen - length f) 0 in
          let split : buffer_of f ≡ preamble n ++ rest =
            ap (λ l. l ++ replicate (pktlen - length f) 0) headed in
          let none_such = short-frame n rest few (subst (λ b. Summed b (12 + n)) split s) in
          let e₀ : get_or rest 0 0 ≡ code = sym (ap (λ b. get_or b 14 0) split) ∙ e₁ in
          absurd (ground (arith, none_such, ap is_command e₀, known))
      | no many ↦
          let k = n - 3 in
          let e₄ : k ≡ len = omega (arith, e₃, frame, many) in
          let r : IsRequest f (get_or (buffer_of f) 14 0) (take k (drop 15 (buffer_of f))) =
            frame-IsRequest f k (omega (arith, frame, many))
              (headed ∙ ap (λ m. preamble m ++ drop 14 f) (omega (arith, many)))
              (subst (λ i. Summed (buffer_of f) i) (omega (arith, many)) s) in
          (
            subst (λ v. IsRequest f (projected v).0 (take (projected v).2 (projected v).1)) a.fields
                (subst
                  (λ j. IsRequest f (get_or (buffer_of f) 14 0) (take j (drop 15 (buffer_of f))))
                  (e₄ ∙ sym e₃) r),
            omega (arith, frame, many, e₄),
          )
    ]
