-- ===== src/Valve/Cutting.antt =====
-- src/CValveMonitor.cpp: how `Run` cuts the first bytes of some answers of the valves.
use concentrator.Common.{
  ℕ, zero, suc, ◌+◌, ◌≤◌, ◌<◌, ◌≡◌, refl, sym, ap, ◌∙◌, ◌⊎◌, inl, inr, true, false, not, ◌&&◌,
  Option, some, List, [], ◌∷◌, ◌++◌, length, length-drop, ltb, leb, ◌==◌, arith, Bool-cases, take,
  drop, get_or, All, take-append, drop-append,
}
use mathlib.Core.List.{flatten}
use concentrator.Common.File.{take_enough}
use concentrator.Common.Parts.{take_of_append, drop_of_append, get_or-append_left}
use concentrator.Valve.Reading.{skip_wrong, recover, announced, cut_acks}

-- A whole answer with a length of one byte, to the port of the valves.
abbrev pub IsAck : List ℕ → Type 0
IsAck f = (get_or f 4 0 ≡ 15) × (get_or f 6 0 < 255) × (length f ≡ 9 + get_or f 6 0)

-- The bytes of a list and those before it agree.
same_byte :
    (b rest f tail : List ℕ) (i : ℕ)
    → b ++ rest ≡ f ++ tail
    → i < length b
    → i < length f
    → get_or b i 0 ≡ get_or f i 0
same_byte b rest f tail i e hb hf =
    sym (get_or-append_left b rest i 0 hb)
    ∙ ap (λ (l : List ℕ). get_or l i 0) e
    ∙ get_or-append_left f tail i 0 hf

pub no_bytes : (b rest : List ℕ) → b ++ rest ≡ [] → b ≡ []
no_bytes [] rest e = refl
no_bytes (x ∷ b) rest e = absurd (omega (arith, ap length e))

-- Nothing is skipped where the port number is in its place, or is not yet there.
pub recover-aligned : (b : List ℕ) → (length b ≤ 5) ⊎ (get_or b 4 0 ≡ 15) → recover b ≡ b
unfolding recover skip_wrong
recover-aligned [] a = refl
recover-aligned (x ∷ b) a =
    let stays : (ltb 5 (suc (length b)) && not (get_or (x ∷ b) 4 0 == 15)) ≡ false =
      ground (arith, a) in
    rw stays (take_enough (x ∷ b) (length (x ∷ b)) (omega arith))

pub aligned :
    (b rest : List ℕ) (fs : List (List ℕ))
    → All IsAck fs
    → b ++ rest ≡ flatten fs
    → (length b ≤ 5) ⊎ (get_or b 4 0 ≡ 15)
unfolding flatten
aligned b rest [] all e = inl (omega (arith, ap length (no_bytes b rest e)))
aligned b rest (f ∷ fs) all e = elim (Bool-cases (ltb 5 (length b))) [
  | inl more ↦
      inr (same_byte b rest f (flatten fs) 4 e (ground arith) (omega (arith, all.0)) ∙ all.0.0)
  | inr few ↦ inl (ground arith)
]

-- What the bytes of a part of an answer tell of its length is not enough to cut.
announced-part :
    (b rest f tail : List ℕ) (rlen : ℕ)
    → IsAck f
    → b ++ rest ≡ f ++ tail
    → length b < length f
    → (rlen ≡ 0) ⊎ (6 < length b)
    → (len : ℕ) × (announced b rlen ≡ some len)
      × ((leb len (length b) && ltb 0 len) ≡ false)
      × ((len ≡ 0) ⊎ (6 < length b))
unfolding announced
announced-part b rest f tail rlen ack e part idle = elim (Bool-cases (ltb 6 (length b))) [
  | inl told ↦
      let byte : get_or b 6 0 ≡ get_or f 6 0 =
        same_byte b rest f tail 6 e (ground arith) (omega (arith, ack)) in
      let one : (get_or f 6 0 == 255) ≡ false = ground (arith, ack) in
      (
        length f,
        rw (told, byte, one) (ap some (omega (arith, ack))),
        ground (arith, part),
        inr (ground arith),
      )
  | inr early ↦
      let none_yet : rlen ≡ 0 = ground arith in
      let early' : ltb 8 (length b) ≡ false = ground arith in
      (0, rw (early, early', none_yet) refl, ground arith, inl refl)
]

announced-whole :
    (b rest f tail : List ℕ) (rlen : ℕ)
    → IsAck f
    → b ++ rest ≡ f ++ tail
    → length f ≤ length b
    → (announced b rlen ≡ some (length f))
      × ((leb (length f) (length b) && ltb 0 (length f)) ≡ true)
unfolding announced
announced-whole b rest f tail rlen ack e whole =
    let byte : get_or b 6 0 ≡ get_or f 6 0 =
      same_byte b rest f tail 6 e (omega (arith, ack)) (omega (arith, ack)) in
    let told : ltb 6 (length b) ≡ true = ground (arith, ack) in
    let one : (get_or f 6 0 == 255) ≡ false = ground (arith, ack) in
    (rw (told, byte, one) (ap some (omega (arith, ack))), ground (arith, ack))

-- The first answer of the bytes, and those behind it.
first_whole :
    (b rest f tail : List ℕ)
    → b ++ rest ≡ f ++ tail
    → length f ≤ length b
    → (take (length f) b ≡ f) × (drop (length f) b ++ rest ≡ tail)
first_whole b rest f tail e whole = (
  sym (take_of_append (length f) b rest whole)
      ∙ ap (λ (l : List ℕ). take (length f) l) e
      ∙ take-append f tail,
  sym (drop_of_append (length f) b rest whole)
      ∙ ap (λ (l : List ℕ). drop (length f) l) e
      ∙ drop-append f tail,
)

-- Only a part of the first answer is there.
abbrev pub IsPart : List ℕ → List (List ℕ) → Type 0
IsPart b fs = (f : List ℕ) (later : List (List ℕ)) → fs ≡ f ∷ later → length b < length f

-- What the loop makes of the first bytes of some answers.
pub record Cut (fs : List (List ℕ)) (rest : List ℕ) (o : Option (List ℕ × ℕ × List (List ℕ)))
    : Type 0 where
  pub left : List ℕ
  pub rlen : ℕ
  pub frames : List (List ℕ)
  pub later : List (List ℕ)
  pub returns : o ≡ some (left, rlen, frames)
  pub in_order : fs ≡ frames ++ later
  pub kept : left ++ rest ≡ flatten later
  pub acks : All IsAck later
  pub part : IsPart left later
  pub idle : (rlen ≡ 0) ⊎ (6 < length left)

pub IsPart-nothing : (b : List ℕ) → IsPart b []
IsPart-nothing b f later e = absurd (omega (arith, ap length e))

pub IsPart-first : (b f : List ℕ) (fs : List (List ℕ)) → length b < length f → IsPart b (f ∷ fs)
IsPart-first b f fs short f' later e = let same : f ≡ f' = cc in rw (← same) short

IsPart-empty : (b : List ℕ) (fs : List (List ℕ)) → length b ≤ 0 → All IsAck fs → IsPart b fs
IsPart-empty b [] none_yet all = IsPart-nothing b
IsPart-empty b (f ∷ fs) none_yet all = IsPart-first b f fs (omega (arith, all.0))

-- The loop stops at a part of an answer.
Cut-part :
    (fuel : ℕ) (b rest f : List ℕ) (fs : List (List ℕ)) (rlen : ℕ)
    → All IsAck (f ∷ fs)
    → b ++ rest ≡ flatten (f ∷ fs)
    → length b < length f
    → (rlen ≡ 0) ⊎ (6 < length b)
    → Cut (f ∷ fs) rest (cut_acks (suc fuel) b rlen)
unfolding cut_acks flatten
Cut-part fuel b rest f fs rlen all e short idle =
    let (len, told, stops, idle') = announced-part b rest f (flatten fs) rlen all.0 e short idle in
    record {
      left = b;
      rlen = len;
      frames = [];
      later = f ∷ fs;
      returns = rw (told, stops) refl;
      in_order = refl;
      kept = e;
      acks = all;
      part = IsPart-first b f fs short;
      idle = idle';
    }

pub cut_acks-Cut :
    (fuel : ℕ) (b rest : List ℕ) (fs : List (List ℕ)) (rlen : ℕ)
    → length b ≤ fuel
    → All IsAck fs
    → b ++ rest ≡ flatten fs
    → (rlen ≡ 0) ⊎ (6 < length b)
    → Cut fs rest (cut_acks fuel b rlen)
unfolding cut_acks flatten announced
cut_acks-Cut zero b rest fs rlen enough all e idle = record {
  left = b;
  rlen = rlen;
  frames = [];
  later = fs;
  returns = refl;
  in_order = refl;
  kept = e;
  acks = all;
  part = IsPart-empty b fs enough all;
  idle = idle;
}
cut_acks-Cut (suc fuel) b rest [] rlen enough all e idle =
    let empty : b ≡ [] = no_bytes b rest e in
    let none_yet : rlen ≡ 0 = ground (arith, idle, ap length empty) in
    record {
      left = [];
      rlen = 0;
      frames = [];
      later = [];
      returns = rw (empty, none_yet) refl;
      in_order = refl;
      kept = sym (ap (λ (l : List ℕ). l ++ rest) empty) ∙ e;
      acks = all;
      part = IsPart-nothing [];
      idle = inl refl;
    }
cut_acks-Cut (suc fuel) b rest (f ∷ fs) rlen enough all e idle =
    elim (Bool-cases (ltb (length b) (length f))) [
      | inl short ↦ Cut-part fuel b rest f fs rlen all e (ground arith) idle
      | inr whole ↦
          let fits : length f ≤ length b = ground arith in
          let (told, cuts) = announced-whole b rest f (flatten fs) rlen all.0 e fits in
          let (first, behind) = first_whole b rest f (flatten fs) e fits in
          let next =
            cut_acks-Cut fuel (drop (length f) b) rest fs 0
              (omega (arith, length-drop (length f) b, all.0, enough)) all.1 behind (inl refl) in
          record {
            left = next.left;
            rlen = next.rlen;
            frames = f ∷ next.frames;
            later = next.later;
            returns = rw (told, cuts, first, next.returns) refl;
            in_order = ap (λ l. f ∷ l) next.in_order;
            kept = next.kept;
            acks = next.acks;
            part = next.part;
            idle = next.idle;
          }
    ]
