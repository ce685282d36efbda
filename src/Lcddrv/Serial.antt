-- ===== src/Lcddrv/Serial.antt =====
-- src/lcddrv.c: the levels that `wdata` and `wcom` put on the pins arrive as the byte.
use concentrator.Common.{
  ℕ, zero, suc, ◌+◌, ◌-◌, ◌*◌, ◌/◌, ◌%◌, ◌^◌, ◌<◌, ◌≡◌, refl, ◌∙◌, ap, sym, inl, inr, Bool, true,
  false, not, List, [], ◌∷◌, ◌++◌, append_assoc, ◌==◌, if◌then◌else◌, u8, arith, Bool-cases,
}
use native.Mathlib.Nat.{pow-suc}
use mathlib.Core.Path.{subst}
use concentrator.Lcddrv.{Event, pio_out_value, cs, clock_bit, shift_out, wdata, wcom}
use concentrator.Lcddrv.Receiver.{Receiver, rise, react, received, Sends, Sends-append, Sends-start}

abbrev after_bit : Receiver → Bool → Receiver
after_bit r b = record r {
  level = b;
  clock = true;
  bits = 2 * r.bits + (if b then 1 else 0);
  count = r.count + 1;
}

abbrev after_byte : Receiver → Bool → Receiver
after_byte r b = record r { level = b; clock = true; bits = 0; count = 0 }

-- One turn of the loop before the last: a bit is taken.
bit-received :
    (r : Receiver) (d : ℕ) (b invert : Bool) (rest : List Event)
    → r.selected ≡ true
    → (r.count == 7) ≡ false
    → (if invert then not (d / 128 % 2 == 1) else (d / 128 % 2 == 1)) ≡ b
    → received r (clock_bit d invert ++ rest) ≡ received (after_bit r b) rest
unfolding received react rise
bit-received r d b invert rest sel early e = rw (e, sel, early) refl

byte-received :
    (r : Receiver) (d : ℕ) (b invert : Bool) (rest : List Event)
    → r.selected ≡ true
    → (r.count == 7) ≡ true
    → (if invert then not (d / 128 % 2 == 1) else (d / 128 % 2 == 1)) ≡ b
    → received r (clock_bit d invert ++ rest)
      ≡ (r.is_data, 2 * r.bits + (if b then 1 else 0)) ∷ received (after_byte r b) rest
unfolding received react rise
byte-received r d b invert rest sel late e = rw (e, sel, late) refl

-- The number that `n` turns of the loop append to the bits that are there.
unfoldable collect : ℕ → ℕ → (invert : Bool) → (bits : ℕ) → ℕ
collect zero d invert bits = bits
collect (suc n) d invert bits =
    collect n (u8 (2 * d)) invert (
      2 * bits + (if (if invert then not (d / 128 % 2 == 1) else (d / 128 % 2 == 1)) then 1 else 0))

double_pow : (q p : ℕ) → (2 * q) * p ≡ q * (p * 2)
double_pow q p = grind arith

collect-plain :
    (n d bits v : ℕ) → d < 256 → (bits * 256 + d) * 2 ^ n ≡ v * 256 → collect n d false bits ≡ v
unfolding collect
collect-plain zero d bits v small e = omega arith
collect-plain (suc n) d bits v small e =
    collect-plain n (u8 (2 * d)) (2 * bits + b) v (omega arith) (
      ap (λ q. q * 2 ^ n) step
      ∙ double_pow (bits * 256 + d) (2 ^ n)
      ∙ ap (λ p. (bits * 256 + d) * p) (sym (pow-suc 2 n))
      ∙ e)
  where
    b : ℕ
    b = if d / 128 % 2 == 1 then 1 else 0

    step : (2 * bits + b) * 256 + u8 (2 * d) ≡ 2 * (bits * 256 + d)
    step = ground arith

collect-inverted :
    (n d bits v : ℕ)
    → d < 256
    → (bits * 256 + (256 - d)) * 2 ^ n ≡ v * 256 + 256
    → collect n d true bits ≡ v
unfolding collect
collect-inverted zero d bits v small e = omega arith
collect-inverted (suc n) d bits v small e =
    collect-inverted n (u8 (2 * d)) (2 * bits + b) v (omega arith) (
      ap (λ q. q * 2 ^ n) step
      ∙ double_pow (bits * 256 + (256 - d)) (2 ^ n)
      ∙ ap (λ p. (bits * 256 + (256 - d)) * p) (sym (pow-suc 2 n))
      ∙ e)
  where
    b : ℕ
    b = if not (d / 128 % 2 == 1) then 1 else 0

    step : (2 * bits + b) * 256 + (256 - u8 (2 * d)) ≡ 2 * (bits * 256 + (256 - d))
    step = ground arith

-- The turns of the loop that are left end the byte.
shift_out-received :
    (n d : ℕ) (invert : Bool) (r : Receiver)
    → r.selected ≡ true
    → r.count + suc n ≡ 8
    → (r' : Receiver) × (r'.is_data ≡ r.is_data)
      × ((rest : List Event)
          → received r (shift_out (suc n) d invert ++ rest)
            ≡ (r.is_data, collect (suc n) d invert r.bits) ∷ received r' rest)
unfolding shift_out collect
shift_out-received zero d invert r sel e =
    (after_byte r _, refl, λ rest. byte-received r d _ invert rest sel (ground arith) refl)
shift_out-received (suc n) d invert r sel e =
    let b = (if invert then not (d / 128 % 2 == 1) else (d / 128 % 2 == 1)) in
    let (r', same, runs) =
      shift_out-received n (u8 (2 * d)) invert (after_bit r b) sel (omega arith) in
    (
      r',
      same,
      λ rest.
          bit-received r d b invert (shift_out (suc n) (u8 (2 * d)) invert ++ rest) sel
            (ground arith) refl
          ∙ runs rest,
    )

abbrev selection : ℕ → Bool → List Event
selection d invert = pio_out_value cs false ∷ (shift_out 8 d invert ++ pio_out_value cs true ∷ [])

-- A select, the eight turns of the loop and a deselect.
selected_byte :
    (d : ℕ) (invert c : Bool) → Sends c (selection d invert) ((c, collect 8 d invert 0) ∷ []) c
unfolding received react
selected_byte d invert c = record {
  runs = λ r e.
      let (r', same, runs) =
        shift_out-received 7 d invert (record r { selected = true; bits = 0; count = 0 }) refl
          refl in
      (
        record r' { selected = false; bits = 0; count = 0 },
        same ∙ e,
        λ rest.
            ap (λ l. received (record r { selected = true; bits = 0; count = 0 }) l)
              (append_assoc (shift_out 8 d invert) (pio_out_value cs true ∷ []) rest)
            ∙ runs (pio_out_value cs true ∷ rest)
            ∙ ap
                (λ m.
                  (m, collect 8 d invert 0)
                  ∷ received (record r' { selected = false; bits = 0; count = 0 }) rest)
                e,
      );
}

-- A byte that `wdata` writes arrives, inverted if asked for, as a command or as data by the mode.
pub wdata-Sends :
    (d disp_invert : ℕ) (c : Bool)
    → d < 256
    → Sends c (wdata d disp_invert) ((c, if disp_invert == 0 then d else 255 - d) ∷ []) c
unfolding wdata
wdata-Sends d disp_invert c small = elim (Bool-cases (disp_invert == 0)) [
  | inl off ↦ rw off (
      subst (λ v. Sends c (selection d false) ((c, v) ∷ []) c)
        (collect-plain 8 d 0 d small (omega arith)) (selected_byte d false c))
  | inr on ↦ rw on (
      subst (λ v. Sends c (selection d true) ((c, v) ∷ []) c)
        (collect-inverted 8 d 0 (255 - d) small (omega arith)) (selected_byte d true c))
]

-- A byte that `wcom` writes arrives as a command from any mode, and leaves the data mode.
pub wcom-Sends : (d : ℕ) (c : Bool) → d < 256 → Sends c (wcom d) ((false, d) ∷ []) true
unfolding wcom shift_out
wcom-Sends d c small = Sends-append (Sends-start c false (30 * 1000)) (
    Sends-append
      (subst (λ v. Sends false (selection d false) ((false, v) ∷ []) false)
        (collect-plain 8 d 0 d small (omega arith)) (selected_byte d false false))
      (Sends-start false true (30 * 1000)))
