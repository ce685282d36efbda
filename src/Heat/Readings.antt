-- ===== src/Heat/Readings.antt =====
-- src/CHeatMonitor.cpp: what is shown of a number that a meter sends in digits.
use concentrator.Common.{
  ℕ, ◌+◌, ◌*◌, ◌/◌, ◌%◌, ◌^◌, ◌<◌, ◌≡◌, refl, false, List, [], ◌∷◌, ◌==◌, get_or, arith,
}
use concentrator.Heat.Info.{
  Reading, number, bcd, is_error, temperature_reading, flow_velocity_reading, digits,
  heat_velocity_reading, total_reading,
}

-- Two digits in a byte, and eight digits in four bytes, the lowest first.
abbrev pub digit_byte : ℕ → ℕ
digit_byte v = 16 * (v / 10) + v % 10

unfoldable pub digit_bytes : ℕ → List ℕ
digit_bytes n =
    digit_byte (n % 100)
    ∷ digit_byte (n / 100 % 100)
    ∷ digit_byte (n / 10 ^ 4 % 100)
    ∷ digit_byte (n / 10 ^ 6 % 100)
    ∷ []

-- Six digits in the three bytes of the flow that `ParseData` copies; the fourth of the field stays zero.
unfoldable pub flow_bytes : ℕ → List ℕ
flow_bytes n =
    digit_byte (n % 100) ∷ digit_byte (n / 100 % 100) ∷ digit_byte (n / 10 ^ 4 % 100) ∷ 0 ∷ []

flow_bytes-digits : (n : ℕ) → n < 10 ^ 6 → flow_bytes n ≡ digit_bytes n
unfolding flow_bytes digit_bytes
flow_bytes-digits n h =
    let top : digit_byte (n / 10 ^ 6 % 100) ≡ 0 = omega (arith, h) in rw top refl

bcd-digit_byte : (v : ℕ) → v < 100 → bcd (digit_byte v) ≡ v
bcd-digit_byte v h = omega arith

-- No digits are taken for an error.
digit_byte-fine : (v : ℕ) → v < 100 → (digit_byte v == 189) ≡ false
digit_byte-fine v h = ground arith

digits-digit_bytes : (n : ℕ) → n < 10 ^ 8 → digits (digit_bytes n) ≡ n
unfolding digits digit_bytes
digits-digit_bytes n h =
    rw
      (
        bcd-digit_byte (n % 100) (omega arith),
        bcd-digit_byte (n / 100 % 100) (omega arith),
        bcd-digit_byte (n / 10 ^ 4 % 100) (omega arith),
        bcd-digit_byte (n / 10 ^ 6 % 100) (omega arith),
      )
      (omega arith)

digit_bytes_parts :
    (n : ℕ)
    → (bcd (get_or (digit_bytes n) 0 0) ≡ n % 100)
      × (bcd (get_or (digit_bytes n) 1 0) ≡ n / 100 % 100)
      × (bcd (get_or (digit_bytes n) 2 0) ≡ n / 10 ^ 4 % 100)
      × (bcd (get_or (digit_bytes n) 3 0) ≡ n / 10 ^ 6 % 100)
unfolding digit_bytes
digit_bytes_parts n = (
  bcd-digit_byte (n % 100) (omega arith),
  bcd-digit_byte (n / 100 % 100) (omega arith),
  bcd-digit_byte (n / 10 ^ 4 % 100) (omega arith),
  bcd-digit_byte (n / 10 ^ 6 % 100) (omega arith),
)

digit_bytes-fine : (n : ℕ) → is_error (digit_bytes n) ≡ false
unfolding digit_bytes
digit_bytes-fine n = rw (digit_byte-fine (n % 100) (omega arith)) refl

same_number : (w w' f f' : ℕ) → w ≡ w' → f ≡ f' → ◌≡◌ {A = Reading} (number w f) (number w' f')
same_number w w' f f' p q = rw (p, q) refl

-- Of a number of eight digits that a meter sends as the four bytes of a field, low byte first: a temperature shows the
-- four highest digits in tenths, the heat velocity all of them in thousandths, and a total all of them in
-- hundredths. Of the six digits of a flow in the three bytes that are copied, the four highest are shown in
-- thousandths, as if two more came above them. None is taken for an error. The fraction is a number, so its leading
-- zeros are not shown.
pub readings-digit_bytes :
    (n m : ℕ)
    → n < 10 ^ 8
    → m < 10 ^ 6
    → (temperature_reading (digit_bytes n) ≡ number (n / 10 ^ 5) (n / 10 ^ 4 % 10))
      × (flow_velocity_reading (flow_bytes m) ≡ number (m / 10 ^ 5) (m / 100 % 1000))
      × (heat_velocity_reading (digit_bytes n) ≡ number (n / 1000) (n % 1000))
      × (total_reading (digit_bytes n) ≡ number (n / 100) (n % 100))
unfolding temperature_reading flow_velocity_reading heat_velocity_reading total_reading
readings-digit_bytes n m h h' =
    let fine : is_error (digit_bytes n) ≡ false = digit_bytes-fine n in
    let fine' : is_error (digit_bytes m) ≡ false = digit_bytes-fine m in
    let (b₀, b₁, b₂, b₃) = digit_bytes_parts n in
    let (c₀, c₁, c₂, c₃) = digit_bytes_parts m in
    let all = digits-digit_bytes n h in
    (
      rw (fine, b₃, b₂) (same_number _ _ _ _ (omega arith) (omega arith)),
      rw (flow_bytes-digits m h', fine', c₃, c₂, c₁)
          (same_number _ _ _ _ (omega arith) (omega arith)),
      rw (fine, all) refl,
      rw (fine, all) refl,
    )
