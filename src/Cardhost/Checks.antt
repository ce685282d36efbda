-- ===== src/Cardhost/Checks.antt =====
-- src/CCardHost.cpp: what the checks of `ParseAndExecute` have seen when they let a frame pass.
use concentrator.Common.{
  ℕ, ◌+◌, ◌-◌, ◌/◌, ◌%◌, ◌<◌, ◌≡◌, refl, sym, ap, ◌∙◌, inl, inr, Bool, Option-cases, true, false,
  some, List, length, ltb, ◌&&◌, u16, ◌==◌, arith, Bool-cases, take, drop, get_or,
}
use concentrator.Common.Upto.{and_both}
use concentrator.Utils.Crc.{generate_crc}
use concentrator.Cardhost.Command.{
  Verdict, refused, accepted, outside, all_equal, check_crc, parse_body, parse_command,
}

-- The checksum in the frame is that of the bytes before it.
pub record Summed (cmd : List ℕ) (end : ℕ) : Type 0 where
  pub crc : ℕ
  pub made : generate_crc (take end cmd) ≡ some crc
  pub high : crc / 256 % 256 ≡ get_or cmd end 0
  pub low : crc % 256 ≡ get_or cmd (end + 1) 0

abbrev is_accepted : Verdict → Bool
is_accepted refused = false
is_accepted (accepted code data' len) = true
is_accepted outside = false

-- Only an accepted frame is accepted.
refutes :
    {R : Type 0} (v : Verdict) {code : ℕ} {data' : List ℕ} {len : ℕ}
    → v ≡ accepted code data' len
    → is_accepted v ≡ false
    → R
refutes v e stopped = absurd (ground (arith, ap is_accepted e, stopped))

pub check_crc-Summed :
    (cmd : List ℕ) (end : ℕ) (ok : Verdict) {code : ℕ} {data' : List ℕ} {len : ℕ}
    → check_crc cmd end ok ≡ accepted code data' len
    → Summed cmd end × (ok ≡ accepted code data' len)
unfolding check_crc
check_crc-Summed cmd end ok e = elim (Bool-cases (ltb (length cmd) (end + 2))) [
  | inl long ↦ refutes (check_crc cmd end ok) e (rw long refl)
  | inr fits ↦ elim (Option-cases (generate_crc (take end cmd))) [
    | inl nothing ↦ refutes (check_crc cmd end ok) e (rw (fits, nothing) refl)
    | inr (crc, made) ↦
        elim (Bool-cases
          ((crc / 256 % 256 == get_or cmd end 0) && (crc % 256 == get_or cmd (end + 1) 0))) [
            | inl same ↦
                let (high, low) =
                  and_both (crc / 256 % 256 == get_or cmd end 0)
                    (crc % 256 == get_or cmd (end + 1) 0) same in
                let passed : check_crc cmd end ok ≡ ok = rw (fits, made, same) refl in
                (
                  record {
                    crc = crc;
                    made = made;
                    high = ground (arith, high);
                    low = ground (arith, low);
                  },
                  sym passed ∙ e,
                )
            | inr differs ↦ refutes (check_crc cmd end ok) e (rw (fits, made, differs) refl)
          ]
  ]
]

-- The addresses and the checksum of an accepted frame, whose length takes the bytes before `ptr`.
pub record Addressed (cmd : List ℕ) (len ptr : ℕ) (code : ℕ) (data' : List ℕ) (n : ℕ) : Type 0 where
  pub source : all_equal 0 (take 6 (drop ptr cmd)) ≡ true
  pub target : all_equal 255 (take 6 (drop (ptr + 6) cmd)) ≡ true
  pub summed : Summed cmd (u16 (ptr + 13 + len + 65533))
  pub fields :
      accepted
        (get_or cmd (ptr + 12) 0)
        (drop (ptr + 13) cmd)
        (u16 (u16 (ptr + 13 + len + 65533) + 65536 - (ptr + 13)))
      ≡ accepted code data' n

pub parse_body-Addressed :
    (cmd : List ℕ) (len ptr : ℕ) {code : ℕ} {data' : List ℕ} {n : ℕ}
    → parse_body cmd len ptr ≡ accepted code data' n
    → Addressed cmd len ptr code data' n
unfolding parse_body
parse_body-Addressed cmd len ptr e = elim (Bool-cases (all_equal 0 (take 6 (drop ptr cmd)))) [
  | inr other ↦ refutes (parse_body cmd len ptr) e (rw other refl)
  | inl zeros ↦ elim (Bool-cases (all_equal 255 (take 6 (drop (ptr + 6) cmd)))) [
    | inr other ↦ refutes (parse_body cmd len ptr) e (rw (zeros, other) refl)
    | inl ones ↦
        let end = u16 (ptr + 13 + len + 65533) in
        let ok =
          accepted (get_or cmd (ptr + 12) 0) (drop (ptr + 13) cmd)
            (u16 (end + 65536 - (ptr + 13))) in
        let passed : parse_body cmd len ptr ≡ check_crc cmd end ok = rw (zeros, ones) refl in
        let (summed, fields) = check_crc-Summed cmd end ok (sym passed ∙ e) in
        record { source = zeros; target = ones; summed = summed; fields = fields }
  ]
]

-- A frame with a one-byte length.
pub parse_command-Addressed :
    (cmd : List ℕ) {code : ℕ} {data' : List ℕ} {n : ℕ}
    → get_or cmd 1 0 < 255
    → parse_command cmd ≡ accepted code data' n
    → (get_or cmd 0 0 ≡ 85) × Addressed cmd (get_or cmd 1 0) 2 code data' n
unfolding parse_command
parse_command-Addressed cmd short e = elim (Bool-cases (get_or cmd 0 0 == 85)) [
  | inr other ↦ refutes (parse_command cmd) e (rw other refl)
  | inl head ↦
      let one_byte : (get_or cmd 1 0 == 255) ≡ false = ground arith in
      let passed : parse_command cmd ≡ parse_body cmd (get_or cmd 1 0) 2 =
        rw (head, one_byte) refl in
      (ground (arith, head), parse_body-Addressed cmd (get_or cmd 1 0) 2 (sym passed ∙ e))
]
