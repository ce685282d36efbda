-- ===== src/Lcddrv/Screen.antt =====
-- src/lcddrv.c: the bytes that the operations on the whole screen send.
use concentrator.Common.{
  ℕ, zero, suc, ◌+◌, ◌*◌, ◌%◌, ◌≤◌, ◌<◌, ◌≡◌, refl, ap, sym, ◌∙◌, inl, inr, Bool, true, false, List,
  [], ◌∷◌, ◌++◌, ◌==◌, arith, All, take, drop, replicate, Bool-cases,
}
use mathlib.Core.Path.{subst}
use concentrator.Lcddrv.{
  Lcd, wdata, set_page, column_offset, lcd_cmd_set_column, wdata_all, write_page, clear_pages,
  lcd_clear, show_pages, wcom_all,
}
use concentrator.Lcddrv.Receiver.{Sends, Sends-nil, Sends-append, Sends-mode}
use concentrator.Lcddrv.Serial.{wdata-Sends, wcom-Sends}

abbrev pub IsByte : ℕ → Type 0
IsByte d = d < 256

-- Bytes as data, and as commands.
abbrev pub tagged : Bool → List ℕ → List (Bool × ℕ)
tagged c [] = []
tagged c (d ∷ ds) = (c, d) ∷ tagged c ds

-- The address of the first visible column of a page.
abbrev pub address : ℕ → ℕ → List (Bool × ℕ)
address offset page = tagged false ((176 + page) ∷ 16 ∷ offset ∷ [])

-- Each of the pages in turn: its address, and the bytes of its columns.
abbrev pub screen : ℕ → (page left : ℕ) → (ℕ → List ℕ) → List (Bool × ℕ)
screen offset page zero columns = []
screen offset page (suc left) columns =
    (address offset page ++ tagged true (columns page)) ++ screen offset (page + 1) left columns

pub wdata_all-Sends :
    (ds : List ℕ) (c : Bool) → All IsByte ds → Sends c (wdata_all ds) (tagged c ds) c
unfolding wdata_all
wdata_all-Sends [] c h = Sends-nil c
wdata_all-Sends (d ∷ ds) c h = Sends-append (wdata-Sends d 0 c h.0) (wdata_all-Sends ds c h.1)

pub wcom_all-Sends : (ds : List ℕ) → All IsByte ds → Sends true (wcom_all ds) (tagged false ds) true
unfolding wcom_all
wcom_all-Sends [] h = Sends-nil true
wcom_all-Sends (d ∷ ds) h = Sends-append (wcom-Sends d true h.0) (wcom_all-Sends ds h.1)

pub column-Sends :
    (direction : ℕ) (c : Bool)
    → Sends c (lcd_cmd_set_column direction 0) ((c, 16) ∷ (c, column_offset direction) ∷ []) c
unfolding lcd_cmd_set_column
column-Sends direction c = elim (Bool-cases (direction == 0)) [
  | inl e ↦ rw e (Sends-append (wdata-Sends 16 0 c (omega arith)) (wdata-Sends 0 0 c (omega arith)))
  | inr e ↦ rw e (Sends-append (wdata-Sends 16 0 c (omega arith)) (wdata-Sends 4 0 c (omega arith)))
]

pub page-Sends : (page : ℕ) (c : Bool) → page < 8 → Sends c (set_page page) ((c, 176 + page) ∷ []) c
page-Sends page c lt =
    let e : page % 16 + 176 ≡ 176 + page = omega arith in
    subst (λ v. Sends c (wdata (page % 16 + 176) 0) ((c, v) ∷ []) c) e
      (wdata-Sends (page % 16 + 176) 0 c (omega arith))

write_page-Sends :
    (direction page : ℕ) (bytes : List ℕ) (c : Bool)
    → page < 8
    → All IsByte bytes
    → Sends c
        (write_page direction page bytes)
        (address (column_offset direction) page ++ tagged true bytes)
        true
unfolding write_page
write_page-Sends direction page bytes c lt h = Sends-append (Sends-mode c false) (
    Sends-append (page-Sends page false lt) (
      Sends-append (column-Sends direction false)
        (Sends-append (Sends-mode false true) (wdata_all-Sends bytes true h))))

pub replicate-All : (n d : ℕ) → IsByte d → All IsByte (replicate n d)
replicate-All zero d h = tt
replicate-All (suc n) d h = (h, replicate-All n d h)

clear_pages-Sends :
    (direction page left : ℕ) (c : Bool)
    → page + suc left ≤ 8
    → Sends c
        (clear_pages direction page (suc left))
        (screen (column_offset direction) page (suc left) (λ _. replicate 128 0))
        true
unfolding clear_pages
clear_pages-Sends direction page zero c h =
    Sends-append
      (write_page-Sends direction page (replicate 128 0) c (omega arith)
        (replicate-All 128 0 (omega arith)))
      (Sends-nil true)
clear_pages-Sends direction page (suc left) c h =
    Sends-append
      (write_page-Sends direction page (replicate 128 0) c (omega arith)
        (replicate-All 128 0 (omega arith)))
      (clear_pages-Sends direction (page + 1) left true (omega arith))

-- `LCDClear` addresses each of the eight pages and sends 128 zeros to it, whatever came before.
pub lcd_clear-Sends :
    (lcd : Lcd) (c : Bool)
    → Sends c
        (lcd_clear lcd)
        (screen (column_offset lcd.data_d7_d0) 0 8 (λ _. replicate 128 0))
        true
unfolding lcd_clear
lcd_clear-Sends lcd c = clear_pages-Sends lcd.data_d7_d0 0 7 c (omega arith)

-- The columns of one page of a picture.
abbrev pub columns_of : List ℕ → ℕ → List ℕ
columns_of picture page = take 128 (drop (128 * page) picture)

drop-nil : (n : ℕ) → drop {A = ℕ} n [] ≡ []
drop-nil zero = refl
drop-nil (suc n) = refl

drop-drop : (m n : ℕ) (xs : List ℕ) → drop m (drop n xs) ≡ drop (n + m) xs
drop-drop m zero xs = let e : m ≡ 0 + m = omega arith in ap (λ n. drop n xs) e
drop-drop m (suc n) [] = drop-nil m ∙ sym (drop-nil (suc n + m))
drop-drop m (suc n) (x ∷ xs) =
    let e : suc n + m ≡ suc (n + m) = omega arith in rw e (drop-drop m n xs)

All-take : (n : ℕ) (xs : List ℕ) → All IsByte xs → All IsByte (take n xs)
All-take zero xs h = tt
All-take (suc n) [] h = tt
All-take (suc n) (x ∷ xs) h = (h.0, All-take n xs h.1)

All-drop : (n : ℕ) (xs : List ℕ) → All IsByte xs → All IsByte (drop n xs)
All-drop zero xs h = h
All-drop (suc n) [] h = tt
All-drop (suc n) (x ∷ xs) h = All-drop n xs h.1

one_page :
    (direction page : ℕ) (picture : List ℕ) (c : Bool)
    → page < 8
    → All IsByte picture
    → Sends c
        (write_page direction page (take 128 (drop (128 * page) picture)))
        (address (column_offset direction) page ++ tagged true (columns_of picture page))
        true
one_page direction page picture c lt all =
    write_page-Sends direction page (columns_of picture page) c lt
      (All-take 128 (drop (128 * page) picture) (All-drop (128 * page) picture all))

next_columns :
    (page : ℕ) (picture : List ℕ)
    → drop (128 * (page + 1)) picture ≡ drop 128 (drop (128 * page) picture)
next_columns page picture =
    let e : 128 * (page + 1) ≡ 128 * page + 128 = omega arith in
    ap (λ n. drop n picture) e ∙ sym (drop-drop 128 (128 * page) picture)

pub show_pages-Sends :
    (direction page left : ℕ) (picture : List ℕ) (c : Bool)
    → page + suc left ≤ 8
    → All IsByte picture
    → Sends c
        (show_pages direction page (suc left) (drop (128 * page) picture))
        (screen (column_offset direction) page (suc left) (columns_of picture))
        true
unfolding show_pages
show_pages-Sends direction page zero picture c h all =
    Sends-append (one_page direction page picture c (omega arith) all) (Sends-nil true)
show_pages-Sends direction page (suc left) picture c h all =
    Sends-append (one_page direction page picture c (omega arith) all) (
      subst
        (λ rest.
          Sends true (show_pages direction (page + 1) (suc left) rest)
            (screen (column_offset direction) (page + 1) (suc left) (columns_of picture)) true)
        (next_columns page picture)
        (show_pages-Sends direction (page + 1) left picture true (omega arith) all))
