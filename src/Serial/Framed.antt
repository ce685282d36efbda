-- ===== src/Serial/Framed.antt =====
-- src/CSerialComm.cpp: what `ReadBuf` returns is a frame of what the port brought.
use concentrator.Common.{
  ℕ, ◌+◌, ◌-◌, ◌≤◌, ◌<◌, ◌≡◌, refl, sym, ap, ◌∙◌, Option, none, some, List, [], ◌∷◌, ◌++◌,
  append_assoc, ltb, leb, length, length-append, length-take, length-drop, take, drop, arith,
  Bool-cases, Option-cases, inl, inr,
}
use concentrator.Common.Parts.{
  take-drop, take_of_append, drop_of_append, drop-drop, drop-take, take_shorter,
}
use concentrator.Serial.{
  Chunk, arrived, broken, CommResult, comm_ok, find_begin, search_begin, search_end, copy_frame,
  progress, finished, place, read_loop, read_buf,
}
use concentrator.Serial.Found.{same_bytes-eq, find_begin-found, find_end-found}

-- The bytes of the chunks.
abbrev pub bytes_of : List Chunk → List ℕ
bytes_of [] = []
bytes_of (arrived bytes ∷ chunks) = bytes ++ bytes_of chunks
bytes_of (broken ∷ chunks) = bytes_of chunks

-- A frame stands among the bytes, begins with the one flag, ends with the other, and fits.
pub record Framed (begin_flag end_flag : List ℕ) (buffer_len : ℕ) (bytes frame : List ℕ)
    : Type 0 where
  pub before : List ℕ
  pub behind : List ℕ
  pub within : bytes ≡ before ++ (frame ++ behind)
  pub begins : take (length begin_flag) frame ≡ begin_flag
  pub ends : drop (length frame - length end_flag) frame ≡ end_flag
  pub fits : length frame ≤ buffer_len

-- The flag that has been found begins at its place.
abbrev Begun : (begin_flag buffer : List ℕ) → Option ℕ → Type 0
Begun begin_flag buffer none = Unit {0}
Begun begin_flag buffer (some b) =
    (b + length begin_flag ≤ length buffer)
    × (take (length begin_flag) (drop b buffer) ≡ begin_flag)

Begun-append :
    (begin_flag buffer bytes : List ℕ) (begin : Option ℕ)
    → Begun begin_flag buffer begin
    → Begun begin_flag (buffer ++ bytes) begin
Begun-append begin_flag buffer bytes none h = tt
Begun-append begin_flag buffer bytes (some b) (room, at) = (
  omega (arith, length-append {0} buffer bytes),
  rw
      (
        drop_of_append b buffer bytes (omega arith),
        take_of_append (length begin_flag) (drop b buffer) bytes
            (omega (arith, length-drop b buffer)),
      )
      at,
)

module _ (begin_flag end_flag : List ℕ) (buffer_len : ℕ) where
  search_begin-Begun :
      (buffer : List ℕ)
      → Begun begin_flag buffer (search_begin begin_flag end_flag buffer_len buffer)
  search_begin-Begun buffer = elim (Bool-cases (ltb (length buffer) (length begin_flag))) [
    | inl short ↦ rw (short, Begun) tt
    | inr long ↦
        let left = length buffer - length begin_flag in
        elim (Option-cases (find_begin buffer begin_flag left 0)) [
          | inl off ↦ rw (long, off, Begun) tt
          | inr (b, at) ↦
              let (found, bound) = find_begin-found buffer begin_flag left 0 at in
              let room : length begin_flag ≤ length buffer = ground (arith, long) in
              rw (long, at)
                (
                  omega (arith, bound, room),
                  same_bytes-eq (take (length begin_flag) (drop b buffer)) begin_flag found,
                )
        ]
  ]

  found-Begun :
      (i : ℕ) (buffer : List ℕ) (o : Option ℕ)
      → Begun begin_flag buffer o
      → Begun begin_flag buffer
          (let p : Option ℕ × ℕ = elim o [ none ↦ (none, i) | some b ↦ (some b, 0) ] in p.0)
  found-Begun i buffer none h = tt
  found-Begun i buffer (some b) h = h

  progress-Begun :
      (i : ℕ) (buffer : List ℕ) (begin : Option ℕ)
      → Begun begin_flag buffer begin
      → Begun begin_flag buffer (progress begin_flag end_flag buffer_len i buffer begin).0
  progress-Begun i buffer (some b) h = h
  progress-Begun i buffer none h =
      found-Begun i buffer (search_begin begin_flag end_flag buffer_len buffer)
        (search_begin-Begun buffer)

  cut_frame :
      (buffer : List ℕ) (b e count : ℕ)
      → b ≤ e
      → e + length end_flag ≤ length buffer
      → count ≡ e - b + length end_flag
      → length begin_flag ≤ count
      → take (length begin_flag) (drop b buffer) ≡ begin_flag
      → take (length end_flag) (drop e buffer) ≡ end_flag
      → count ≤ buffer_len
      → Framed begin_flag end_flag buffer_len buffer (take count (drop b buffer))
  cut_frame buffer b e count start inside sum wide begins ends fits =
      let size : length (take count (drop b buffer)) ≡ count =
        omega (arith, length-take count (drop b buffer), length-drop b buffer) in
      let tail : count - length end_flag ≡ e - b = omega arith in
      let place_e : b + (e - b) ≡ e = omega arith in
      record {
        before = take b buffer;
        behind = drop count (drop b buffer);
        within =
            sym (take-drop b buffer)
            ∙ ap (λ (l : List ℕ). take b buffer ++ l) (sym (take-drop count (drop b buffer)));
        begins = take_shorter (length begin_flag) count (drop b buffer) wide ∙ begins;
        ends =
            rw
              (
                size,
                tail,
                sum,
                drop-take (e - b) (length end_flag) (drop b buffer),
                drop-drop b (e - b) buffer,
                place_e,
              )
              ends;
        fits = omega (arith, size);
      }

  -- What is copied is a frame.
  copy_frame-Framed :
      (buffer frame : List ℕ) (b e : ℕ)
      → 0 < length end_flag
      → length end_flag ≤ length begin_flag
      → Begun begin_flag buffer (some b)
      → search_end begin_flag end_flag buffer_len buffer b ≡ some e
      → copy_frame begin_flag end_flag buffer_len buffer b e ≡ comm_ok frame
      → Framed begin_flag end_flag buffer_len buffer frame
  unfolding copy_frame
  copy_frame-Framed buffer frame b e some_flag short (room, at) ended copied =
      elim (Bool-cases (ltb (length buffer) (length end_flag))) [
        | inl little ↦ cc (rw little at ended)
        | inr enough ↦
            let n = length end_flag in
            let last = length buffer - n in
            let (found, above, below) =
              find_end-found buffer end_flag (last + 1 - (b + length begin_flag)) last
                (rw enough at ended) in
            let long : n ≤ length buffer = ground (arith, enough) in
            let start : b ≤ e = omega (arith, above, below, room, short, long) in
            let inside : e + n ≤ length buffer = omega (arith, above, long) in
            let count = e - b + n in
            let wide : length begin_flag ≤ count = omega (arith, above, below, room, short, long) in
            let ends_at : take n (drop e buffer) ≡ end_flag =
              same_bytes-eq (take n (drop e buffer)) end_flag found in
            elim (Bool-cases (ltb buffer_len count)) [
              | inl big ↦ cc (rw big at copied)
              | inr fits ↦
                  let same : take count (drop b buffer) ≡ frame = cc (rw fits at copied) in
                  rw (← same) (
                    cut_frame buffer b e count start inside refl wide at ends_at
                      (ground (arith, fits)))
            ]
      ]

  -- A frame of the buffer is one of the buffer and what comes behind it.
  Framed-append :
      (buffer later frame : List ℕ)
      → Framed begin_flag end_flag buffer_len buffer frame
      → Framed begin_flag end_flag buffer_len (buffer ++ later) frame
  Framed-append buffer later frame f = record {
    before = f.before;
    behind = f.behind ++ later;
    within =
        ap (λ (l : List ℕ). l ++ later) f.within
        ∙ append_assoc f.before (frame ++ f.behind) later
        ∙ ap (λ (l : List ℕ). f.before ++ l) (append_assoc frame f.behind later);
    begins = f.begins;
    ends = f.ends;
    fits = f.fits;
  }

  -- The end of a turn, with what the turns behind it return.
  turn-Framed :
      (buffer : List ℕ) (begin : Option ℕ) (later frame : List ℕ) (next : CommResult)
      → 0 < length end_flag
      → length end_flag ≤ length begin_flag
      → Begun begin_flag buffer begin
      → (next ≡ comm_ok frame → Framed begin_flag end_flag buffer_len (buffer ++ later) frame)
      → (let result : CommResult = elim (finished begin_flag end_flag buffer_len buffer begin) [
        | none ↦ next
        | some e ↦
            copy_frame begin_flag end_flag buffer_len buffer
              (place begin_flag end_flag buffer_len begin)
              e
      ] in
          result)
        ≡ comm_ok frame
      → Framed begin_flag end_flag buffer_len (buffer ++ later) frame
  turn-Framed buffer none later frame next some_flag short h rest e = rest e
  turn-Framed buffer (some b) later frame next some_flag short h rest e =
      elim (Option-cases (search_end begin_flag end_flag buffer_len buffer b)) [
        | inl off ↦ rest (rw off at e)
        | inr (n, at) ↦
            Framed-append buffer later frame
              (copy_frame-Framed buffer frame b n some_flag short h at (rw at at e))
      ]

  read_loop-Framed :
      (i : ℕ) (buffer : List ℕ) (begin : Option ℕ) (chunks : List Chunk) (frame : List ℕ)
      → 0 < length end_flag
      → length end_flag ≤ length begin_flag
      → Begun begin_flag buffer begin
      → read_loop begin_flag end_flag buffer_len i buffer begin chunks ≡ comm_ok frame
      → Framed begin_flag end_flag buffer_len (buffer ++ bytes_of chunks) frame
  unfolding read_loop
  read_loop-Framed i buffer begin [] frame some_flag short h e = cc
  read_loop-Framed i buffer begin (broken ∷ chunks) frame some_flag short h e = ground arith
  read_loop-Framed i buffer begin (arrived bytes ∷ chunks) frame some_flag short h e =
      elim (Bool-cases (leb 3 i)) [
        | inl late ↦ cc (rw late at e)
        | inr early ↦ elim (Bool-cases (ltb 1024 (length (buffer ++ bytes)))) [
          | inl over ↦ cc (rw (early, over) at e)
          | inr room ↦ rw (← append_assoc buffer bytes (bytes_of chunks)) (
              turn-Framed (buffer ++ bytes)
                (progress begin_flag end_flag buffer_len i (buffer ++ bytes) begin).0
                (bytes_of chunks) frame
                (read_loop begin_flag end_flag buffer_len
                  ((progress begin_flag end_flag buffer_len i (buffer ++ bytes) begin).1 + 1)
                  (buffer ++ bytes)
                  (progress begin_flag end_flag buffer_len i (buffer ++ bytes) begin).0 chunks)
                some_flag short
                (progress-Begun i (buffer ++ bytes) begin
                  (Begun-append begin_flag buffer bytes begin h))
                (read_loop-Framed
                  ((progress begin_flag end_flag buffer_len i (buffer ++ bytes) begin).1 + 1)
                  (buffer ++ bytes)
                  (progress begin_flag end_flag buffer_len i (buffer ++ bytes) begin).0 chunks frame
                  some_flag short
                  (progress-Begun i (buffer ++ bytes) begin
                    (Begun-append begin_flag buffer bytes begin h)))
                (rw (early, room) at e))
        ]
      ]

  -- Whatever the port brings, in whatever pieces, when the last flag is not empty and not longer than the first: what
  -- `ReadBuf` returns stands among these bytes, begins with the one flag and ends with the other, and fits the buffer
  -- of the caller.
  pub read_buf-Framed :
      (chunks : List Chunk) (frame : List ℕ)
      → 0 < length end_flag
      → length end_flag ≤ length begin_flag
      → read_buf begin_flag end_flag buffer_len chunks ≡ comm_ok frame
      → Framed begin_flag end_flag buffer_len (bytes_of chunks) frame
  unfolding read_buf
  read_buf-Framed chunks frame some_flag short e =
      read_loop-Framed 0 [] none chunks frame some_flag short tt e
