-- ===== src/Logdb.antt =====
-- src/logdb.c: records of a key and data in a file, with an index of their places in a second file and
-- in a tree. What a `write` takes is the environment's choice: `none` is -1.
pub mod Put
mod Tests
use concentrator.Common.{
  ℕ, ◌+◌, ◌-◌, Bool, true, false, not, Option, none, some, List, [], ◌∷◌, ◌++◌, ◌==◌, if◌then◌else◌,
  length, u32,
}
use concentrator.Common.Outcome.{Outcome, done, ◌>>=◌}
use concentrator.Common.File.{File, seek_set, seek_end, read_bytes, after_read, write_bytes, le32}
use concentrator.Sbtree.{Tree, null, node, is_null, sbtree_insert, sbtree_search, sbtree_sequence}

-- `LOGDBIDX`, and its bytes in the index file.
pub record Entry : Type 0 where
  pub key : ℕ
  pub offset : ℕ
  pub klen : ℕ
  pub dlen : ℕ

abbrev pub entry_bytes : Entry → List ℕ
entry_bytes e = le32 e.key ++ (le32 e.offset ++ (le32 e.klen ++ le32 e.dlen))

abbrev pub getkey : Entry → ℕ
getkey e = e.key

-- `DBFLAG`: a new or appended database is open for writing alone.
pub data DbFlag : Type 0 where
  db_new : DbFlag
  db_append : DbFlag
  db_rdonly : DbFlag

abbrev pub is_rdonly : DbFlag → Bool
is_rdonly db_rdonly = true
is_rdonly _ = false

-- `LOGDB`, without the function `genkey`, which is an argument.
pub record Logdb : Type 0 where
  pub dfd : File
  pub ifd : File
  pub bof : ℕ
  pub root : Tree Entry
  pub flag : DbFlag

module _ (genkey : List ℕ → ℕ) where
  -- `false` is -1. A write that takes a part only is not noticed. The memory of an index entry is there.
  unfoldable pub dbput :
      ℕ → Logdb → (key data' : List ℕ) (room_k room_d room_i : Option ℕ) → Outcome (Logdb × Bool)
  dbput fuel db key data' none room_d room_i = done (record db { dfd = seek_end db.dfd }, false)
  dbput fuel db key data' (some k) none room_i =
      done (record db { dfd = write_bytes (seek_end db.dfd) key k }, false)
  dbput fuel db key data' (some k) (some d) room_i =
      let idx : Entry = record {
        key = genkey key;
        offset = u32 (length db.dfd.bytes);
        klen = length key;
        dlen = length data';
      } in
      do
        root ← sbtree_insert getkey fuel db.root idx
        done (
          record db {
            dfd = write_bytes (write_bytes (seek_end db.dfd) key k) data' d;
            ifd = elim room_i [
              | none ↦ seek_end db.ifd
              | some i ↦ write_bytes (seek_end db.ifd) (entry_bytes idx) i
            ];
            root = root;
          },
          true,
        )

  -- The data is read from the index file, after the position in the data file has been set.
  unfoldable pub dbget : Logdb → (key : List ℕ) → Logdb × Option (List ℕ)
  dbget db key = elim (sbtree_search getkey db.root (genkey key)) [
    | none ↦ (db, none)
    | some idx ↦
        let db' = record db {
          dfd = elim (seek_set db.dfd (idx.offset + idx.klen)) [ none ↦ db.dfd | some f ↦ f ];
        } in
        if is_rdonly db.flag
        then (record db' { ifd = after_read db.ifd idx.dlen }, some (read_bytes db.ifd idx.dlen))
        else (db', none)
  ]

-- The reads of `sequence`, which says nothing about an entry whose record is short; a file that is open for writing
-- alone gives none.
unfoldable pub read_record : (readable : Bool) → File → Entry → Option (List ℕ × List ℕ)
read_record readable fd idx =
    let f : File = elim (seek_set fd idx.offset) [ none ↦ fd | some f ↦ f ] in
    let key = read_bytes f idx.klen in
    let data' = read_bytes (after_read f idx.klen) idx.dlen in
    if not readable
    then none
    else if length key == idx.klen
    then (if length data' == idx.dlen then some (key, data') else none)
    else none

module _ {κ} {S : Type κ} (fun : List ℕ → List ℕ → S → S) where
  unfoldable pub sequence : (readable : Bool) → File → Entry → S → S
  sequence readable fd idx st = elim (read_record readable fd idx) [
    | none ↦ st
    | some (key, data') ↦ fun key data' st
  ]

  -- `none` is -1.
  unfoldable pub dbseq : Logdb → S → Outcome (Option S)
  dbseq db st =
      if is_rdonly db.flag
      then (if is_null db.root then done (some st) else (do
        st' ← sbtree_sequence db.root (sequence (is_rdonly db.flag) db.dfd) st
        done (some st')))
      else done none
