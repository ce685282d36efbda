-- ===== src/Logdb/Put.antt =====
-- src/logdb.c: `dbput` stores a record that `sequence` reads back.
use concentrator.Common.{
  lt→ltb, ==_refl, ℕ, ◌+◌, ◌*◌, ◌^◌, ◌≤◌, ◌<◌, ◌≡◌, refl, ap, ap₂, ◌∙◌, true, some, List, ◌++◌,
  append_assoc, length, length-append, take, drop, take-append, drop-append, u32, arith,
}
use concentrator.Common.Outcome.{done}
use concentrator.Common.File.{File, write_bytes, seek_end, take_enough, splice_end, splice, le32}
use concentrator.Sbtree.{inorder}
use concentrator.Sbtree.Shape.{count, IsSized}
use concentrator.Sbtree.Order.{IsSorted, place}
use concentrator.Sbtree.Insert.{sbtree_insert-Inserts}
use concentrator.Logdb.{Entry, entry_bytes, getkey, Logdb, dbput, read_record}

-- What a call of `dbput` that takes everything leaves.
pub record Stored (db db' : Logdb) (idx : Entry) (key data' : List ℕ) : Type 0 where
  pub sized : IsSized db'.root
  pub placed : inorder db'.root ≡ place getkey idx (inorder db.root)
  pub appended : db'.dfd.bytes ≡ db.dfd.bytes ++ (key ++ data')
  pub indexed :
      db'.ifd.bytes
      ≡ db.ifd.bytes ++ (le32 idx.key ++ (le32 idx.offset ++ (le32 idx.klen ++ le32 idx.dlen)))
  pub reads_back :
      read_record true (record { bytes = db'.dfd.bytes; pos = 0 }) idx ≡ some (key, data')

read_back :
    (f : File) (stored key data' : List ℕ) (k : ℕ)
    → f.bytes ≡ stored ++ (key ++ data')
    → length stored < 2 ^ 31
    → read_record true f
        (record { key = k; offset = length stored; klen = length key; dlen = length data' })
      ≡ some (key, data')
unfolding read_record
read_back f stored key data' k e small =
    rw (lt→ltb (length stored) (2 ^ 31) small)
      (rw (key_read, ==_refl (length key)) (rw (data_read, ==_refl (length data')) refl))
  where
    key_read : take (length key) (drop (length stored) f.bytes) ≡ key
    key_read = rw (e, drop-append) (take-append key data')

    data_read : take (length data') (drop (length stored + length key) f.bytes) ≡ data'
    data_read =
        rw (e, ← append_assoc stored key data', ← length-append stored key, drop-append)
          (take_enough data' (length data') (omega arith))

two_writes :
    (f : File) (a b : List ℕ) (k d : ℕ)
    → length a ≤ k
    → length b ≤ d
    → (write_bytes (write_bytes (seek_end f) a k) b d).bytes ≡ f.bytes ++ (a ++ b)
two_writes f a b k d ha hb =
    ap (λ p. splice g.bytes p (take d b)) at_end
    ∙ splice_end g.bytes (take d b)
    ∙ ap₂ ◌++◌ first (take_enough b d hb)
    ∙ append_assoc f.bytes a b
  where
    g : File
    g = write_bytes (seek_end f) a k

    first : g.bytes ≡ f.bytes ++ a
    first = splice_end f.bytes (take k a) ∙ ap (λ l. f.bytes ++ l) (take_enough a k ha)

    at_end : g.pos ≡ length g.bytes
    at_end = omega (arith, ap length first, length-append f.bytes a, ap length (take_enough a k ha))

entry_length : (idx : Entry) → length (entry_bytes idx) ≡ 16
unfolding le32
entry_length idx = refl

module _ (genkey : List ℕ → ℕ) where
  -- On a tree with right sizes and ordered keys, with fuel above the square of the new count and writes
  -- that take everything, `dbput` returns 0: the tree has the new entry in its place and right sizes, the
  -- files have grown by the record and by its key, offset and lengths in four bytes each, and once the data is open for
  -- reading, `sequence` reads back the key and the data.
  pub dbput-Stored :
      (fuel : ℕ) (db : Logdb) (key data' : List ℕ) (k d i : ℕ)
      → IsSized db.root
      → IsSorted getkey (inorder db.root)
      → (count db.root + 1) * (count db.root + 1) < fuel
      → length key ≤ k
      → length data' ≤ d
      → 16 ≤ i
      → length db.dfd.bytes < 2 ^ 31
      → (db' : Logdb) × (dbput genkey fuel db key data' (some k) (some d) (some i)
          ≡ done (db', true))
        × Stored db db'
            (record {
              key = genkey key;
              offset = length db.dfd.bytes;
              klen = length key;
              dlen = length data';
            })
            key
            data'
  unfolding dbput
  dbput-Stored fuel db key data' k d i sized sorted room wk wd wi small =
      let idx : Entry = record {
        key = genkey key;
        offset = length db.dfd.bytes;
        klen = length key;
        dlen = length data';
      } in
      let same : u32 (length db.dfd.bytes) ≡ length db.dfd.bytes = omega arith in
      let (root, inserted, sized', placed) =
        sbtree_insert-Inserts getkey fuel db.root idx sized sorted room in
      let written = two_writes db.dfd key data' k d wk wd in
      (
        record db {
          dfd = write_bytes (write_bytes (seek_end db.dfd) key k) data' d;
          ifd = write_bytes (seek_end db.ifd) (entry_bytes idx) i;
          root = root;
        },
        rw (same, inserted) refl,
        record {
          sized = sized';
          placed = placed;
          appended = written;
          indexed =
              splice_end db.ifd.bytes (take i (entry_bytes idx))
              ∙ ap (λ l. db.ifd.bytes ++ l)
                  (take_enough (entry_bytes idx) i (omega (arith, entry_length idx)));
          reads_back = read_back _ db.dfd.bytes key data' (genkey key) written small;
        },
      )
