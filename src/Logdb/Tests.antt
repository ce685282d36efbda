-- ===== src/Logdb/Tests.antt =====
-- Runs of src/logdb.c on a database with no records, whose keys are numbered by their length.
use concentrator.Common.{ℕ, ◌≡◌, refl, true, some, List, [], ◌∷◌, arith, length}
use concentrator.Common.Outcome.{done}
use concentrator.Sbtree.{null, node, sbtree_search}
use concentrator.Logdb.{Logdb, db_append, db_rdonly, dbput, dbget}
use concentrator.Logdb.Put.{Stored, dbput-Stored}

abbrev key_of : List ℕ → ℕ
key_of key = length key

abbrev db : Logdb
db = record {
  dfd = record { bytes = 9 ∷ []; pos = 0 };
  ifd = record { bytes = []; pos = 0 };
  bof = 0;
  root = null;
  flag = db_append;
}

abbrev name : List ℕ
name = 65 ∷ 66 ∷ []

abbrev record_data : List ℕ
record_data = 1 ∷ 2 ∷ 3 ∷ []

dbput-Stored_example :
    (db' : Logdb) × (dbput key_of 2 db name record_data (some 9) (some 9) (some 16)
      ≡ done (db', true))
    × Stored db db' (record { key = 2; offset = 1; klen = 2; dlen = 3 }) name record_data
dbput-Stored_example =
    dbput-Stored key_of 2 db name record_data 9 9 16 tt tt (omega arith) (omega arith) (omega arith)
      (omega arith) (omega arith)

-- A database of one record, opened for reading, with the index read to its end.
abbrev full : Logdb
full = record {
  dfd = record { bytes = 65 ∷ 66 ∷ 1 ∷ 2 ∷ 3 ∷ []; pos = 0 };
  ifd = record {
    bytes = 2 ∷ 0 ∷ 0 ∷ 0 ∷ 0 ∷ 0 ∷ 0 ∷ 0 ∷ 2 ∷ 0 ∷ 0 ∷ 0 ∷ 3 ∷ 0 ∷ 0 ∷ 0 ∷ [];
    pos = 16;
  };
  bof = 0;
  root = node null 1 (record { key = 2; offset = 0; klen = 2; dlen = 3 }) null;
  flag = db_rdonly;
}

-- `dbget` finds the record but returns no data: it reads from the end of the index file.
dbget-no_data : (dbget key_of full name).1 ≡ some []
unfolding dbget sbtree_search
dbget-no_data = refl
