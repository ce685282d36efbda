-- ===== src/Logqueue/Tests.antt =====
-- Runs of src/logqueue.c on small files.
use concentrator.Common.{ℕ, ◌≡◌, refl, true, some, List, [], ◌∷◌, arith}
use concentrator.Common.File.{le32}
use concentrator.Logqueue.{Logqueue, lqenqueue, lqdequeue}
use concentrator.Logqueue.Contents.{Holds, pointer}
use concentrator.Logqueue.Enqueue.{lqenqueue-Holds}
use concentrator.Logqueue.Fifo.{lqdequeue-Holds}

abbrev message : List ℕ
message = 1 ∷ 2 ∷ 3 ∷ []

abbrev fresh : Logqueue
fresh = record {
  dfd = record { bytes = []; pos = 0 };
  ifd = record { bytes = []; pos = 0 };
  pfd = record { bytes = []; pos = 0 };
}

-- One message waits.
abbrev one : Logqueue
one = record fresh {
  dfd = record { bytes = message; pos = 0 };
  ifd = record { bytes = 0 ∷ 0 ∷ 0 ∷ 0 ∷ 3 ∷ 0 ∷ 0 ∷ 0 ∷ []; pos = 0 };
}

fresh-Holds : Holds fresh []
unfolding pointer
fresh-Holds = record {
  used = [];
  pending = [];
  index = refl;
  points = refl;
  listed = refl;
  index_small = omega arith;
  data_small = omega arith;
}

one-Holds : Holds one (message ∷ [])
unfolding pointer le32
one-Holds = record {
  used = [];
  pending = one.ifd.bytes;
  index = refl;
  points = refl;
  listed = (0, [], omega arith, omega arith, refl, refl, refl);
  index_small = omega arith;
  data_small = omega arith;
}

lqenqueue-Holds_example :
    ((lqenqueue one message 100 100).1 ≡ true)
    × Holds (lqenqueue one message 100 100).0 (message ∷ message ∷ [])
lqenqueue-Holds_example =
    lqenqueue-Holds one (message ∷ []) message 100 100 one-Holds (omega arith) (omega arith)
      (omega arith) (omega arith)

lqdequeue-Holds_example : ((lqdequeue one 4).1 ≡ some message) × Holds (lqdequeue one 4).0 []
lqdequeue-Holds_example = lqdequeue-Holds one message [] 4 one-Holds (omega arith)
