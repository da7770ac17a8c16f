-- ===== src/Storage/Limited.antt =====
-- A disk for the tests of Storage and of Benchmark.
use event_stream_core.Prelude.{
  ℕ, ◌+◌, ◌≡◌, sym, Bool, true, false, [], ◌++◌, length, leb, if◌then◌else◌, Bytes, append-nil,
  arith, Bool-cases, inl, inr,
}
use event_stream_core.Storage.{Device}

-- A disk with room for `room` bytes: a block that does not fit is refused.
abbrev pub limited_append : ℕ → Bytes → Bytes → Bytes × Bool
limited_append room contents block =
    if leb (length contents + length block) room
    then (contents ++ block, true)
    else (contents, false)

pub limited_good :
    (room : ℕ) (contents block : Bytes)
    → (limited_append room contents block).1 ≡ true
    → (limited_append room contents block).0 ≡ contents ++ block
limited_good room contents block h = ground arith

pub limited_keeps :
    (room : ℕ) (contents block : Bytes)
    → (part : Bytes) × ((limited_append room contents block).0 ≡ contents ++ part)
limited_keeps room contents block = elim (Bool-cases (leb (length contents + length block) room)) [
  | inl fits ↦ (block, rw fits)
  | inr full ↦ ([], rw full (sym (append-nil contents)))
]

abbrev pub limited : ℕ → Device
limited room = record {
  append = limited_append room;
  append_good = limited_good room;
  append_keeps = limited_keeps room;
}
