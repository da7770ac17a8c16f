-- ===== src/TopicTable.antt =====
-- include/event/Topic_table.hpp and src/event/Topic_table.cpp: priorities by topic, read from a
-- file of lines `topic:PRIORITY`. A file is the bytes that opening and reading it gave, or `none`
-- where it cannot be opened. The hash map is an association list, its newest entry for a key first.
pub mod Trim
pub mod Lines
pub mod Load
pub mod Parts
pub mod Reads
mod Tests
use event_stream_core.Prelude.{
  ℕ, suc, ◌+◌, ◌-◌, Bool, true, false, ◌||◌, Option, none, some, List, [], ◌∷◌, ◌==◌, if◌then◌else◌,
  take, drop, Bytes, eqb, find_byte,
}
use event_stream_core.Event.{EventPriority, low, medium, high, critical}

abbrev pub Table : Type 0
Table = List (Bytes × EventPriority)

-- `Table[topic] = priority`
abbrev pub insert : Bytes → EventPriority → Table → Table
insert topic priority table = (topic, priority) ∷ table

-- `Table.find(topic)`
unfoldable pub find : Bytes → Table → Option EventPriority
find topic [] = none
find topic ((t, p) ∷ table) = if eqb t topic then some p else find topic table

-- The reference argument `priority` is passed in and returned.
unfoldable pub found_topic : Bytes → EventPriority → Table → EventPriority × Bool
unfolding find
found_topic topic priority table = elim (find topic table) [
  | some p ↦ (p, true)
  | none ↦ (priority, false)
]

-- " \t\r\n"
abbrev pub is_space : ℕ → Bool
is_space c = c == b' ' || c == 9 || c == 13 || c == 10

abbrev pub next_index : Option ℕ → Option ℕ
next_index none = none
next_index (some i) = some (suc i)

-- `find_first_not_of` and `find_last_not_of`, with `none` for `npos`.
unfoldable pub first_not_space : Bytes → Option ℕ
first_not_space [] = none
first_not_space (c ∷ cs) =
    let rest = first_not_space cs in if is_space c then next_index rest else some 0

unfoldable pub last_not_space : Bytes → Option ℕ
last_not_space [] = none
last_not_space (c ∷ cs) = elim (last_not_space cs) [
  | some i ↦ some (suc i)
  | none ↦ if is_space c then none else some 0
]

-- With `a` found, `b` is found too; `npos` there would take the whole rest.
abbrev cut : Option ℕ → Option ℕ → Bytes → Bytes
cut none b s = []
cut (some a) none s = drop a s
cut (some a) (some b) s = take (b - a + 1) (drop a s)

unfoldable pub trim : Bytes → Bytes
unfolding first_not_space last_not_space
trim s = cut (first_not_space s) (last_not_space s) s

abbrev pub name_of : EventPriority → Bytes
name_of low = b'L' ∷ b'O' ∷ b'W' ∷ []
name_of medium = b'M' ∷ b'E' ∷ b'D' ∷ b'I' ∷ b'U' ∷ b'M' ∷ []
name_of high = b'H' ∷ b'I' ∷ b'G' ∷ b'H' ∷ []
name_of critical = b'C' ∷ b'R' ∷ b'I' ∷ b'T' ∷ b'I' ∷ b'C' ∷ b'A' ∷ b'L' ∷ []

-- The ladder of comparisons; `none` is the last `continue`.
unfoldable pub priority_named : Bytes → Option EventPriority
priority_named pr =
    if eqb pr (name_of low)
    then some low
    else if eqb pr (name_of medium)
    then some medium
    else if eqb pr (name_of high)
    then some high
    else if eqb pr (name_of critical)
    then some critical
    else none

-- `if (posc != npos) line = line.substr(0, posc)`
abbrev pub keep_until : Option ℕ → Bytes → Bytes
keep_until none line = line
keep_until (some posc) line = take posc line

abbrev pub strip_comment : Bytes → Bytes
strip_comment line = keep_until (find_byte b'#' line) line

abbrev pub is_empty : Bytes → Bool
is_empty [] = true
is_empty (c ∷ cs) = false

abbrev pub set_priority : Option EventPriority → Bytes → Table → Table
set_priority none topic table = table
set_priority (some p) topic table = insert topic p table

unfoldable pub store_entry : Bytes → Bytes → Table → Table
store_entry topic pr table =
    if is_empty topic || is_empty pr then table else set_priority (priority_named pr) topic table

-- The rest of a turn of the loop, from `find(':')` on.
abbrev pub split_entry : Option ℕ → Bytes → Table → Table
split_entry none line table = table
split_entry (some pos) line table =
    store_entry (trim (take pos line)) (trim (drop (pos + 1) line)) table

-- One turn of the loop.
unfoldable pub load_line : Bytes → Table → Table
load_line raw table = let line = strip_comment raw in split_entry (find_byte b':' line) line table

-- `std::getline` on the rest of the file: the lines end at each newline, and a last line without
-- one counts if it is not empty.
abbrev add_byte : ℕ → List Bytes → List Bytes
add_byte c [] = (c ∷ []) ∷ []
add_byte c (l ∷ ls) = (c ∷ l) ∷ ls

unfoldable pub lines_of : Bytes → List Bytes
lines_of [] = []
lines_of (c ∷ cs) = if c == 10 then [] ∷ lines_of cs else add_byte c (lines_of cs)

unfoldable pub load_lines : List Bytes → Table → Table
load_lines [] table = table
load_lines (l ∷ ls) table = load_lines ls (load_line l table)

unfoldable pub load_file_config : Option Bytes → Table → Table × Bool
load_file_config none table = (table, false)
load_file_config (some file) table = (load_lines (lines_of file) table, true)
