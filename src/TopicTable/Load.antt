-- ===== src/TopicTable/Load.antt =====
-- A whole file: what is found in the table after it was loaded.
use event_stream_core.Prelude.{
  Bool, true, false, Option, none, some, List, [], ◌∷◌, ◌++◌, ◌≡◌, refl, ◌∙◌, ap, if◌then◌else◌,
  All, All-append, Bytes, eqb, arith, append-nil, inl,
}
use event_stream_core.Event.{EventPriority, low}
use event_stream_core.TopicTable.{
  Table, insert, find, name_of, lines_of, load_line, load_lines, load_file_config, found_topic,
}
use event_stream_core.TopicTable.Trim.{IsWord}
use event_stream_core.TopicTable.Lines.{Avoids, load_line_entry}

-- The lines `topic:PRIORITY` of a list of entries.
abbrev pub entry_line : Bytes → EventPriority → Bytes
entry_line topic p = topic ++ b':' ∷ name_of p

unfoldable pub print_table : List (Bytes × EventPriority) → Bytes
print_table [] = []
print_table ((topic, p) ∷ es) = entry_line topic p ++ 10 ∷ print_table es

-- A topic that a line can hold.
abbrev pub IsTopic : Bytes → Type 0
IsTopic t = IsWord t × Avoids b'#' t × Avoids b':' t × Avoids 10 t

lines_of-append :
    (line rest : Bytes) → Avoids 10 line → lines_of (line ++ 10 ∷ rest) ≡ line ∷ lines_of rest
unfolding lines_of
lines_of-append [] rest h = refl
lines_of-append (c ∷ cs) rest h = ground (arith, lines_of-append cs rest)

load_line_print :
    (topic : Bytes) (p : EventPriority) (table : Table)
    → IsTopic topic
    → load_line (entry_line topic p) table ≡ insert topic p table
load_line_print topic p table (w, h, k, _) =
    simp append-nil at (load_line_entry [] topic [] [] [] [] p table tt tt tt tt w h k (inl refl))

name_of-one_line : (p : EventPriority) → Avoids 10 (name_of p)
name_of-one_line low = ground arith
name_of-one_line p = ground arith

-- The entries in front of a table, the last one first.
abbrev pub insert_all : List (Bytes × EventPriority) → Table → Table
insert_all [] table = table
insert_all ((topic, p) ∷ es) table = insert_all es (insert topic p table)

load_lines-print :
    (es : List (Bytes × EventPriority)) (table : Table)
    → All (λ e. IsTopic e.0) es
    → load_lines (lines_of (print_table es)) table ≡ insert_all es table
unfolding load_lines print_table
load_lines-print [] table h = unfold lines_of in refl
load_lines-print ((topic, p) ∷ es) table (t, ts) =
    let line = All-append _ topic (b':' ∷ name_of p) t.3 (refl, name_of-one_line p) in
    ap (λ ls. load_lines ls table) (lines_of-append (entry_line topic p) (print_table es) line)
    ∙ ap (load_lines (lines_of (print_table es))) (load_line_print topic p table t)
    ∙ load_lines-print es (insert topic p table) ts

-- The priority that a list of entries gives a topic: that of the last entry for it.
abbrev pub last_entry : Bytes → List (Bytes × EventPriority) → Option EventPriority
last_entry topic [] = none
last_entry topic ((t, p) ∷ es) = elim (last_entry topic es) [
  | some q ↦ some q
  | none ↦ if eqb t topic then some p else none
]

abbrev pub or_else : Option EventPriority → Option EventPriority → Option EventPriority
or_else (some p) other = some p
or_else none other = other

pub find-insert_all :
    (topic : Bytes) (es : List (Bytes × EventPriority)) (table : Table)
    → find topic (insert_all es table) ≡ or_else (last_entry topic es) (find topic table)
unfolding find
find-insert_all topic [] table = refl
find-insert_all topic ((t, p) ∷ es) table =
    ground (arith, find-insert_all topic es (insert t p table))

-- What `FoundTopic` answers.
abbrev pub answer : Option EventPriority → EventPriority → EventPriority × Bool
answer (some p) d = (p, true)
answer none d = (d, false)

pub found_topic-answer :
    (topic : Bytes) (d : EventPriority) (table : Table)
    → found_topic topic d table ≡ answer (find topic table) d
unfolding found_topic
found_topic-answer topic d table = ground arith

-- After a file of entries was loaded over a table, `FoundTopic` answers with the last entry for
-- the topic, else with what the table said before; where neither has it, it answers false and
-- leaves the caller's priority alone.
pub found_topic-load :
    (es : List (Bytes × EventPriority)) (table : Table) (topic : Bytes) (d : EventPriority)
    → All (λ e. IsTopic e.0) es
    → let (table', done) = load_file_config (some (print_table es)) table in
      (done ≡ true)
      × (found_topic topic d table' ≡ answer (or_else (last_entry topic es) (find topic table)) d)
unfolding load_file_config
found_topic-load es table topic d h = (
  refl,
  found_topic-answer topic d _
      ∙ ap (λ o. answer o d)
          (ap (find topic) (load_lines-print es table h) ∙ find-insert_all topic es table),
)
