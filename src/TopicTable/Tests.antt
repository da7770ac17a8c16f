-- ===== src/TopicTable/Tests.antt =====
-- Lines and files of topics, and the theorems on them.
use event_stream_core.Prelude.{◌++◌, true, List, [], ◌∷◌, ◌≡◌, refl, some, Bytes, eqb, find_byte}
use event_stream_core.Event.{EventPriority, low, medium, high, critical}
use event_stream_core.TopicTable.{
  name_of, load_line, load_lines, lines_of, load_file_config, found_topic, find, trim, store_entry,
  priority_named,
}
use event_stream_core.TopicTable.Reads.{Reads, found_topic-Reads}
use event_stream_core.TopicTable.Load.{
  IsTopic, print_table, answer, or_else, last_entry, found_topic-load,
}

abbrev topic_bytes : Bytes
topic_bytes = b'a' ∷ b'/' ∷ b'1' ∷ []

abbrev entries : List (Bytes × EventPriority)
entries = (topic_bytes, high) ∷ (b'b' ∷ [], low) ∷ (topic_bytes, critical) ∷ []

-- A space inside a priority, an unknown priority, and lines without a colon
-- or a topic are skipped.
load_line_unknown : load_line (b'a' ∷ b':' ∷ b'h' ∷ b'i' ∷ []) [] ≡ []
unfolding load_line find_byte store_entry trim priority_named eqb
load_line_unknown = refl

load_line_no_colon : load_line (b'a' ∷ b'#' ∷ b':' ∷ []) [] ≡ []
unfolding load_line find_byte store_entry trim priority_named eqb
load_line_no_colon = refl

load_line_no_topic : load_line (32 ∷ b':' ∷ name_of low) [] ≡ []
unfolding load_line find_byte store_entry trim priority_named eqb
load_line_no_topic = refl

load_file :
    load_file_config (some (print_table entries)) []
    ≡ ((topic_bytes, critical) ∷ (b'b' ∷ [], low) ∷ (topic_bytes, high) ∷ [], true)
unfolding load_file_config print_table load_lines lines_of load_line find_byte store_entry trim
    priority_named eqb
load_file = refl

found_topic-load_example :
    let (table', done) = load_file_config (some (print_table entries)) [] in
    (done ≡ true)
    × (found_topic topic_bytes medium table'
        ≡ answer (or_else (last_entry topic_bytes entries) (find topic_bytes [])) medium)
found_topic-load_example =
    found_topic-load entries [] topic_bytes medium (entry_ok, (b_ok, (entry_ok, tt)))
  where
    entry_ok : IsTopic topic_bytes
    entry_ok = (
      (refl, refl),
      (refl, (refl, (refl, tt))),
      (refl, (refl, (refl, tt))),
      (refl, (refl, (refl, tt))),
    )

    b_ok : IsTopic (b'b' ∷ [])
    b_ok = ((refl, refl), (refl, tt), (refl, tt), (refl, tt))

-- A comment that looks like an entry, an entry with a comment, and a line with no topic.
abbrev mixed_file : Bytes
mixed_file =
    b'#' ∷ b'a' ∷ b':' ∷ name_of high
    ++ 10 ∷ b'a' ∷ b' ' ∷ b':' ∷ b' ' ∷ name_of low
    ++ b' ' ∷ b'#' ∷ b':' ∷ 10 ∷ b' ' ∷ b':' ∷ name_of critical

mixed_load : load_file_config (some mixed_file) [] ≡ ((b'a' ∷ [], low) ∷ [], true)
unfolding load_file_config load_lines lines_of load_line find_byte store_entry trim priority_named
    eqb
mixed_load = refl

found_topic-Reads_example :
    let (table', loaded) = load_file_config (some mixed_file) [] in
    (loaded ≡ true)
    × (es : List (Bytes × EventPriority)) × Reads (lines_of mixed_file) es
    × ((topic : Bytes) (d : EventPriority)
        → found_topic topic d table' ≡ answer (or_else (last_entry topic es) (find topic [])) d)
found_topic-Reads_example = found_topic-Reads mixed_file []
