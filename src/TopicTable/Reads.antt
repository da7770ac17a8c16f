-- ===== src/TopicTable/Reads.antt =====
-- What any file says: which of its lines are entries, and that the others are passed over.
use event_stream_core.Prelude.{
  ℕ, true, none, some, inl, inr, List, [], ◌∷◌, ◌++◌, ◌≡◌, ◌⊎◌, refl, ap, ap₂, subst, sym, ◌∙◌, All,
  Bytes, arith,
}
use event_stream_core.Event.{EventPriority}
use event_stream_core.TopicTable.{
  Table, insert, find, found_topic, trim, name_of, priority_named, store_entry, load_line,
  load_lines, lines_of, load_file_config,
}
use event_stream_core.TopicTable.Trim.{IsSpace, IsWord}
use event_stream_core.TopicTable.Lines.{
  Avoids, IsComment, strip_comment-append, find_byte-none, load_line_split, load_line_entry,
}
use event_stream_core.TopicTable.Load.{
  insert_all, last_entry, or_else, answer, find-insert_all, found_topic-answer,
}
use event_stream_core.TopicTable.Parts.{
  first_at, All-parts, split_line, Around, around, trim_blank, trim-Around, name_at,
}

-- A line `topic : PRIORITY # comment`: any blanks around the two words, and a comment or none. The
-- topic is a word without `#` and `:`.
pub record IsEntry (line topic : Bytes) (p : EventPriority) : Type 0 where
  pub before_topic : Bytes
  pub after_topic : Bytes
  pub before_name : Bytes
  pub after_name : Bytes
  pub comment : Bytes
  pub splits :
      line
      ≡ ((before_topic ++ (topic ++ after_topic))
          ++ b':' ∷ (before_name ++ (name_of p ++ after_name)))
        ++ comment
  pub blanks :
      All IsSpace before_topic
      × All IsSpace after_topic
      × All IsSpace before_name
      × All IsSpace after_name
  pub is_topic : IsWord topic × Avoids b'#' topic × Avoids b':' topic
  pub is_comment : IsComment comment

IsEntry-load_line :
    (line topic : Bytes) (p : EventPriority)
    → IsEntry line topic p
    → (table : Table) → load_line line table ≡ insert topic p table
IsEntry-load_line line topic p e table =
    let (s₁, s₂, s₃, s₄) = e.blanks in
    let (word, no_hash, no_colon) = e.is_topic in
    ap (λ l. load_line l table) e.splits
    ∙ load_line_entry e.before_topic topic e.after_topic e.before_name e.after_name e.comment p
        table s₁ s₂ s₃ s₄ word no_hash no_colon e.is_comment

-- An entry, or a line that changes no table.
abbrev EntryOrNot : Bytes → Type 0
EntryOrNot line =
    ((topic : Bytes) × (p : EventPriority) × IsEntry line topic p)
    ⊎ ((table : Table) → load_line line table ≡ table)

store_entry_no_topic : (pr : Bytes) (table : Table) → store_entry [] pr table ≡ table
unfolding store_entry
store_entry_no_topic pr table = refl

store_entry_no_name :
    (topic pr : Bytes) (table : Table)
    → priority_named pr ≡ none
    → store_entry topic pr table ≡ table
unfolding store_entry
store_entry_no_name topic pr table h = rw h (ground arith)

store_entry_no_priority : (topic : Bytes) (table : Table) → store_entry topic [] table ≡ table
unfolding store_entry
store_entry_no_priority topic table = ground arith

word-Avoids : (c : ℕ) (s : Bytes) (a : Around s) → Avoids c s → Avoids c a.word
word-Avoids c s a h =
    let inside = All-parts _ a.before (a.word ++ a.after) (subst (Avoids c) a.splits h) in
    (All-parts _ a.word a.after inside.1).0

module _ (left right rest : Bytes) where
  abbrev whole : Bytes
  whole = (left ++ b':' ∷ right) ++ rest

  -- The two sides of the first colon, with a word on each.
  words_cases :
      Avoids b'#' left
      → Avoids b':' left
      → Avoids b'#' right
      → IsComment rest
      → Around left
      → Around right
      → EntryOrNot whole
  words_cases h k r c l m = elim (name_at m.word) [
    | inl (p, named) ↦ inl (
      l.word,
      p,
      record {
        before_topic = l.before;
        after_topic = l.after;
        before_name = m.before;
        after_name = m.after;
        comment = rest;
        splits =
            ap₂ (λ x y. (x ++ b':' ∷ y) ++ rest) l.splits
              (m.splits ∙ ap (λ n. m.before ++ (n ++ m.after)) named);
        blanks = (l.blank_before, l.blank_after, m.blank_before, m.blank_after);
        is_topic = (l.is_word, word-Avoids b'#' left l h, word-Avoids b':' left l k);
        is_comment = c;
      },
    )
    | inr unknown ↦ inr (λ table.
        load_line_split left right rest table h k r c
        ∙ ap (λ t. store_entry t (trim right) table) (trim-Around left l)
        ∙ ap (λ n. store_entry l.word n table) (trim-Around right m)
        ∙ store_entry_no_name l.word m.word table unknown)
  ]

  sides_cases :
      Avoids b'#' left → Avoids b':' left → Avoids b'#' right → IsComment rest → EntryOrNot whole
  sides_cases h k r c = elim (around left) [
    | inl blank ↦ inr (λ table.
        load_line_split left right rest table h k r c
        ∙ ap (λ t. store_entry t (trim right) table) (trim_blank left blank)
        ∙ store_entry_no_topic (trim right) table)
    | inr l ↦ elim (around right) [
      | inl blank ↦ inr (λ table.
          load_line_split left right rest table h k r c
          ∙ ap (λ n. store_entry (trim left) n table) (trim_blank right blank)
          ∙ store_entry_no_priority (trim left) table)
      | inr m ↦ words_cases h k r c l m
    ]
  ]

no_colon-load_line :
    (text rest : Bytes)
    → Avoids b'#' text
    → Avoids b':' text
    → IsComment rest
    → (table : Table) → load_line (text ++ rest) table ≡ table
unfolding load_line
no_colon-load_line text rest h k c table =
    rw (strip_comment-append text rest h c, find_byte-none b':' text k) refl

text_cases : (text rest : Bytes) → Avoids b'#' text → IsComment rest → EntryOrNot (text ++ rest)
text_cases text rest h c = elim (first_at b':' text) [
  | inl no_colon ↦ inr (no_colon-load_line text rest h no_colon c)
  | inr (left, right, splits, k) ↦
      let sides = All-parts _ left (b':' ∷ right) (subst (Avoids b'#') splits h) in
      subst (λ t. EntryOrNot (t ++ rest)) (sym splits)
        (sides_cases left right rest sides.0 k sides.1.1 c)
]

load_line-cases : (line : Bytes) → EntryOrNot line
load_line-cases line =
    let (text, rest, splits, h, c) = split_line line in
    subst EntryOrNot (sym splits) (text_cases text rest h c)

cons-ne-nil : {e : Bytes × EventPriority} {t : Table} → e ∷ t ≡ [] → ⊥
cons-ne-nil e = cc

head-eq : {e f : Bytes × EventPriority} {t u : Table} → e ∷ t ≡ f ∷ u → e ≡ f
head-eq h = cc

-- The entries of some lines, in order; a line that is no entry says nothing.
pub data Reads : List Bytes → List (Bytes × EventPriority) → Type 0 where
  ends : Reads [] []
  entry :
      {line topic : Bytes} {p : EventPriority} {ls : List Bytes} {es : List (Bytes × EventPriority)}
      → IsEntry line topic p
      → Reads ls es
      → Reads (line ∷ ls) ((topic, p) ∷ es)
  passed :
      {line : Bytes} {ls : List Bytes} {es : List (Bytes × EventPriority)}
      → ((topic : Bytes) (p : EventPriority) → ¬ IsEntry line topic p)
      → Reads ls es
      → Reads (line ∷ ls) es

load_lines-Reads :
    (ls : List Bytes)
    → (es : List (Bytes × EventPriority)) × Reads ls es
      × ((table : Table) → load_lines ls table ≡ insert_all es table)
unfolding load_lines
load_lines-Reads [] = ([], ends, λ table. refl)
load_lines-Reads (l ∷ ls) =
    let (es, reads, same) = load_lines-Reads ls in
    elim (load_line-cases l) [
      | inl (topic, p, is_entry) ↦ (
        (topic, p) ∷ es,
        entry is_entry reads,
        λ table.
            ap (load_lines ls) (IsEntry-load_line l topic p is_entry table)
            ∙ same (insert topic p table),
      )
      | inr kept ↦ (
        es,
        passed (λ topic p e. cons-ne-nil (sym (IsEntry-load_line l topic p e []) ∙ kept [])) reads,
        λ table. ap (load_lines ls) (kept table) ∙ same table,
      )
    ]

-- For every file, whatever its bytes: its lines that have the form of an entry, and no others, are
-- read as entries, in their order. After it was loaded over a table, `FoundTopic` answers with the
-- last of them for the topic, else with what the table said before; where neither has the topic, it
-- answers false and leaves the caller's priority alone.
pub found_topic-Reads :
    (file : Bytes) (table : Table)
    → let (table', loaded) = load_file_config (some file) table in
      (loaded ≡ true)
      × (es : List (Bytes × EventPriority)) × Reads (lines_of file) es
      × ((topic : Bytes) (d : EventPriority)
          → found_topic topic d table'
            ≡ answer (or_else (last_entry topic es) (find topic table)) d)
unfolding load_file_config
found_topic-Reads file table =
    let (es, reads, same) = load_lines-Reads (lines_of file) in
    (
      refl,
      es,
      reads,
      λ topic d.
          found_topic-answer topic d _
          ∙ ap (λ o. answer o d) (ap (find topic) (same table) ∙ find-insert_all topic es table),
    )

-- The lines of a file are read in one way only.
pub Reads-unique :
    {ls : List Bytes} {es fs : List (Bytes × EventPriority)} → Reads ls es → Reads ls fs → es ≡ fs
Reads-unique ends ends = refl
Reads-unique (entry {line} {topic} {p} e r) (entry {topic = topic'} {p = p'} f q) =
    let same : insert topic p [] ≡ insert topic' p' [] =
      sym (IsEntry-load_line line topic p e []) ∙ IsEntry-load_line line topic' p' f [] in
    ap₂ (λ x xs. x ∷ xs) (head-eq same) (Reads-unique r q)
Reads-unique (entry {topic = topic} {p = p} e r) (passed none_fits q) = absurd (none_fits topic p e)
Reads-unique (passed none_fits r) (entry {topic = topic} {p = p} e q) = absurd (none_fits topic p e)
Reads-unique (passed none_fits r) (passed none_fits' q) = Reads-unique r q
