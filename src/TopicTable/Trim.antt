-- ===== src/TopicTable/Trim.antt =====
-- `trim` drops the blanks at both ends and nothing else.
use event_stream_core.Prelude.{
  ℕ, ◌+◌, ◌-◌, ◌<◌, true, false, none, some, [], ◌∷◌, ◌++◌, ◌≡◌, refl, ◌∙◌, length, take, drop, All,
  Bytes, arith, take-append, drop-append,
}
use event_stream_core.TopicTable.{is_space, first_not_space, last_not_space, trim}

abbrev pub IsSpace : ℕ → Type 0
IsSpace c = is_space c ≡ true

-- A word: not empty, with no blank at either end.
abbrev pub StartsDark : Bytes → Type 0
StartsDark [] = ⊥
StartsDark (c ∷ cs) = is_space c ≡ false

abbrev pub EndsDark : Bytes → Type 0
EndsDark [] = ⊥
EndsDark (c ∷ []) = is_space c ≡ false
EndsDark (c ∷ d ∷ cs) = EndsDark (d ∷ cs)

abbrev pub IsWord : Bytes → Type 0
IsWord s = StartsDark s × EndsDark s

StartsDark-append : (s after : Bytes) → StartsDark s → first_not_space (s ++ after) ≡ some 0
unfolding first_not_space
StartsDark-append [] after h = absurd h
StartsDark-append (c ∷ cs) after h = rw h

EndsDark-last : (s : Bytes) → EndsDark s → last_not_space s ≡ some (length s - 1)
unfolding last_not_space
EndsDark-last [] h = absurd h
EndsDark-last (c ∷ []) h = rw h
EndsDark-last (c ∷ d ∷ cs) h = rw (EndsDark-last (d ∷ cs) h) (ground arith)

first_not_space-append :
    (blanks s : Bytes)
    → All IsSpace blanks
    → first_not_space s ≡ some 0
    → first_not_space (blanks ++ s) ≡ some (length blanks)
unfolding first_not_space
first_not_space-append [] s h f = f
first_not_space-append (c ∷ cs) s h f = ground (arith, first_not_space-append cs s)

last_not_space_blank : (blanks : Bytes) → All IsSpace blanks → last_not_space blanks ≡ none
unfolding last_not_space
last_not_space_blank [] h = refl
last_not_space_blank (c ∷ cs) h = ground (arith, last_not_space_blank cs)

last_not_space-append_right :
    (s blanks : Bytes) → All IsSpace blanks → last_not_space (s ++ blanks) ≡ last_not_space s
unfolding last_not_space
last_not_space-append_right [] blanks h = last_not_space_blank blanks h
last_not_space-append_right (c ∷ cs) blanks h =
    ground (arith, last_not_space-append_right cs blanks)

last_not_space-append_left :
    (pre s : Bytes) (i : ℕ)
    → last_not_space s ≡ some i
    → last_not_space (pre ++ s) ≡ some (length pre + i)
unfolding last_not_space
last_not_space-append_left [] s i h = ground arith
last_not_space-append_left (c ∷ cs) s i h = ground (arith, last_not_space-append_left cs s i)

cut_middle :
    (before word after : Bytes)
    → 0 < length word
    → take
        (length before + (length word - 1) - length before + 1)
        (drop (length before) (before ++ (word ++ after)))
      ≡ word
cut_middle before word after h =
    let n : length before + (length word - 1) - length before + 1 ≡ length word = omega arith in
    rw (drop-append before (word ++ after), n) (take-append word after)

IsWord-pos : (s : Bytes) → StartsDark s → 0 < length s
IsWord-pos [] h = absurd h
IsWord-pos (c ∷ cs) h = omega arith

-- Blanks around a word are dropped.
pub trim-append :
    (before word after : Bytes)
    → All IsSpace before
    → All IsSpace after
    → IsWord word
    → trim (before ++ (word ++ after)) ≡ word
unfolding trim
trim-append before word after hb ha (starts, ends) =
    let first =
      first_not_space-append before (word ++ after) hb (StartsDark-append word after starts) in
    let last =
      last_not_space-append_left before (word ++ after) _
        (last_not_space-append_right word after ha ∙ EndsDark-last word ends) in
    rw (first, last) (cut_middle before word after (IsWord-pos word starts))
