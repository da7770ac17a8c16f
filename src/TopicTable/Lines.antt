-- ===== src/TopicTable/Lines.antt =====
-- One line of the file, with its blanks and its comment.
use event_stream_core.Prelude.{
  ℕ, suc, ◌+◌, false, none, some, [], ◌∷◌, ◌++◌, ◌≡◌, ◌≢◌, refl, ◌∙◌, subst, ◌⊎◌, inl, inr, ◌==◌,
  length, drop, All, All-append, Bytes, eqb, find_byte, arith, take-append, append-nil,
}
use event_stream_core.Event.{EventPriority, low}
use event_stream_core.TopicTable.{
  Table, insert, is_space, trim, name_of, priority_named, strip_comment, store_entry, load_line,
}
use event_stream_core.TopicTable.Trim.{IsSpace, StartsDark, IsWord, trim-append}

abbrev pub Avoids : ℕ → Bytes → Type 0
Avoids c = All (λ x. (x == c) ≡ false)

find_byte-append :
    (c : ℕ) (xs ys : Bytes) → Avoids c xs → find_byte c (xs ++ c ∷ ys) ≡ some (length xs)
unfolding find_byte
find_byte-append c [] ys h = ground arith
find_byte-append c (x ∷ xs) ys h = ground (arith, find_byte-append c xs ys)

pub find_byte-none : (c : ℕ) (xs : Bytes) → Avoids c xs → find_byte c xs ≡ none
unfolding find_byte
find_byte-none c [] h = refl
find_byte-none c (x ∷ xs) h = ground (arith, find_byte-none c xs)

-- The end of a line: nothing, or a comment.
abbrev pub IsComment : Bytes → Type 0
IsComment rest = (rest ≡ []) ⊎ ((text : Bytes) × (rest ≡ b'#' ∷ text))

pub strip_comment-append :
    (line rest : Bytes) → Avoids b'#' line → IsComment rest → strip_comment (line ++ rest) ≡ line
strip_comment-append line rest h (inl e) = rw (e, append-nil line, find_byte-none b'#' line h)
strip_comment-append line rest h (inr (text, e)) =
    rw (e, find_byte-append b'#' line text h) (take-append line (b'#' ∷ text))

pub name_of-Avoids : (p : EventPriority) → Avoids b'#' (name_of p)
name_of-Avoids low = ground arith
name_of-Avoids p = ground arith

name_of-IsWord : (p : EventPriority) → IsWord (name_of p)
name_of-IsWord low = (refl, refl)
name_of-IsWord p = (refl, refl)

priority_named-name_of : (p : EventPriority) → priority_named (name_of p) ≡ some p
unfolding priority_named eqb
priority_named-name_of low = refl
priority_named-name_of p = refl

drop-past : (xs ys : Bytes) (c : ℕ) → drop (length xs + 1) (xs ++ c ∷ ys) ≡ ys
drop-past [] ys c = refl
drop-past (x ∷ xs) ys c =
    let n : suc (length xs) + 1 ≡ suc (length xs + 1) = omega arith in rw n (drop-past xs ys c)

pub load_line_split :
    (left right rest : Bytes) (table : Table)
    → Avoids b'#' left
    → Avoids b':' left
    → Avoids b'#' right
    → IsComment rest
    → load_line ((left ++ b':' ∷ right) ++ rest) table ≡ store_entry (trim left) (trim right) table
unfolding load_line
load_line_split left right rest table h k r c =
    let line : Avoids b'#' (left ++ b':' ∷ right) = All-append _ left (b':' ∷ right) h (refl, r) in
    rw (
      strip_comment-append (left ++ b':' ∷ right) rest line c,
      find_byte-append b':' left right k,
      take-append left (b':' ∷ right),
      drop-past left right b':',
    )

store_entry_lem :
    (topic : Bytes) (p : EventPriority) (table : Table)
    → topic ≢ []
    → store_entry topic (name_of p) table ≡ insert topic p table
unfolding store_entry
store_entry_lem [] p table h = absurd (h refl)
store_entry_lem (c ∷ cs) p table h = rw (priority_named-name_of p) (ground arith)

blanks-Avoids : (c : ℕ) (s : Bytes) → is_space c ≡ false → All IsSpace s → Avoids c s
blanks-Avoids c [] h a = tt
blanks-Avoids c (x ∷ xs) h a = (ground arith, blanks-Avoids c xs h a.1)

word-ne-nil : {s : Bytes} → IsWord s → s ≢ []
word-ne-nil {s} (starts, _) e = subst StartsDark e starts

-- A line `topic : PRIORITY # comment`, with any blanks around the two words and with or without
-- the comment, sets the topic's priority; the topic is any word without `#` and `:`.
pub load_line_entry :
    (b₁ topic b₂ b₃ b₄ rest : Bytes) (p : EventPriority) (table : Table)
    → All IsSpace b₁
    → All IsSpace b₂
    → All IsSpace b₃
    → All IsSpace b₄
    → IsWord topic
    → Avoids b'#' topic
    → Avoids b':' topic
    → IsComment rest
    → load_line (((b₁ ++ (topic ++ b₂)) ++ b':' ∷ (b₃ ++ (name_of p ++ b₄))) ++ rest) table
      ≡ insert topic p table
load_line_entry b₁ topic b₂ b₃ b₄ rest p table s₁ s₂ s₃ s₄ w h k c =
    load_line_split _ _ rest table (around b'#' refl topic b₁ b₂ s₁ s₂ h)
      (around b':' refl topic b₁ b₂ s₁ s₂ k)
      (around b'#' refl (name_of p) b₃ b₄ s₃ s₄ (name_of-Avoids p)) c
    ∙ rw (
      trim-append b₁ topic b₂ s₁ s₂ w,
      trim-append b₃ (name_of p) b₄ s₃ s₄ (name_of-IsWord p),
      store_entry_lem topic p table (word-ne-nil w),
    )
  where
    around :
        (c : ℕ)
        → is_space c ≡ false
        → (word x y : Bytes) → All IsSpace x
        → All IsSpace y
        → Avoids c word
        → Avoids c (x ++ (word ++ y))
    around c dark word x y sx sy a =
        All-append _ x (word ++ y) (blanks-Avoids c x dark sx)
          (All-append _ word y a (blanks-Avoids c y dark sy))
