-- ===== src/TopicTable/Parts.antt =====
-- Every text, cut where the reader of a line cuts it.
use event_stream_core.Prelude.{
  ℕ, Bool-cases, inl, inr, none, [], ◌∷◌, ◌++◌, ◌≡◌, ◌⊎◌, refl, ap, sym, ◌∙◌, ◌==◌, append_assoc,
  append-nil, All, Bytes, eqb, eqb→eq, arith,
}
use event_stream_core.Event.{EventPriority, low, medium, high, critical}
use event_stream_core.TopicTable.{is_space, first_not_space, trim, name_of, priority_named}
use event_stream_core.TopicTable.Trim.{IsSpace, EndsDark, IsWord, trim-append}
use event_stream_core.TopicTable.Lines.{Avoids, IsComment}

-- A byte is not there, or there is a first one.
abbrev pub FirstAt : ℕ → Bytes → Type 0
FirstAt c xs = (before : Bytes) × (after : Bytes) × (xs ≡ before ++ c ∷ after) × Avoids c before

pub first_at : (c : ℕ) (xs : Bytes) → Avoids c xs ⊎ FirstAt c xs
first_at c [] = inl tt
first_at c (x ∷ xs) = elim (Bool-cases (x == c)) [
  | inl same ↦ let here : x ≡ c = ground arith in inr ([], xs, ap (λ y. y ∷ xs) here, tt)
  | inr other ↦ elim (first_at c xs) [
    | inl none_there ↦ inl (other, none_there)
    | inr (before, after, splits, avoids) ↦
        inr (x ∷ before, after, ap (◌∷◌ x) splits, (other, avoids))
  ]
]

pub All-parts {ℓ} : (P : ℕ → Type ℓ) (xs ys : Bytes) → All P (xs ++ ys) → All P xs × All P ys
All-parts P [] ys h = (tt, h)
All-parts P (x ∷ xs) ys h = let (left, right) = All-parts P xs ys h.1 in ((h.0, left), right)

-- A line is its text and perhaps a comment.
pub split_line :
    (line : Bytes)
    → (text : Bytes) × (rest : Bytes) × (line ≡ text ++ rest) × Avoids b'#' text × IsComment rest
split_line line = elim (first_at b'#' line) [
  | inl avoids ↦ (line, [], sym (append-nil line), avoids, inl refl)
  | inr (before, after, splits, avoids) ↦ (before, b'#' ∷ after, splits, avoids, inr (after, refl))
]

-- A word with the blanks around it.
pub record Around (s : Bytes) : Type 0 where
  pub before : Bytes
  pub word : Bytes
  pub after : Bytes
  pub splits : s ≡ before ++ (word ++ after)
  pub blank_before : All IsSpace before
  pub blank_after : All IsSpace after
  pub is_word : IsWord word

EndsDark-cons : (c : ℕ) (s : Bytes) → EndsDark s → EndsDark (c ∷ s)
EndsDark-cons c [] h = absurd h
EndsDark-cons c (d ∷ s) h = h

EndsDark-append : (xs s : Bytes) → EndsDark s → EndsDark (xs ++ s)
EndsDark-append [] s h = h
EndsDark-append (x ∷ xs) s h = EndsDark-cons x (xs ++ s) (EndsDark-append xs s h)

pub around : (s : Bytes) → All IsSpace s ⊎ Around s
around [] = inl tt
around (c ∷ cs) = elim (Bool-cases (is_space c)) [
  | inl blank ↦ elim (around cs) [
    | inl blanks ↦ inl (blank, blanks)
    | inr r ↦ inr (record {
      before = c ∷ r.before;
      word = r.word;
      after = r.after;
      splits = ap (◌∷◌ c) r.splits;
      blank_before = (blank, r.blank_before);
      blank_after = r.blank_after;
      is_word = r.is_word;
    })
  ]
  | inr dark ↦ elim (around cs) [
    | inl blanks ↦ inr (record {
      before = [];
      word = c ∷ [];
      after = cs;
      splits = refl;
      blank_before = tt;
      blank_after = blanks;
      is_word = (dark, dark);
    })
    | inr r ↦ inr (record {
      before = [];
      word = c ∷ (r.before ++ r.word);
      after = r.after;
      splits = ap (◌∷◌ c) (r.splits ∙ sym (append_assoc r.before r.word r.after));
      blank_before = tt;
      blank_after = r.blank_after;
      is_word = (dark, EndsDark-append (c ∷ r.before) r.word r.is_word.1);
    })
  ]
]

first_not_space_blank : (s : Bytes) → All IsSpace s → first_not_space s ≡ none
unfolding first_not_space
first_not_space_blank [] h = refl
first_not_space_blank (c ∷ cs) h = ground (arith, first_not_space_blank cs h.1)

pub trim_blank : (s : Bytes) → All IsSpace s → trim s ≡ []
unfolding trim
trim_blank s h = rw (first_not_space_blank s h) refl

pub trim-Around : (s : Bytes) (r : Around s) → trim s ≡ r.word
trim-Around s r =
    ap trim r.splits ∙ trim-append r.before r.word r.after r.blank_before r.blank_after r.is_word

-- A text is the name of a priority, or of none.
pub name_at : (pr : Bytes) → ((p : EventPriority) × (pr ≡ name_of p)) ⊎ (priority_named pr ≡ none)
unfolding priority_named
name_at pr = elim (Bool-cases (eqb pr (name_of low))) [
  | inl e ↦ inl (low, eqb→eq pr _ e)
  | inr not_low ↦ elim (Bool-cases (eqb pr (name_of medium))) [
    | inl e ↦ inl (medium, eqb→eq pr _ e)
    | inr not_medium ↦ elim (Bool-cases (eqb pr (name_of high))) [
      | inl e ↦ inl (high, eqb→eq pr _ e)
      | inr not_high ↦ elim (Bool-cases (eqb pr (name_of critical))) [
        | inl e ↦ inl (critical, eqb→eq pr _ e)
        | inr not_critical ↦ inr (rw (not_low, not_medium, not_high, not_critical) refl)
      ]
    ]
  ]
]
