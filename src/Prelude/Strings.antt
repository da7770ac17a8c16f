-- ===== src/Prelude/Strings.antt =====
-- Comparison of byte strings, and positions in them (`std::string`).
use Prim.Native.Nat.{ℕ, suc}
use mathlib.Core.Path.{◌≡◌, refl}
use mathlib.Core.Logic.{◌↔◌, inl, inr}
use mathlib.Core.Bool.{Bool, true, false, ◌&&◌}
use mathlib.Core.List.{[], ◌∷◌}
use mathlib.Core.Option.{Option, none, some}
use native.Mathlib.Omega.{arith}
use event_stream_core.Prelude.Tests.{◌==◌, if◌then◌else◌, Bool-cases}
use event_stream_core.Prelude.Words.{Bytes}

-- `==` on strings.
unfoldable pub eqb : Bytes → Bytes → Bool
eqb [] [] = true
eqb [] (y ∷ ys) = false
eqb (x ∷ xs) [] = false
eqb (x ∷ xs) (y ∷ ys) = x == y && eqb xs ys

pub eqb→eq : (xs ys : Bytes) → eqb xs ys ≡ true → xs ≡ ys
unfolding eqb
eqb→eq [] [] h = refl
eqb→eq [] (y ∷ ys) h = cc
eqb→eq (x ∷ xs) [] h = cc
eqb→eq (x ∷ xs) (y ∷ ys) h = ground (arith, eqb→eq xs ys)

pub eqb_refl : (xs : Bytes) → eqb xs xs ≡ true
unfolding eqb
eqb_refl [] = refl
eqb_refl (x ∷ xs) = ground (arith, eqb_refl xs)

pub eqb_ne : (xs ys : Bytes) → (xs ≡ ys → ⊥) → eqb xs ys ≡ false
eqb_ne xs ys h = elim (Bool-cases (eqb xs ys)) [ inl e ↦ absurd (h (eqb→eq xs ys e)) | inr e ↦ e ]

pub eqb_iff : (xs ys : Bytes) → (eqb xs ys ≡ true) ↔ (xs ≡ ys)
eqb_iff xs ys = (eqb→eq xs ys, λ e. rw (← e) (eqb_refl xs))

-- `s.find(c)`, with `none` for `npos`.
unfoldable pub find_byte : ℕ → Bytes → Option ℕ
find_byte c [] = none
find_byte c (x ∷ xs) =
    let rest = find_byte c xs in
    if x == c then some 0 else (elim rest [ none ↦ none | some i ↦ some (suc i) ])
