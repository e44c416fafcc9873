-- ===== src/Checks/Timeline/Painted.antt =====
-- The loops of `VisualizeTime` of core/testhelpers/utils.go that write into a bar.
use cbtraining.Base.{
  ℕ, zero, suc, ◌+◌, ◌≤◌, ◌<◌, ◌≡◌, ◌⊎◌, inl, inr, refl, sym, ap, ◌∙◌, arith, ℤ, pos, negsuc, List,
  [], ◌∷◌, some, ltb, length, get_elem?, set, length-set, get_elem?-set_self, get_elem?-set_ne,
  Bool-cases,
}
use cbtraining.Errors.{ok}
use cbtraining.Checks.Timeline.{Cell, blank, clamp, paint, blanks}

-- The cells from `from` on, `n` of them, are written, and no others.
pub record Painted (from n : ℕ) (ch : Cell) (bar bar' : List Cell) : Type 0 where
  pub size : length bar' ≡ length bar
  pub inside : (j : ℕ) → from ≤ j → j < from + n → get_elem? bar' j ≡ some ch
  pub outside : (j : ℕ) → (j < from) ⊎ (from + n ≤ j) → get_elem? bar' j ≡ get_elem? bar j

get_elem?-some :
    (bar : List Cell) (j : ℕ) → j < length bar → (c : Cell) × (get_elem? bar j ≡ some c)
get_elem?-some [] j h = absurd (ground arith)
get_elem?-some (c ∷ bar) zero h = (c, refl)
get_elem?-some (c ∷ bar) (suc j) h = get_elem?-some bar j (ground arith)

pub paint-Painted :
    (from n : ℕ) (ch : Cell) (bar : List Cell)
    → from + n ≤ length bar
    → (bar' : List Cell) × (paint from n ch bar ≡ ok bar') × Painted from n ch bar bar'
unfolding paint
paint-Painted from zero ch bar h = (
  bar,
  refl,
  record { size = refl; inside = λ j l m. absurd (omega arith); outside = λ j d. refl },
)
paint-Painted from (suc n) ch bar h =
    let (old, there) = get_elem?-some bar from (omega arith) in
    let (bar', e, v) =
      paint-Painted (suc from) n ch (set bar from ch) (ground (arith, length-set bar from ch)) in
    (
      bar',
      rw (there, paint) e,
      record {
        size = v.size ∙ length-set bar from ch;
        inside = λ j l m. elim (Bool-cases (ltb from j)) [
          | inl after ↦ v.inside j (ground arith) (omega arith)
          | inr here ↦
              let same : from ≡ j = ground arith in
              ap (get_elem? bar') (sym same)
              ∙ v.outside from (inl (omega arith))
              ∙ get_elem?-set_self bar from ch there
        ];
        outside = λ j d.
            v.outside j (elim d [ inl l ↦ inl (omega arith) | inr l ↦ inr (omega arith) ])
            ∙ get_elem?-set_ne bar from j ch
                (λ e. elim d [ inl l ↦ omega arith | inr l ↦ omega arith ]);
      },
    )

pub length-blanks : (n : ℕ) → length (blanks n) ≡ n
unfolding blanks
length-blanks zero = refl
length-blanks (suc n) = ap suc (length-blanks n)

pub get_elem?-blanks : (n j : ℕ) → j < n → get_elem? (blanks n) j ≡ some blank
unfolding blanks
get_elem?-blanks zero j h = absurd (omega arith)
get_elem?-blanks (suc n) zero h = refl
get_elem?-blanks (suc n) (suc j) h = get_elem?-blanks n j (omega arith)

pub clamp-within : (v : ℤ) (lo hi : ℕ) → lo ≤ hi → (lo ≤ clamp v lo hi) × (clamp v lo hi ≤ hi)
unfolding clamp
clamp-within (negsuc n) lo hi h = (omega arith, h)
clamp-within (pos n) lo hi h = ground arith
