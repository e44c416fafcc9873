-- ===== src/Checks/Timeline/Bars.antt =====
-- The bars that `VisualizeTime` of core/testhelpers/utils.go draws.
use cbtraining.Base.{
  slice, ℕ, ◌+◌, ◌-◌, ◌≤◌, ◌<◌, ◌≡◌, ◌⊎◌, inl, inr, refl, ◌∙◌, arith, ℤ, len, false, List, [], ◌∷◌,
  some, ltb, length, get_elem?, All, if◌then◌else◌,
}
use cbtraining.Errors.{ok}
use cbtraining.Checks.{ProcessRecord, SafetyViolation, build_conflict_graph, check_safety}
use cbtraining.Checks.Laws.{check_safety-verify_processing_order}
use cbtraining.Checks.Timeline.{
  truncate, short_iban, Cell, blank, waits, runs, violates, Row, width, clamp, first_two, blanks,
  is_violator, start_off, end_off, bar_of, row_of, rows_of, visualize_time, earliest, latest,
}
use cbtraining.Checks.Timeline.Painted.{
  paint-Painted, length-blanks, get_elem?-blanks, clamp-within,
}
use cbtraining.Checks.Timeline.Ends.{IsFirst, IsLast, earliest-all, latest-all}

-- Dots up to `start`, marks up to `stop`, which is later, and blanks up to the width.
pub record IsBar (start stop : ℕ) (ch : Cell) (bar : List Cell) : Type 0 where
  pub some_mark : start < stop
  pub fits : stop ≤ width
  pub size : length bar ≡ width
  pub dots : (j : ℕ) → j < start → get_elem? bar j ≡ some waits
  pub marks : (j : ℕ) → start ≤ j → j < stop → get_elem? bar j ≡ some ch
  pub rest : (j : ℕ) → stop ≤ j → j < width → get_elem? bar j ≡ some blank

not_short : (n : ℕ) → 2 ≤ n → ltb n 2 ≡ false
not_short n h = ground arith

module _ (scale : ℕ → ℕ → ℕ → ℤ) where
  -- The offset of the start of a record, and that of its end, which is later.
  abbrev pub start_of : ℕ → ℕ → ProcessRecord → ℕ
  start_of min_t max_t r = clamp (scale r.start_time min_t max_t) 0 59

  abbrev pub stop_of : ℕ → ℕ → ProcessRecord → ℕ
  stop_of min_t max_t r = clamp (scale r.end_time min_t max_t) (start_of min_t max_t r + 1) 60

  bar_of-IsBar :
      (min_t max_t : ℕ) (ch : Cell) (r : ProcessRecord)
      → (bar : List Cell) × (bar_of scale min_t max_t ch r ≡ ok bar)
        × IsBar (start_of min_t max_t r) (stop_of min_t max_t r) ch bar
  unfolding bar_of end_off start_off
  bar_of-IsBar min_t max_t ch r =
      let start : ℕ = start_off scale min_t max_t r in
      let stop : ℕ = end_off scale min_t max_t r in
      let (s0, s1) = clamp-within (scale r.start_time min_t max_t) 0 (width - 1) (omega arith) in
      let low : start + 1 ≤ width = omega arith in
      let (e0, e1) = clamp-within (scale r.end_time min_t max_t) (start + 1) width low in
      let (one, p, v) =
        paint-Painted 0 start waits (blanks width) (ground (arith, length-blanks width)) in
      let (two, q, w) =
        paint-Painted start (stop - start) ch one (ground (arith, v.size, length-blanks width)) in
      (
        two,
        rw (p, bar_of) q,
        record {
          some_mark = omega arith;
          fits = e1;
          size = w.size ∙ v.size ∙ length-blanks width;
          dots = λ j l. w.outside j (inl l) ∙ v.inside j (omega arith) (omega arith);
          marks = λ j l m. w.inside j l (omega arith);
          rest = λ j l m.
              w.outside j (inr (omega arith))
              ∙ v.outside j (inr (omega arith))
              ∙ get_elem?-blanks width j m;
        },
      )

  -- An identification of which the first two bytes can be taken.
  abbrev pub HasTag : ProcessRecord → Type 0
  HasTag r = 2 ≤ len r.ete

  -- The row of a record.
  pub record IsRow (min_t max_t : ℕ) (vs : List SafetyViolation) (n : ℕ) (r : ProcessRecord)
      (row : Row) : Type 0 where
    pub number : row.number ≡ n
    pub from : row.from ≡ short_iban r.debtor_iban
    pub to : row.to ≡ short_iban r.creditor_iban
    pub violator : row.violator ≡ is_violator r.ete vs
    pub bar :
        IsBar
          (start_of min_t max_t r)
          (stop_of min_t max_t r)
          (if is_violator r.ete vs then violates else runs)
          row.bar

  abbrev pub AreRows : ℕ → ℕ → List SafetyViolation → ℕ → List ProcessRecord → List Row → Type 0
  AreRows min_t max_t vs n [] [] = Unit
  AreRows min_t max_t vs n (r ∷ rest) (row ∷ rows) =
      IsRow min_t max_t vs n r row × AreRows min_t max_t vs (n + 1) rest rows
  AreRows min_t max_t vs n _ _ = ⊥

  -- The rows of some records, between the first start and the last end.
  pub record Drawn (vs : List SafetyViolation) (records : List ProcessRecord) (rows : List Row)
      : Type 0 where
    pub min_t : ℕ
    pub max_t : ℕ
    pub first_start : IsFirst (λ r. r.start_time) min_t records
    pub last_end : IsLast (λ r. r.end_time) max_t records
    pub are_rows : AreRows min_t max_t vs 1 records rows

  row_of-IsRow :
      (min_t max_t : ℕ) (vs : List SafetyViolation) (n : ℕ) (r : ProcessRecord)
      → HasTag r
      → (row : Row) × (row_of scale min_t max_t vs n r ≡ ok row) × IsRow min_t max_t vs n r row
  unfolding row_of first_two
  row_of-IsRow min_t max_t vs n r h =
      let ch : Cell = if is_violator r.ete vs then violates else runs in
      let (bar, e, v) = bar_of-IsBar min_t max_t ch r in
      let row : Row = record {
        number = n;
        tag = truncate (slice r.ete 0 2) 10;
        from = short_iban r.debtor_iban;
        to = short_iban r.creditor_iban;
        bar = bar;
        violator = is_violator r.ete vs;
      } in
      (
        row,
        rw (not_short (len r.ete) h, e, row_of, first_two) refl,
        record { number = refl; from = refl; to = refl; violator = refl; bar = v },
      )

  rows_of-AreRows :
      (min_t max_t : ℕ) (vs : List SafetyViolation) (n : ℕ) (records : List ProcessRecord)
      → All HasTag records
      → (rows : List Row) × (rows_of scale min_t max_t vs n records ≡ ok rows)
        × AreRows min_t max_t vs n records rows
  unfolding rows_of
  rows_of-AreRows min_t max_t vs n [] h = ([], refl, tt)
  rows_of-AreRows min_t max_t vs n (r ∷ rest) h =
      let (row, e, v) = row_of-IsRow min_t max_t vs n r h.0 in
      let (rows, f, w) = rows_of-AreRows min_t max_t vs (n + 1) rest h.1 in
      (row ∷ rows, rw (e, f, rows_of) refl, (v, w))

  -- Whatever the floating-point quotient rounds to: if every identification has two bytes,
  -- `VisualizeTime` does not panic, draws no row for no record, and otherwise one row for each record,
  -- in order, with its number and accounts. A bar has 60 cells: dots up to the start, marks up to the
  -- end, and blanks. The start is where the quotient puts the record's start time between the first
  -- start and the last end of all records, kept within 0 and 59; the end where it puts its end time,
  -- kept within the start plus 1 and 60. The mark says whether the identification is in a violation
  -- that `CheckSafety` has found.
  pub visualize_time-AreRows :
      (records : List ProcessRecord)
      → All HasTag records
      → (vs : List SafetyViolation) × (rows : List Row) × (check_safety
            (build_conflict_graph records)
          ≡ ok vs)
        × (visualize_time scale records ≡ ok rows)
        × (((records ≡ []) × (rows ≡ [])) ⊎ Drawn vs records rows)
  unfolding visualize_time
  visualize_time-AreRows [] h =
      let (vs, found, agree) = check_safety-verify_processing_order [] in
      (vs, [], found, refl, inl (refl, refl))
  visualize_time-AreRows (r ∷ rest) h =
      let (vs, found, agree) = check_safety-verify_processing_order (r ∷ rest) in
      let min_t : ℕ = earliest r.start_time (r ∷ rest) in
      let max_t : ℕ = latest r.end_time (r ∷ rest) in
      let (rows, e, v) = rows_of-AreRows min_t max_t vs 1 (r ∷ rest) h in
      (
        vs,
        rows,
        found,
        rw (found, visualize_time) e,
        inr (record {
          min_t = min_t;
          max_t = max_t;
          first_start = earliest-all r rest;
          last_end = latest-all r rest;
          are_rows = v;
        }),
      )
