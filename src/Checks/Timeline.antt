-- ===== src/Checks/Timeline.antt =====
-- `VisualizeTime` of core/testhelpers/utils.go: the rows of the timeline. Not kept are the texts around
-- them; an error of a record is never set, so that no bar has an `X`.
pub mod Painted
pub mod Ends
pub mod Bars
use Prim.Native.String.{◌++◌ as ◌<>◌}
use cbtraining.Base.{
  ℕ, zero, suc, ◌+◌, ◌-◌, ℤ, pos, negsuc, String, len, slice, Bool, true, false, ◌||◌, List, [],
  ◌∷◌, Option, none, some, ltb, leb, str_eq, if◌then◌else◌, get_elem?, set, Option-cases,
}
use cbtraining.Errors.{Result, ok, err, panic, ◌>>=◌}
use cbtraining.Checks.{ProcessRecord, build_conflict_graph, SafetyViolation, check_safety}

-- A byte of a bar: ' ', '.', '=' and '!'.
pub data Cell : Type 0 where
  blank waits runs violates : Cell

pub record Row : Type 0 where
  pub number : ℕ
  pub tag : String
  pub from : String
  pub to : String
  pub bar : List Cell
  pub violator : Bool  -- the suffix `[!SAFETY]`

abbrev pub width : ℕ
width = 60

unfoldable pub clamp : ℤ → ℕ → ℕ → ℕ
clamp (negsuc n) lo hi = lo
clamp (pos n) lo hi = if ltb n lo then lo else if ltb hi n then hi else n

unfoldable pub truncate : String → ℕ → String
truncate s n = if leb (len s) n then s else slice s 0 n

unfoldable pub short_iban : String → String
short_iban iban =
    if leb (len iban) 8
    then iban
    else slice iban 0 4 <> (".." <> slice iban (len iban - 4) (len iban))

-- `s[:2]`
unfoldable pub first_two : String → Result String
first_two s = if ltb (len s) 2 then panic else ok (slice s 0 2)

unfoldable pub earliest : ℕ → List ProcessRecord → ℕ
earliest t [] = t
earliest t (r ∷ rest) = earliest (if ltb r.start_time t then r.start_time else t) rest

unfoldable pub latest : ℕ → List ProcessRecord → ℕ
latest t [] = t
latest t (r ∷ rest) = latest (if ltb t r.end_time then r.end_time else t) rest

-- `for j := from; j < from+n; j++ { bar[j] = ch }`
unfoldable pub paint : ℕ → ℕ → Cell → List Cell → Result (List Cell)
paint from zero ch bar = ok bar
paint from (suc n) ch bar = elim (get_elem? bar from) [
  | none ↦ panic
  | some old ↦ paint (suc from) n ch (set bar from ch)
]

unfoldable pub blanks : ℕ → List Cell
blanks zero = []
blanks (suc n) = blank ∷ blanks n

unfoldable pub is_violator : String → List SafetyViolation → Bool
is_violator k [] = false
is_violator k (v ∷ rest) = str_eq v.rec_a.ete k || (str_eq v.rec_b.ete k || is_violator k rest)

-- `scale t minT maxT` is `int(float64(t.Sub(minT)) / float64(totalDur) * width)`, whatever it rounds to.
module _ (scale : ℕ → ℕ → ℕ → ℤ) where
  unfoldable pub start_off : ℕ → ℕ → ProcessRecord → ℕ
  unfolding clamp
  start_off min_t max_t r = clamp (scale r.start_time min_t max_t) 0 (width - 1)

  unfoldable pub end_off : ℕ → ℕ → ProcessRecord → ℕ
  unfolding clamp start_off
  end_off min_t max_t r = clamp (scale r.end_time min_t max_t) (start_off min_t max_t r + 1) width

  unfoldable pub bar_of : ℕ → ℕ → Cell → ProcessRecord → Result (List Cell)
  unfolding end_off paint
  bar_of min_t max_t ch r =
      let start = start_off min_t max_t r in
      (do
        bar ← paint 0 start waits (blanks width)
        paint start (end_off min_t max_t r - start) ch bar)

  unfoldable pub row_of : ℕ → ℕ → List SafetyViolation → ℕ → ProcessRecord → Result Row
  unfolding bar_of first_two truncate short_iban
  row_of min_t max_t vs n r = do
    two ← first_two r.ete
    bar ← bar_of min_t max_t (if is_violator r.ete vs then violates else runs) r
    ok (record {
      number = n;
      tag = truncate two 10;
      from = short_iban r.debtor_iban;
      to = short_iban r.creditor_iban;
      bar = bar;
      violator = is_violator r.ete vs;
    })

  unfoldable pub rows_of : ℕ → ℕ → List SafetyViolation → ℕ → List ProcessRecord → Result (List Row)
  unfolding row_of
  rows_of min_t max_t vs n [] = ok []
  rows_of min_t max_t vs n (r ∷ rest) = do
    row ← row_of min_t max_t vs n r
    more ← rows_of min_t max_t vs (n + 1) rest
    ok (row ∷ more)

  unfoldable pub visualize_time : List ProcessRecord → Result (List Row)
  unfolding rows_of earliest latest
  visualize_time [] = ok []
  visualize_time (r ∷ rest) = do
    vs ← check_safety (build_conflict_graph (r ∷ rest))
    rows_of (earliest r.start_time (r ∷ rest)) (latest r.end_time (r ∷ rest)) vs 1 (r ∷ rest)
