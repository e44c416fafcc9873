-- ===== src/Builders/Times.antt =====
-- The metadata that `GenMetadata` of core/testhelpers/builders.go makes.
use Prim.Native.Nat.{◌%◌}
use native.Mathlib.Nat.{mod-lt}
use cbtraining.Base.{ℕ, suc, ◌+◌, ◌-◌, ◌≤◌, ◌<◌, ◌≡◌, arith, ◌==◌, Bool-cases, inl, inr}
use cbtraining.ValObj.{Metadata}
use cbtraining.Builders.Random.{Source, truncate, day, millisecond, later_than, gen_metadata}

truncate-within :
    (t : ℕ)
    → (truncate t millisecond ≤ t)
      × (t < truncate t millisecond + millisecond)
      × (truncate t millisecond % millisecond ≡ 0)
truncate-within t = (omega arith, omega arith, omega arith)

-- Two times of yesterday, in order.
pub record IsYesterday (now : ℕ) (m : Metadata) : Type 0 where
  pub order : m.created_at ≤ m.updated_at
  pub after : truncate (now - day) day ≤ m.created_at
  pub before : m.updated_at < truncate (now - day) day + day

later_than-within :
    (r : Source) (created remaining k : ℕ)
    → created % millisecond ≡ 0
    → (created ≤ (later_than r created remaining k).0)
      × ((later_than r created remaining k).0 ≤ created + remaining)
unfolding later_than
later_than-within r created remaining k h = elim (Bool-cases (remaining == 0)) [
  | inl e ↦ rw e (omega arith, omega arith)
  | inr e ↦
      let below : r.number k % remaining < remaining = mod-lt (r.number k) (ground arith) in
      rw e (omega arith, omega arith)
]

pub gen_metadata-IsYesterday :
    (r : Source) (k : ℕ) → day ≤ r.clock k → IsYesterday (r.clock k) (gen_metadata r k).0
unfolding gen_metadata
gen_metadata-IsYesterday r k h =
    let start : ℕ = truncate (r.clock k - day) day in
    let offset : ℕ = r.number (suc k) % (day - millisecond) in
    let below : offset < day - millisecond = mod-lt (r.number (suc k)) (omega arith) in
    let created : ℕ = truncate (start + offset) millisecond in
    let whole : start % millisecond ≡ 0 = omega arith in
    let after_start : start ≤ created = omega arith in
    let (a, b) =
      later_than-within r created (start + (day - millisecond) - created) (suc (suc k))
        (omega arith) in
    record { order = a; after = after_start; before = omega arith }
