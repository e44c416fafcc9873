-- ===== src/Builders/Random.antt =====
-- The random pieces of core/testhelpers/builders.go: texts out of an alphabet, and metadata of yesterday.
-- A piece is a function of the place in the sequence of what math/rand, uuid and the clock give, and
-- returns the next place. A text of one byte is what `alphabet[i]` writes.
use Prim.Native.Nat.{◌%◌}
use Prim.Native.String.{◌++◌ as ◌<>◌}
use cbtraining.Base.{ℕ, zero, suc, ◌+◌, ◌-◌, String, len, ltb, ◌==◌, if◌then◌else◌}
use cbtraining.ValObj.{Metadata}

pub record Source : Type 0 where
  pub number : ℕ → ℕ  -- what `Intn` and `Int63n` reduce
  pub uuid : ℕ → String
  pub clock : ℕ → ℕ

-- What is made at a place, and the next place.
abbrev pub Gen {ℓ} : Type ℓ → Type ℓ
Gen A = ℕ → A × ℕ

abbrev pub always {ℓ} : {A : Type ℓ} → A → Gen A
always x k = (x, k)

infixl 5 ◌>>=◌
abbrev pub ◌>>=◌ {ℓ κ} : {A : Type ℓ} {B : Type κ} → Gen A → (A → Gen B) → Gen B
(m >>= next) k = next (m k).0 (m k).1

abbrev pub letters : String
letters = "ABCDEFGHIJKLMNOPQRSTUVWXYZ"

abbrev pub upper_alnum : String
upper_alnum = "ABCDEFGHIJKLMNOPQRSTUVWXYZ0123456789"

abbrev pub mixed_alnum : String
mixed_alnum = "ABCDEFGHIJKLMNOPQRSTUVWXYZabcdefghijklmnopqrstuvwxyz0123456789"

abbrev pub digits : String
digits = "0123456789"

-- `alphabet[i]`, as a text. No index is out of range, since `Intn` stays below the length.
unfoldable pub byte_at : String → ℕ → String
byte_at String.[] i = ""
byte_at (String.◌∷◌ c s) zero = String.◌∷◌ c ""
byte_at (String.◌∷◌ c s) (suc i) = byte_at s i

module _ (r : Source) where
  -- `rand.Intn(n)` and `rand.Int63n(n)`, for a positive `n`.
  unfoldable pub intn : ℕ → Gen ℕ
  intn n k = (r.number k % n, suc k)

  -- `alphabet[rand.Intn(len(alphabet))]`
  unfoldable pub any_byte : String → Gen String
  unfolding intn byte_at
  any_byte alphabet = do i ← intn (len alphabet); always (byte_at alphabet i)

  -- A loop that writes `n` bytes.
  unfoldable pub bytes : String → ℕ → Gen String
  unfolding any_byte
  bytes alphabet zero = always ""
  bytes alphabet (suc n) = do c ← any_byte alphabet; rest ← bytes alphabet n; always (c <> rest)

  unfoldable pub gen_txid : Gen String
  gen_txid k = (r.uuid k, suc k)

  -- `for b.Len() < length`, in at most `fuel` rounds.
  unfoldable pub fill : ℕ → ℕ → String → Gen String
  unfolding any_byte
  fill zero length b = always b
  fill (suc fuel) length b =
      if ltb (len b) length
      then (do c ← any_byte upper_alnum; fill fuel length (b <> c))
      else always b

  unfoldable pub gen_iban : Gen String
  unfolding any_byte fill
  gen_iban = do
    a ← any_byte letters
    b ← any_byte letters
    c ← any_byte digits
    d ← any_byte digits
    extra ← intn 9
    let length : ℕ = 18 + extra
    fill length length (a <> b <> c <> d)

  unfoldable pub gen_end_to_end_identification : Gen String
  unfolding bytes
  gen_end_to_end_identification = do extra ← intn 11; bytes mixed_alnum (10 + extra)

  unfoldable pub gen_bic : Gen String
  unfolding bytes
  gen_bic = do long ← intn 2; bytes upper_alnum (if long == 1 then 11 else 8)

  unfoldable pub gen_party_name : Gen String
  unfolding bytes
  gen_party_name = do a ← bytes letters 3; b ← bytes digits 3; always ("Party " <> (a <> b))

  -- `valobj.NewMetadataNow`
  unfoldable pub metadata_now : Gen Metadata
  metadata_now k = (record { created_at = r.clock k; updated_at = r.clock (suc k) }, suc (suc k))

-- 24 hours and one millisecond in nanoseconds.
abbrev pub day : ℕ
day = 86400000000000

abbrev pub millisecond : ℕ
millisecond = 1000000

-- `t.Truncate(d)`, for a time after 1970.
abbrev pub truncate : ℕ → ℕ → ℕ
truncate t d = t - t % d

module _ (r : Source) where
  unfoldable pub later_than : ℕ → ℕ → Gen ℕ
  unfolding intn
  later_than created remaining =
      if remaining == 0
      then always created
      else (do more ← intn r remaining; always (truncate (created + more) millisecond))

  unfoldable pub gen_metadata : Gen Metadata
  unfolding later_than
  gen_metadata k0 =
      let start : ℕ = truncate (r.clock k0 - day) day in
      let last : ℕ = start + (day - millisecond) in
      (do
        offset ← intn r (day - millisecond)
        let created : ℕ = truncate (start + offset) millisecond
        updated ← later_than created (last - created)
        always (record { created_at = created; updated_at = updated }))
        (suc k0)
