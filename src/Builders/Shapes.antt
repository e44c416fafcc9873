-- ===== src/Builders/Shapes.antt =====
-- The lengths and the characters of the random pieces of core/testhelpers/builders.go, whatever
-- math/rand gives.
use Prim.Native.Char.{Char}
use Prim.Native.String.{◌++◌ as ◌<>◌}
use text.Mathlib.TextPositions.{len-append}
use text.Mathlib.TextLemmas.{length-append, length-cons, nil-append, cons-append}
use native.Mathlib.Nat.{mod-lt}
use cbtraining.Base.{
  ap, ℕ, zero, suc, ◌+◌, ◌≤◌, ◌<◌, ◌≡◌, ◌∙◌, refl, String, len, count, ltb, ◌==◌, Bool, true, ◌&&◌,
  arith, Bool-cases, inl, inr, ◌⊎◌,
}
use cbtraining.ValObj.{all_chars, is_end_to_end_char}
use cbtraining.ValObj.Laws.{IsEndToEndId, IsEndToEndChar, all_chars_sound, is_end_to_end_char_iff}
use cbtraining.Builders.Random.{
  Source, letters, upper_alnum, mixed_alnum, digits, byte_at, intn, any_byte, bytes, fill, gen_iban,
  gen_bic, gen_end_to_end_identification,
}

-- Every character of the text takes one byte.
narrow : String → Bool
narrow String.[] = true
narrow (String.◌∷◌ c s) = (len (String.◌∷◌ c "") == 1) && narrow s

byte_at-len : (s : String) (i : ℕ) → narrow s ≡ true → i < count s → len (byte_at s i) ≡ 1
unfolding narrow byte_at
byte_at-len String.[] i h l = absurd (ground arith)
byte_at-len (String.◌∷◌ c s) zero h l = ground arith
byte_at-len (String.◌∷◌ c s) (suc i) h l =
    byte_at-len s i (ground arith) (ground (arith, length-cons c s))

byte_at-count : (s : String) (i : ℕ) → i < count s → count (byte_at s i) ≡ 1
unfolding byte_at
byte_at-count String.[] i l = absurd (ground arith)
byte_at-count (String.◌∷◌ c s) zero l = ground (arith, length-cons c "")
byte_at-count (String.◌∷◌ c s) (suc i) l = byte_at-count s i (ground (arith, length-cons c s))

module _ (r : Source) where
  intn-lt : (n k : ℕ) → 0 < n → (intn r n k).0 < n
  unfolding intn
  intn-lt n k h = mod-lt (r.number k) h

  -- An alphabet: no empty text, one byte for each character.
  any_byte-len :
      (s : String) (k : ℕ)
      → narrow s ≡ true
      → 0 < len s
      → len s ≡ count s
      → len (any_byte r s k).0 ≡ 1
  unfolding any_byte
  any_byte-len s k n h e =
      byte_at-len s (intn r (len s) k).0 n (ground (arith, intn-lt (len s) k h))

  any_byte-count : (s : String) (k : ℕ) → 0 < len s → len s ≡ count s → count (any_byte r s k).0 ≡ 1
  unfolding any_byte
  any_byte-count s k h e =
      byte_at-count s (intn r (len s) k).0 (ground (arith, intn-lt (len s) k h))

  bytes-len :
      (s : String) (n k : ℕ)
      → narrow s ≡ true
      → 0 < len s
      → len s ≡ count s
      → len (bytes r s n k).0 ≡ n
  unfolding bytes
  bytes-len s zero k w h e = refl
  bytes-len s (suc n) k w h e =
      let c : String = (any_byte r s k).0 in
      let rest : String = (bytes r s n (any_byte r s k).1).0 in
      ground
        (arith, len-append c rest, any_byte-len s k w h e, bytes-len s n (any_byte r s k).1 w h e)

  bytes-count : (s : String) (n k : ℕ) → 0 < len s → len s ≡ count s → count (bytes r s n k).0 ≡ n
  unfolding bytes
  bytes-count s zero k h e = refl
  bytes-count s (suc n) k h e =
      let c : String = (any_byte r s k).0 in
      let rest : String = (bytes r s n (any_byte r s k).1).0 in
      ground (
        arith,
        length-append c rest,
        any_byte-count s k h e,
        bytes-count s n (any_byte r s k).1 h e,
      )

  -- The loop ends with exactly `length` bytes, if there is a round for each byte that is missing.
  fill-len :
      (fuel length : ℕ) (b : String) (k : ℕ)
      → len b ≤ length
      → length ≤ len b + fuel
      → len (fill r fuel length b k).0 ≡ length
  unfolding fill narrow
  fill-len zero length b k h l = ground arith
  fill-len (suc fuel) length b k h l = elim (Bool-cases (ltb (len b) length)) [
    | inl e ↦
        let c : String = (any_byte r upper_alnum k).0 in
        let one : len c ≡ 1 = any_byte-len upper_alnum k refl (omega arith) refl in
        let more : len (b <> c) ≡ len b + 1 = len-append b c ∙ ground arith in
        rw e
          (fill-len fuel length (b <> c) (any_byte r upper_alnum k).1 (ground arith) (ground arith))
    | inr e ↦ ground arith
  ]

  iban_fill-len :
      (a b c d : String) (extra k : ℕ)
      → len a ≡ 1
      → len b ≡ 1
      → len c ≡ 1
      → len d ≡ 1
      → len (fill r (18 + extra) (18 + extra) (a <> b <> c <> d) k).0 ≡ 18 + extra
  iban_fill-len a b c d extra k ha hb hc hd =
      let four : len (a <> b <> c <> d) ≡ 4 =
        ground (arith, len-append a (b <> (c <> d)), len-append b (c <> d), len-append c d) in
      fill-len (18 + extra) (18 + extra) (a <> b <> c <> d) k (omega arith) (omega arith)

  pub gen_iban-len : (k : ℕ) → (18 ≤ len (gen_iban r k).0) × (len (gen_iban r k).0 ≤ 26)
  unfolding gen_iban narrow
  gen_iban-len k =
      let k1 : ℕ = (any_byte r letters k).1 in
      let k2 : ℕ = (any_byte r letters k1).1 in
      let k3 : ℕ = (any_byte r digits k2).1 in
      let k4 : ℕ = (any_byte r digits k3).1 in
      let extra : ℕ = (intn r 9 k4).0 in
      let below : extra < 9 = intn-lt 9 k4 (omega arith) in
      rw
        (iban_fill-len (any_byte r letters k).0 (any_byte r letters k1).0 (any_byte r digits k2).0
          (any_byte r digits k3).0 extra (intn r 9 k4).1
          (any_byte-len letters k refl (omega arith) refl)
          (any_byte-len letters k1 refl (omega arith) refl)
          (any_byte-len digits k2 refl (omega arith) refl)
          (any_byte-len digits k3 refl (omega arith) refl))
        (omega arith, omega arith)

  pub gen_bic-len : (k : ℕ) → (len (gen_bic r k).0 ≡ 8) ⊎ (len (gen_bic r k).0 ≡ 11)
  unfolding gen_bic narrow
  gen_bic-len k = elim (Bool-cases ((intn r 2 k).0 == 1)) [
    | inl e ↦ inr (rw e (bytes-len upper_alnum 11 (intn r 2 k).1 refl (omega arith) refl))
    | inr e ↦ inl (rw e (bytes-len upper_alnum 8 (intn r 2 k).1 refl (omega arith) refl))
  ]

  -- Bytes out of an alphabet whose characters all hold `p`.
  byte_at-all_chars :
      (p : Char → Bool) (s : String) (i : ℕ)
      → all_chars p s ≡ true
      → all_chars p (byte_at s i) ≡ true
  unfolding all_chars byte_at
  byte_at-all_chars p String.[] i h = refl
  byte_at-all_chars p (String.◌∷◌ c s) zero h = ground arith
  byte_at-all_chars p (String.◌∷◌ c s) (suc i) h = byte_at-all_chars p s i (ground arith)

  all_chars-append :
      (p : Char → Bool) (s t : String)
      → all_chars p s ≡ true
      → all_chars p t ≡ true
      → all_chars p (s <> t) ≡ true
  unfolding all_chars
  all_chars-append p String.[] t h e = ap (all_chars p) (nil-append t) ∙ e
  all_chars-append p (String.◌∷◌ c s) t h e =
      ap (all_chars p) (cons-append c s t) ∙ ground (arith, all_chars-append p s t)

  bytes-all_chars :
      (p : Char → Bool) (s : String) (n k : ℕ)
      → all_chars p s ≡ true
      → all_chars p (bytes r s n k).0 ≡ true
  unfolding bytes all_chars
  bytes-all_chars p s zero k h = refl
  bytes-all_chars p s (suc n) k h =
      all_chars-append p (any_byte r s k).0 (bytes r s n (any_byte r s k).1).0
        (byte_at-all_chars p s (intn r (len s) k).0 h) (bytes-all_chars p s n (any_byte r s k).1 h)

  pub gen_end_to_end_identification-IsEndToEndId :
      (k : ℕ) → IsEndToEndId (gen_end_to_end_identification r k).0
  unfolding gen_end_to_end_identification is_end_to_end_char all_chars
  gen_end_to_end_identification-IsEndToEndId k =
      let extra : ℕ = (intn r 11 k).0 in
      let below : extra < 11 = intn-lt 11 k (omega arith) in
      let size : count (bytes r mixed_alnum (10 + extra) (intn r 11 k).1).0 ≡ 10 + extra =
        bytes-count mixed_alnum (10 + extra) (intn r 11 k).1 (omega arith) refl in
      (
        omega arith,
        omega arith,
        all_chars_sound IsEndToEndChar is_end_to_end_char is_end_to_end_char_iff _
            (bytes-all_chars is_end_to_end_char mixed_alnum (10 + extra) (intn r 11 k).1 refl),
      )
