-- ===== src/System/Rctl/Amounts.antt =====
-- The amounts that are written with a unit.
use dockermock.Prelude.{
  ◌≡◌, refl, ap, ◌∙◌, ℕ, ◌+◌, ◌-◌, ◌*◌, ◌<◌, true, false, [], ◌∷◌, ◌++◌, nat_eq, arith, All,
  All-append,
}
use dockermock.Prelude.Text.{Text, codes}
use dockermock.Worker.Buffer.{strip, is_space}
use dockermock.Worker.Buffer.Names.{IsPlain, lstrip_plain, rstrip_plain}
use dockermock.System.Rctl.{
  number, words, upper, upper_char, is_digit, digits_from, multiplier, scaled, matched,
  convert_to_bytes,
}

-- The number that decimal digits write, after one that is there already.
abbrev pub decimal : ℕ → Text → ℕ
decimal value [] = value
decimal value (c ∷ s) = decimal (value * 10 + (c - b'0')) s

-- A unit, in upper case.
pub data ByteUnit : Type 0 where
  plain kilo kilobyte mega megabyte giga gigabyte : ByteUnit

abbrev pub letters : ByteUnit → Text
letters plain = []
letters kilo = codes "K"
letters kilobyte = codes "KB"
letters mega = codes "M"
letters megabyte = codes "MB"
letters giga = codes "G"
letters gigabyte = codes "GB"

abbrev pub size : ByteUnit → ℕ
size plain = 1
size kilo = 1024
size kilobyte = 1024
size mega = 1024 * 1024
size megabyte = 1024 * 1024
size giga = 1024 * 1024 * 1024
size gigabyte = 1024 * 1024 * 1024

digits_from-letters :
    (value : ℕ) (u : ByteUnit) → digits_from value (letters u) ≡ (value, letters u)
unfolding digits_from
digits_from-letters value plain = refl
digits_from-letters value kilo = refl
digits_from-letters value kilobyte = refl
digits_from-letters value mega = refl
digits_from-letters value megabyte = refl
digits_from-letters value giga = refl
digits_from-letters value gigabyte = refl

digits_from-decimal :
    (value : ℕ) (digits : Text) (u : ByteUnit)
    → All (λ c. is_digit c ≡ true) digits
    → digits_from value (digits ++ letters u) ≡ (decimal value digits, letters u)
unfolding digits_from
digits_from-decimal value [] u h = digits_from-letters value u
digits_from-decimal value (c ∷ digits) u h =
    rw (h.0, digits_from-decimal (value * 10 + (c - b'0')) digits u h.1)

multiplier-letters : (u : ByteUnit) → multiplier (letters u) ≡ size u
multiplier-letters plain = refl
multiplier-letters kilo = refl
multiplier-letters kilobyte = refl
multiplier-letters mega = refl
multiplier-letters megabyte = refl
multiplier-letters giga = refl
multiplier-letters gigabyte = refl

-- Characters that `strip` and `upper` leave alone.
abbrev IsKept : ℕ → Type 0
IsKept c = ((c < 128) × (is_space c ≡ false)) × (upper_char c ≡ c)

digits-IsKept : (digits : Text) → All (λ c. is_digit c ≡ true) digits → All IsKept digits
digits-IsKept [] h = tt
digits-IsKept (c ∷ digits) h = (ground (arith, h.0), digits-IsKept digits h.1)

letters-IsKept : (u : ByteUnit) → All IsKept (letters u)
letters-IsKept plain = tt
letters-IsKept kilo = ground arith
letters-IsKept kilobyte = ground arith
letters-IsKept mega = ground arith
letters-IsKept megabyte = ground arith
letters-IsKept giga = ground arith
letters-IsKept gigabyte = ground arith

kept-IsPlain : (s : Text) → All IsKept s → IsPlain s
kept-IsPlain [] h = tt
kept-IsPlain (c ∷ s) h = (h.0.0, kept-IsPlain s h.1)

upper_kept : (s : Text) → All IsKept s → upper s ≡ s
upper_kept [] h = refl
upper_kept (c ∷ s) h = rw (h.0.1, upper_kept s h.1)

matched_digits :
    (c : ℕ) (s : Text) → is_digit c ≡ true → matched (c ∷ s) ≡ scaled (digits_from 0 (c ∷ s))
matched_digits c s h = rw h

-- A text of one or more decimal digits and a unit is converted to the number of bytes: what the
-- digits write times the unit, 1024 and its powers.
pub convert_to_bytes-decimal :
    (c : ℕ) (digits : Text) (u : ByteUnit)
    → All (λ d. is_digit d ≡ true) (c ∷ digits)
    → convert_to_bytes (words ((c ∷ digits) ++ letters u))
      ≡ number (decimal 0 (c ∷ digits) * size u)
unfolding convert_to_bytes
convert_to_bytes-decimal c digits u h =
    let whole = (c ∷ digits) ++ letters u in
    let kept =
      All-append IsKept (c ∷ digits) (letters u) (digits-IsKept (c ∷ digits) h)
        (letters-IsKept u) in
    let same : upper (strip whole) ≡ whole =
      rw
        (lstrip_plain whole (kept-IsPlain whole kept), rstrip_plain whole (kept-IsPlain whole kept))
        (upper_kept whole kept) in
    ap matched same
    ∙ matched_digits c (digits ++ letters u) h.0
    ∙ ap scaled (digits_from-decimal 0 (c ∷ digits) u h)
    ∙ ap (λ (k : ℕ). number (decimal 0 (c ∷ digits) * k)) (multiplier-letters u)
