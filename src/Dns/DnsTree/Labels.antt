-- ===== src/Dns/DnsTree/Labels.antt =====
-- `rsplit_generator` yields the labels of a domain from the right.
use mathlib.Core.Path.{ap₂}
use dockermock.Prelude.{
  ℕ, zero, suc, ◌<◌, ◌≤◌, ◌≡◌, ◌≢◌, refl, sym, ap, ◌∙◌, none, some, List, [], ◌∷◌, ◌++◌, arith,
  length, take, drop, length-append, Option-cases, inl, inr, nat_eq,
}
use dockermock.Prelude.Text.{Text, NoDot}
use dockermock.Dns.DnsTree.{last_dot, rsplit_from, rsplit_generator}

last_dot-NoDot : (s : Text) → NoDot s → last_dot s ≡ none
unfolding last_dot
last_dot-NoDot [] h = refl
last_dot-NoDot (c ∷ s) h = ground (arith, last_dot-NoDot s h.1)

last_dot-append : (d s : Text) → NoDot s → last_dot (d ++ b'.' ∷ s) ≡ some (length d)
unfolding last_dot
last_dot-append [] s h = rw (last_dot-NoDot s h)
last_dot-append (c ∷ d) s h = rw (last_dot-append d s h)

last_dot-lt : (s : Text) (e : ℕ) → last_dot s ≡ some e → e < length s
unfolding last_dot
last_dot-lt [] e h = cc
last_dot-lt (c ∷ s) zero h = omega arith
last_dot-lt (c ∷ s) (suc e) h = ground (arith, last_dot-lt s e)

module _ {ℓ} {A : Type ℓ} where
  take-length : (xs : List A) → take (length xs) xs ≡ xs
  take-length [] = refl
  take-length (x ∷ xs) = rw (take-length xs)

  take-append : (xs ys : List A) → take (length xs) (xs ++ ys) ≡ xs
  take-append [] ys = refl
  take-append (x ∷ xs) ys = rw (take-append xs ys)

  drop-append : (xs : List A) (y : A) (ys : List A) → drop (suc (length xs)) (xs ++ y ∷ ys) ≡ ys
  drop-append [] y ys = refl
  drop-append (x ∷ xs) y ys = drop-append xs y ys

  take-take : (e s : ℕ) (xs : List A) → e ≤ s → take e (take s xs) ≡ take e xs
  take-take zero s xs h = refl
  take-take (suc e) zero xs h = absurd (omega arith)
  take-take (suc e) (suc s) [] h = refl
  take-take (suc e) (suc s) (x ∷ xs) h = rw (take-take e s xs (omega arith))

  length-take_le : (s : ℕ) (xs : List A) → length (take s xs) ≤ s
  length-take_le zero xs = omega arith
  length-take_le (suc s) [] = omega arith
  length-take_le (suc s) (x ∷ xs) = omega (arith, length-take_le s xs)

-- The loop reads the domain below `start` only, and more fuel than `start` changes nothing.
rsplit_from-ext :
    (f g s : ℕ) (d d' : Text)
    → s < f
    → s < g
    → take s d ≡ take s d'
    → rsplit_from f d s ≡ rsplit_from g d' s
unfolding rsplit_from
rsplit_from-ext zero g s d d' hf hg e = absurd (omega arith)
rsplit_from-ext (suc f) zero s d d' hf hg e = absurd (omega arith)
rsplit_from-ext (suc f) (suc g) s d d' hf hg e = elim (Option-cases (last_dot (take s d))) [
  | inl last ↦ ground (arith, ap last_dot e)
  | inr (end, found) ↦
      let low : end < s = omega (arith, last_dot-lt (take s d) end found, length-take_le s d) in
      let same : take end d ≡ take end d' =
        sym (take-take end s d (omega arith))
        ∙ ap (take end) e
        ∙ take-take end s d' (omega arith) in
      ground (arith, ap last_dot e, rsplit_from-ext f g end d d' (omega arith) (omega arith) same)
]

-- One round that finds a dot.
rsplit_from-dot :
    (f s e : ℕ) (d : Text)
    → 0 < s
    → last_dot (take s d) ≡ some e
    → rsplit_from (suc f) d s ≡ drop (suc e) (take s d) ∷ rsplit_from f d e
unfolding rsplit_from
rsplit_from-dot f s e d pos found = ground arith

-- The label after the last dot comes first, and then those of what stands before that dot.
pub rsplit_generator-append :
    (d s : Text) → NoDot s → rsplit_generator (d ++ b'.' ∷ s) ≡ s ∷ rsplit_generator d
unfolding rsplit_generator
rsplit_generator-append d s h =
    let whole = d ++ b'.' ∷ s in
    let all = take-length whole in
    let long = length-append d (b'.' ∷ s) in
    let found : last_dot (take (length whole) whole) ≡ some (length d) =
      rw all (last_dot-append d s h) in
    let rest =
      rsplit_from-ext (length whole) (suc (length d)) (length d) whole d (omega (arith, long))
        (omega arith) (take-append d (b'.' ∷ s) ∙ sym (take-length d)) in
    rsplit_from-dot (length whole) (length whole) (length d) whole (omega (arith, long)) found
    ∙ ap₂ (λ (l : Text) (r : List Text). l ∷ r)
        (ap (drop (suc (length d))) all ∙ drop-append d b'.' s) rest

-- A domain without a dot has one label.
pub rsplit_generator-NoDot : (s : Text) → NoDot s → s ≢ [] → rsplit_generator s ≡ s ∷ []
unfolding rsplit_generator
rsplit_generator-NoDot [] h ne = absurd (ne refl)
rsplit_generator-NoDot (c ∷ s) h ne =
    let all = take-length (c ∷ s) in
    let none_found : last_dot (take (length (c ∷ s)) (c ∷ s)) ≡ none =
      ap last_dot all ∙ last_dot-NoDot (c ∷ s) h in
    ground (arith, all, none_found)

-- The domain with these labels, the rightmost label first.
abbrev pub dotted : List Text → Text
dotted [] = []
dotted (p ∷ []) = p
dotted (p ∷ q ∷ ps) = dotted (q ∷ ps) ++ b'.' ∷ p

-- No label holds a dot, and the leftmost label is not empty.
abbrev pub AreLabels : List Text → Type 0
AreLabels [] = Unit
AreLabels (p ∷ []) = NoDot p × (p ≢ [])
AreLabels (p ∷ q ∷ ps) = NoDot p × AreLabels (q ∷ ps)

-- The generator takes apart what joining labels by dots puts together, where no label holds a dot
-- and the leftmost one is not empty.
pub rsplit_generator-dotted : (ps : List Text) → AreLabels ps → rsplit_generator (dotted ps) ≡ ps
rsplit_generator-dotted [] h = unfold rsplit_generator in refl
rsplit_generator-dotted (p ∷ []) h = rsplit_generator-NoDot p h.0 h.1
rsplit_generator-dotted (p ∷ q ∷ ps) h =
    rsplit_generator-append (dotted (q ∷ ps)) p h.0
    ∙ ap (λ (l : List Text). p ∷ l) (rsplit_generator-dotted (q ∷ ps) h.1)
