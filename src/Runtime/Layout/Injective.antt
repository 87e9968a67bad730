-- ===== src/Runtime/Layout/Injective.antt =====
-- Two elements of a layout that passes the check never share an offset.
use native.Mathlib.Nat.{mul-le-mul_right, suc-mul}
use native.Mathlib.Decide.{dec_le}
use deep_forge.Base.{
  ℕ, suc, ◌+◌, ◌-◌, ◌*◌, ◌≤◌, ◌<◌, ◌≡◌, refl, sym, ap, ◌∙◌, Bool, true, some, List, [], ◌∷◌, map,
  All, length, ltb, if◌then◌else◌, Option-cases, inl, inr, ℤ, pos_part, sort_by, total, arith,
  sort_by-All, All-sort_by, total-sort_by, map-sort_by,
}
use deep_forge.Import.Capability.Indexing.{IsIndex, offset}
use deep_forge.Runtime.Layout.{
  Axis, axis_before, collect_axes, spans_apart, has_non_overlapping_layout,
}

-- An axis with the coordinates of two elements along it.
record Row : Type 0 where
  axis : Axis
  first : ℕ
  second : ℕ

abbrev InAxis : Row → Type 0
InAxis r = (r.first < r.axis.extent) × (r.second < r.axis.extent)

abbrev SameCoordinate : Row → Type 0
SameCoordinate r = r.first ≡ r.second

abbrev first_offset : Row → ℕ
first_offset r = r.first * r.axis.stride

abbrev second_offset : Row → ℕ
second_offset r = r.second * r.axis.stride

-- A number below the stride and a multiple of the stride are told apart from their sum.
no_larger : (s a b i j : ℕ) → a < s → a + i * s ≡ b + j * s → j ≤ i
no_larger s a b i j ha e = elim (dec_le j i) [
  | yes h ↦ h
  | no h ↦
      let up : suc i * s ≤ j * s = mul-le-mul_right s (omega arith) in
      absurd (omega (arith, suc-mul i s))
]

euclid : (s a b i j : ℕ) → a < s → b < s → a + i * s ≡ b + j * s → i ≡ j
euclid s a b i j ha hb e = omega (arith, no_larger s a b i j ha e, no_larger s b a j i hb (sym e))

spans_apart-SameCoordinate :
    (span low low' : ℕ) (rows : List Row)
    → spans_apart span (map (λ r. r.axis) rows) ≡ true
    → All InAxis rows
    → low < span
    → low' < span
    → low + total first_offset rows ≡ low' + total second_offset rows
    → (low ≡ low') × All SameCoordinate rows
unfolding spans_apart total
spans_apart-SameCoordinate span low low' [] h k a b e = (omega arith, tt)
spans_apart-SameCoordinate span low low' (r ∷ rows) h k a b e =
    let s = r.axis.stride in
    let here : r.first * s ≤ (r.axis.extent - 1) * s = mul-le-mul_right s (omega arith) in
    let there : r.second * s ≤ (r.axis.extent - 1) * s = mul-le-mul_right s (omega arith) in
    let checks : (span ≤ s)
        × (spans_apart (span + (r.axis.extent - 1) * s) (map (λ r. r.axis) rows) ≡ true) =
      ground arith in
    let (lows, rest) =
      spans_apart-SameCoordinate (span + (r.axis.extent - 1) * s) (low + first_offset r)
        (low' + second_offset r) rows checks.1 k.1 (omega arith) (omega arith) (omega arith) in
    let same : r.first ≡ r.second =
      euclid s low low' r.first r.second (omega arith) (omega arith) lows in
    (omega (arith, ap (λ (n : ℕ). n * s) same), (same, rest))

-- The axes that the check keeps, with the coordinates along them.
rows : List ℤ → List ℤ → List ℕ → List ℕ → List Row
rows (d ∷ ds) (s ∷ ss) (i ∷ is) (j ∷ js) =
    let rest = rows ds ss is js in
    if ltb 1 (pos_part d)
    then record {
      axis = record { stride = pos_part s; extent = pos_part d };
      first = i;
      second = j;
    }
      ∷ rest
    else rest
rows _ _ _ _ = []

-- What the loop over rows proves of the tensor's axes, one axis at a time.
record Agree (ds ss : List ℤ) (is js : List ℕ) : Type 0 where
  axes : (l : List Axis) → collect_axes ds ss ≡ some l → map (λ r. r.axis) (rows ds ss is js) ≡ l
  inside : All InAxis (rows ds ss is js)
  firsts : total first_offset (rows ds ss is js) ≡ offset ss is
  seconds : total second_offset (rows ds ss is js) ≡ offset ss js
  same : All SameCoordinate (rows ds ss is js) → is ≡ js

Agree-rows :
    (ds ss : List ℤ) (is js : List ℕ)
    → length ds ≡ length ss
    → IsIndex ds is
    → IsIndex ds js
    → Agree ds ss is js
unfolding rows total collect_axes
Agree-rows [] [] [] [] e h k = record {
  axes = λ l p. cc;
  inside = tt;
  firsts = refl;
  seconds = refl;
  same = λ _. refl;
}
Agree-rows (d ∷ ds) (s ∷ ss) (i ∷ is) (j ∷ js) e h k =
    let rest = Agree-rows ds ss is js (omega arith) h.1 k.1 in
    record {
      axes = λ l p. elim (Option-cases (collect_axes ds ss)) [
        | inl nothing ↦ absurd (ground arith)
        | inr (tail, found) ↦ ground (arith, rest.axes tail found)
      ];
      inside = ground (arith, rest.inside);
      firsts = ground (arith, rest.firsts);
      seconds = ground (arith, rest.seconds);
      same = λ all. ground (arith, rest.same);
    }
Agree-rows [] (s ∷ ss) is js e h k = absurd (omega arith)
Agree-rows (d ∷ ds) [] is js e h k = absurd (omega arith)
Agree-rows [] [] (i ∷ is) js e h k = absurd h
Agree-rows [] [] [] (j ∷ js) e h k = absurd k
Agree-rows (d ∷ ds) (s ∷ ss) [] js e h k = absurd h
Agree-rows (d ∷ ds) (s ∷ ss) (i ∷ is) [] e h k = absurd k

layout-axes :
    (ds ss : List ℤ)
    → has_non_overlapping_layout ds ss ≡ true
    → (length ds ≡ length ss)
      × (l : List Axis) × (collect_axes ds ss ≡ some l)
      × (spans_apart 1 (sort_by axis_before l) ≡ true)
unfolding has_non_overlapping_layout
layout-axes ds ss h = elim (Option-cases (collect_axes ds ss)) [
  | inl nothing ↦ absurd (ground arith)
  | inr (l, found) ↦ (ground arith, l, found, ground arith)
]

-- If the layout passes the check, two index tuples within the extents that have one offset are
-- the same tuple.
pub offset-injective :
    (ds ss : List ℤ) (is js : List ℕ)
    → has_non_overlapping_layout ds ss ≡ true
    → IsIndex ds is
    → IsIndex ds js
    → offset ss is ≡ offset ss js
    → is ≡ js
offset-injective ds ss is js h at at' e =
    let (sizes, l, found, apart) = layout-axes ds ss h in
    let agree = Agree-rows ds ss is js sizes at at' in
    let row_before : Row → Row → Bool = λ a b. axis_before a.axis b.axis in
    let rs = rows ds ss is js in
    let sorted = sort_by row_before rs in
    let apart_rows : spans_apart 1 (map (λ r. r.axis) sorted) ≡ true =
      rw (map-sort_by (λ (r : Row). r.axis) axis_before rs, agree.axes l found) apart in
    let sums : total first_offset sorted ≡ total second_offset sorted =
      total-sort_by first_offset row_before rs
      ∙ (agree.firsts ∙ (e ∙ sym agree.seconds))
      ∙ sym (total-sort_by second_offset row_before rs) in
    let all =
      spans_apart-SameCoordinate 1 0 0 sorted apart_rows
        (sort_by-All InAxis row_before rs agree.inside) (omega arith) (omega arith)
        (omega (arith, sums)) in
    agree.same (All-sort_by SameCoordinate row_before rs all.1)
