-- ===== src/Schedule/Best.antt =====
-- What the loop over the factors in lib/Compiler/Schedule.cpp keeps.
use deep_forge.Base.{
  ℕ, ◌≤◌, ◌<◌, ◌≡◌, refl, ◌⊎◌, inl, inr, true, false, List, [], ◌∷◌, ltb, Bool-cases, contains,
  ◌==◌, ==-refl, arith, nat_eq, All, Pairwise, if◌then◌else◌,
}
use deep_forge.Metadata.{ConvMetadata}
use deep_forge.Schedule.{ConvSchedule, TargetFacts, candidate, score, is_too_wide, choose}
use deep_forge.Schedule.Cost.{candidate-unroll}

-- A factor that the loop does not pass over.
abbrev pub IsLegal : ConvMetadata → TargetFacts → ℕ → Type 0
IsLegal metadata facts unroll = is_too_wide metadata facts unroll ≡ false

-- A schedule that is not worse than one of a factor, and takes the smaller factor of two that cost
-- the same.
abbrev pub Precedes : ConvSchedule → ConvSchedule → Type 0
Precedes s t =
    (score s ≤ score t) × (score s ≡ score t → s.output_channel_unroll ≤ t.output_channel_unroll)

-- What the loop keeps: the schedule is the first or a legal candidate of the list, which is better
-- than the first, and it precedes all legal candidates.
pub record IsBest (metadata : ConvMetadata) (facts : TargetFacts) (factors : List ℕ)
    (first s : ConvSchedule) : Type 0 where
  pub origin :
      (s ≡ first)
      ⊎ ((u : ℕ) × (contains u factors ≡ true)
          × (IsLegal metadata facts u)
          × (s ≡ candidate metadata facts u true))
  pub kept : (s ≡ first) ⊎ (score s < score first)
  pub least :
      All (λ u. IsLegal metadata facts u → Precedes s (candidate metadata facts u true)) factors

contains_later : (v u : ℕ) (rest : List ℕ) → contains v rest ≡ true → contains v (u ∷ rest) ≡ true
unfolding contains
contains_later v u rest h = elim (Bool-cases (v == u)) [
  | inl same ↦ rw (same, contains) refl
  | inr other ↦ rw (other, contains) h
]

contains_here : (u : ℕ) (rest : List ℕ) → contains u (u ∷ rest) ≡ true
unfolding contains
contains_here u rest = rw (==-refl u, contains) refl

module _ (metadata : ConvMetadata) (facts : TargetFacts) where
  abbrev pub Origin : List ℕ → ConvSchedule → ConvSchedule → Type 0
  Origin factors first s =
      (s ≡ first)
      ⊎ ((u : ℕ) × (contains u factors ≡ true)
          × (IsLegal metadata facts u)
          × (s ≡ candidate metadata facts u true))

  later-Origin :
      (u : ℕ) (rest : List ℕ) (first s : ConvSchedule)
      → Origin rest first s
      → Origin (u ∷ rest) first s
  later-Origin u rest first s (inl same) = inl same
  later-Origin u rest first s (inr (v, listed, legal, same)) =
      inr (v, contains_later v u rest listed, legal, same)

  from_candidate :
      (u : ℕ) (rest : List ℕ) (first s : ConvSchedule)
      → IsLegal metadata facts u
      → Origin rest (candidate metadata facts u true) s
      → Origin (u ∷ rest) first s
  from_candidate u rest first s legal (inl same) = inr (u, contains_here u rest, legal, same)
  from_candidate u rest first s legal (inr (v, listed, allowed, same)) =
      inr (v, contains_later v u rest listed, allowed, same)

  pub kept-Precedes : (s t : ConvSchedule) → (s ≡ t) ⊎ (score s < score t) → Precedes s t
  kept-Precedes s t (inl same) = rw same (omega arith, λ h. omega arith)
  kept-Precedes s t (inr better) = (omega arith, λ h. omega arith)

  -- The first schedule, kept so far, precedes a candidate that is not better.
  first-Precedes :
      (first s t : ConvSchedule)
      → (s ≡ first) ⊎ (score s < score first)
      → score first ≤ score t
      → first.output_channel_unroll ≤ t.output_channel_unroll
      → Precedes s t
  first-Precedes first s t (inl same) le smaller = rw same (le, λ h. smaller)
  first-Precedes first s t (inr better) le smaller = (omega arith, λ h. omega arith)

  pub choose-IsBest :
      (factors : List ℕ) (first : ConvSchedule)
      → All (λ u. first.output_channel_unroll ≤ u) factors
      → Pairwise ◌≤◌ factors
      → IsBest metadata facts factors first (choose metadata facts factors first (score first))
  unfolding choose
  choose-IsBest [] first small ascending = record { origin = inl refl; kept = inl refl; least = tt }
  choose-IsBest (u ∷ rest) first small ascending =
      let current = candidate metadata facts u true in
      let is_u = candidate-unroll metadata facts u true in
      let passed = choose-IsBest rest first small.1 ascending.1 in
      let replaced = choose-IsBest rest current (rw is_u ascending.0) ascending.1 in
      elim (Bool-cases (is_too_wide metadata facts u)) [
        | inl wide ↦
            rw (wide, if◌then◌else◌)
              (record {
                origin = later-Origin u rest first _ passed.origin;
                kept = passed.kept;
                least = (λ legal. absurd cc, passed.least);
              })
        | inr legal ↦ elim (Bool-cases (ltb (score current) (score first))) [
          | inl better ↦
              rw (legal, better, if◌then◌else◌)
                (record {
                  origin = from_candidate u rest first _ legal replaced.origin;
                  kept = inr (ground (arith, kept-Precedes _ current replaced.kept));
                  least = (λ h. kept-Precedes _ current replaced.kept, replaced.least);
                })
          | inr worse ↦
              rw (legal, worse, if◌then◌else◌)
                (record {
                  origin = later-Origin u rest first _ passed.origin;
                  kept = passed.kept;
                  least = (
                    λ h.
                        first-Precedes first _ current passed.kept (ground arith)
                          (omega (arith, is_u, small.0)),
                    passed.least,
                  );
                })
        ]
      ]
