-- ===== src/Examples/Lengths.antt =====
-- Lengths that are split into passes.
use zolexai.Prelude.{◌≤◌, ◌≡◌, refl, some, List, [], ◌∷◌, length, arith}
use zolexai.Segments.{
  Segment, Track, count_of, plan_segments, plan_chain_segments, plan_musical_boundaries,
}
use zolexai.Segments.Even.{Covers, IsPlan, plan_segments-IsPlan}
use zolexai.Segments.Musical.{musical_segments-Covers}

-- Four seconds and three hundredths at a ceiling of one second, in hundredths.
plan_segments-IsPlan_example :
    (segments : List Segment) × (plan_segments 403 100 0 ≡ some segments) × IsPlan 403 100 segments
plan_segments-IsPlan_example =
    plan_segments-IsPlan 403 100 0 (omega arith) (omega arith) (omega arith)

-- 60.02 seconds at a ceiling of 20.
abbrev track : Track
track = record {
  second = 100;
  total = 6002;
  per_pass = 2000;
  onsets = 1480 ∷ 1390 ∷ 2950 ∷ 5000 ∷ [];
  pull_percent = 20;
}

cuts : plan_musical_boundaries track ≡ 1480 ∷ 2950 ∷ 4501 ∷ []
unfolding plan_musical_boundaries
cuts = refl

musical_segments-Covers_example :
    (segments : List Segment) × (plan_chain_segments 100 6002 2000 (plan_musical_boundaries track)
      ≡ some segments)
    × Covers 0 2000 0 6002 segments
    × (length segments ≤ count_of track)
musical_segments-Covers_example =
    musical_segments-Covers track (omega arith) (omega arith) (omega arith) (omega arith)
