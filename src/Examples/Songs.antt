-- ===== src/Examples/Songs.antt =====
-- A song's drafts.
use zolexai.Prelude.{
  ℕ, ◌≤◌, ◌≡◌, refl, true, false, Option, none, some, List, [], ◌∷◌, All, length, max,
}
use zolexai.Text.{codes, same_codes, lower_code}
use zolexai.Lyrics.{is_empty, parse_sections, match_tag, strip_line, parse_from}
use zolexai.Lyrics.Reading.{NamesItsTags}
use zolexai.Review.{Issue, SongPlan, has_lyrics, target_lines, lines_per_section}
use zolexai.Review.Rhyme.{lines_rhyme}
use zolexai.Drafts.{draft_of, write_lyrics}
use zolexai.Drafts.Faults.{IsOther, draft_of-IsOther}
use zolexai.Drafts.Rounds.{Ended, drafted, IsDraft, write_lyrics-Ended}

-- A minute, in seconds.
abbrev plan : SongPlan
plan = record {
  second = 1;
  per_line = 6;
  total = 60;
  sections =
      record { kind = codes "verse"; seconds = 36 }
      ∷ record { kind = codes "chorus"; seconds = 24 }
      ∷ [];
  wordless = false;
}

plan-has_lyrics : has_lyrics plan ≡ true
unfolding has_lyrics same_codes
plan-has_lyrics = refl

targets : (target_lines plan ≡ 8) × (lines_per_section plan ≡ 5)
unfolding target_lines lines_per_section same_codes
targets = (refl, refl)

night_light : lines_rhyme (codes "In the night") (codes "by the light,") ≡ true
unfolding lines_rhyme same_codes lower_code
night_light = refl

night_cat : lines_rhyme (codes "In the night") (codes "a cat") ≡ false
unfolding lines_rhyme same_codes lower_code
night_cat = refl

abbrev raw : List (List ℕ)
raw =
    codes "in the night"
    ∷ codes "by the light"
    ∷ codes "[chorus]"
    ∷ codes "we sing"
    ∷ codes "we ring"
    ∷ codes "[chorus]"
    ∷ codes "la"
    ∷ []

raw-NamesItsTags : NamesItsTags raw
unfolding match_tag strip_line lower_code
raw-NamesItsTags = (tt, (tt, (refl, (tt, (tt, (refl, (tt, tt)))))))

raw-full : is_empty (parse_sections raw) ≡ false
unfolding parse_sections parse_from match_tag strip_line lower_code
raw-full = refl

draft_of-IsOther_example : All IsOther (draft_of plan (codes "night" ∷ []) raw).review.issues
draft_of-IsOther_example =
    draft_of-IsOther plan (codes "night" ∷ []) raw plan-has_lyrics raw-NamesItsTags raw-full

abbrev writer : ℕ → Option (List Issue) → Option (List (List ℕ))
writer round notes = some raw

write_lyrics-Ended_example :
    Ended plan [] writer
      (drafted plan [] writer (max 1 2) 0 none)
      (write_lyrics plan [] (some writer) 2)
    × All (IsDraft plan [] writer) (drafted plan [] writer (max 1 2) 0 none)
    × (length (drafted plan [] writer (max 1 2) 0 none) ≤ max 1 2)
write_lyrics-Ended_example = write_lyrics-Ended plan [] writer 2 plan-has_lyrics
