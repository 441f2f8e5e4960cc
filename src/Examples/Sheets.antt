-- ===== src/Examples/Sheets.antt =====
-- Lyric sheets and a chain of writers.
use zolexai.Prelude.{ℕ, ◌≡◌, refl, true, false, Option, List, [], ◌∷◌}
use zolexai.Text.{codes, same_codes, lower_code}
use zolexai.Lyrics.{
  Part, parse_sections, parse_from, render, polish_lyrics, match_tag, strip_line, strip_text,
  is_empty,
}
use zolexai.Lyrics.Lines.{IsLine, IsTag}
use zolexai.Lyrics.Parsing.{IsPart, IsSheet, parse_sections-render}
use zolexai.Lyrics.Reading.{NamesItsTags}
use zolexai.Lyrics.Polishing.{Agrees, polish_lyrics-Settled}
use zolexai.Writers.{Writer, wrote, write_failed, write, used, language_of}
use zolexai.Writers.Choice.{Chosen, write-Chosen}

abbrev part : Part
part = record { tag = codes "hook"; lines = codes "la la" ∷ codes "oh" ∷ [] }

IsLine-a : IsLine (codes "la la")
unfolding match_tag strip_line
IsLine-a = record { stripped = refl; right_stripped = refl; full = refl; untagged = refl }

IsLine-b : IsLine (codes "oh")
unfolding match_tag strip_line
IsLine-b = record { stripped = refl; right_stripped = refl; full = refl; untagged = refl }

hook-IsTag : IsTag (codes "hook")
unfolding strip_line lower_code
hook-IsTag = record {
  stripped = refl;
  lowered = refl;
  full = refl;
  opened = (refl, (refl, (refl, (refl, tt))));
}

IsSheet-pair : IsSheet (part ∷ part ∷ [])
IsSheet-pair =
    let is : IsPart part = record {
      tag = hook-IsTag;
      full = refl;
      lines = (IsLine-a, (IsLine-b, tt));
    } in
    (is, (is, tt))

parse_sections-render_example : parse_sections (render (part ∷ part ∷ [])) ≡ part ∷ part ∷ []
parse_sections-render_example = parse_sections-render (part ∷ part ∷ []) IsSheet-pair

abbrev draft : List (List ℕ)
draft =
    codes " one"
    ∷ codes "One "
    ∷ codes "[Chorus]"
    ∷ codes "la"
    ∷ []
    ∷ codes "two"
    ∷ codes "[chorus ]"
    ∷ codes "oh"
    ∷ codes "[chorus]"
    ∷ []

polished_draft :
    polish_lyrics true draft
    ≡ codes "[verse]"
      ∷ codes "one"
      ∷ []
      ∷ codes "[chorus]"
      ∷ codes "la"
      ∷ codes "two"
      ∷ []
      ∷ codes "[chorus]"
      ∷ codes "la"
      ∷ codes "two"
      ∷ []
unfolding polish_lyrics parse_from match_tag strip_line lower_code same_codes
polished_draft = refl

draft-NamesItsTags : NamesItsTags draft
unfolding match_tag strip_line lower_code
draft-NamesItsTags = (tt, (tt, (refl, (tt, (tt, (tt, (refl, (tt, (refl, tt)))))))))

draft-full : is_empty (parse_sections draft) ≡ false
unfolding parse_sections parse_from match_tag strip_line lower_code
draft-full = refl

polish_lyrics-Settled_example :
    (polish_lyrics true (polish_lyrics true draft) ≡ polish_lyrics true draft)
    × ((canonical : Option (List (List ℕ))) × Agrees canonical
          (parse_sections (polish_lyrics true draft)))
polish_lyrics-Settled_example = polish_lyrics-Settled draft draft-NamesItsTags draft-full

abbrev hosted : Writer
hosted = record { available = true; languages = []; write = λ language. write_failed }

abbrev bank : Writer
bank = record { available = true; languages = codes "en" ∷ []; write = λ language. wrote draft }

in_english : write (codes " EN") (hosted ∷ bank ∷ []) ≡ used 2 draft
unfolding write strip_line strip_text lower_code same_codes
in_english = refl

write-Chosen_example :
    Chosen (language_of (codes "es")) (hosted ∷ bank ∷ []) (write (codes "es") (hosted ∷ bank ∷ []))
write-Chosen_example = write-Chosen (codes "es") (hosted ∷ bank ∷ [])
