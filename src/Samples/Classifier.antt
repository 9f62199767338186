-- ===== src/Samples/Classifier.antt =====
-- The user-agent classifier at concrete inputs.
use botshield.Prelude.{◌≡◌, refl, none, some, List, [], ◌∷◌, Bytes, codes}
use botshield.Classifier.{
  find_kid, edge_get_or_add, register, classifier_add, match_from, slide, classify,
}
use botshield.Classifier.Stored.{built}
use botshield.Classifier.Longest.{IsLongest, classify-IsLongest}

-- The first row is the last to be registered.
abbrev rows : List (Bytes × Bytes)
rows =
    (codes "google", codes "Googlebot")
    ∷ (codes "google-image", codes "googlebot-image")
    ∷ (codes "old", codes "googlebot")
    ∷ (codes "bot", codes "bot")
    ∷ []

found :
    (classify (built rows) (codes "mozilla (GOOGLEBOT-Image/2)") ≡ some (codes "google-image"))
    × (classify (built rows) (codes "x googlebot/2") ≡ some (codes "google"))
    × (classify (built rows) (codes "mybot") ≡ some (codes "bot"))
    × (classify (built rows) (codes "curl") ≡ none)
unfolding classify slide match_from find_kid built classifier_add register edge_get_or_add
found = (refl, refl, refl, refl)

classify-IsLongest_example :
    IsLongest rows (codes "GoogleBot/2") (classify (built rows) (codes "GoogleBot/2"))
classify-IsLongest_example = classify-IsLongest rows (codes "GoogleBot/2")
