-- ===== src/Wildcards/Examples.antt =====
-- A search string with an escape character at its end.
use clp_core.Base.{◌≡◌, refl, Bytes, codes, true, false, [], ◌∷◌, ◌++◌, ok}
use clp_core.Wildcards.{clean_up_wildcard_search_string}
use clp_core.Wildcards.Matcher.{wildcard_match_simple}
use clp_core.Wildcards.Meaning.{star, wilds, squeeze, clean_up_wildcard_search_string_lem}

clean_up_wildcard_search_string_example :
    (cleaned : Bytes) × (clean_up_wildcard_search_string (codes "a**\\?b\\") ≡ ok cleaned)
    × (squeeze false (wilds false cleaned)
        ≡ squeeze false (star ∷ wilds false (codes "a**\\?b\\") ++ star ∷ []))
clean_up_wildcard_search_string_example = clean_up_wildcard_search_string_lem (codes "a**\\?b\\")

-- A match, and one that is missed: the `?` of the bookmark is taken for a byte, since the escape before
-- the mismatch is not forgotten.
escaped_match : wildcard_match_simple (codes "xyz*w") (codes "x?*\\*w") ≡ ok true
unfolding wildcard_match_simple
escaped_match = refl

missed : wildcard_match_simple (codes "ab*") (codes "*?\\**") ≡ ok false
unfolding wildcard_match_simple
missed = refl
