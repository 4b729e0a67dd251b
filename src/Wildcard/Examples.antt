-- ===== src/Wildcard/Examples.antt =====
-- The patterns of the comment on WildcardMatch.
use adaptiveservice.Prelude.{◌≡◌, refl, ◌↔◌, true, false, codes}
use adaptiveservice.Wildcard.{wildcard_match}
use adaptiveservice.Wildcard.Glob.{Glob}
use adaptiveservice.Wildcard.Correct.{wildcard_match-Glob}

foo_abc : wildcard_match (codes "foo*abc*") (codes "foobarabc123") ≡ true
unfolding wildcard_match
foo_abc = refl

no_bar : wildcard_match (codes "*bar*") (codes "foo") ≡ false
unfolding wildcard_match
no_bar = refl

wildcard_match-Glob_example :
    (wildcard_match (codes "foo*abc*") (codes "fooabc") ≡ true)
    ↔ Glob (codes "foo*abc*") (codes "fooabc")
wildcard_match-Glob_example = wildcard_match-Glob (codes "foo*abc*") (codes "fooabc")
