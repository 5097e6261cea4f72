-- ===== src/Session/Tests.antt =====
-- The conversation on concrete values.
use pu_cli.Base.{String, Option, none, some, [], ◌∷◌, ◌≡◌, get_elem?}
use pu_cli.Session.Message.{Origin}
use pu_cli.Session.Request.{superseded_pages}
use pu_cli.Session.Supersession.{Receipt, superseded_pages-Receipt}

abbrev run_one : Origin
run_one = record { source = "ls"; buffer = "b1"; rank = 1 }

abbrev run_two : Origin
run_two = record { source = "ls"; buffer = "b2"; rank = 2 }

superseded_pages-Receipt_example :
    (o : Option String) × (get_elem?
        (superseded_pages (none ∷ some run_one ∷ none ∷ some run_two ∷ []))
        1
      ≡ some o)
    × Receipt run_one (none ∷ some run_two ∷ []) o
superseded_pages-Receipt_example =
    superseded_pages-Receipt (none ∷ []) (none ∷ some run_two ∷ []) run_one
