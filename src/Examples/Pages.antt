-- ===== src/Examples/Pages.antt =====
-- A run over the keyset pages: three students of whom two share a name, two to a page.
use attendance_managment.Base.{String, ◌≡◌, refl, Bool, not, none, some, List, [], ◌∷◌}
use attendance_managment.Store.Fees.{text_le}
use attendance_managment.Pagination.{limit_of, CursorKey, after_cursor}
use attendance_managment.Pagination.Walk.{walk, IsAscending, walk_complete}

abbrev later_text : String → String → Bool
later_text a b = not (text_le a b)

abbrev names : List CursorKey
names =
    record { value = "Asha"; id = "s2" }
    ∷ record { value = "Asha"; id = "s3" }
    ∷ record { value = "Ravi"; id = "s1" }
    ∷ []

names-IsAscending : IsAscending later_text (λ row. row) names
unfolding after_cursor
names-IsAscending = (refl, refl, (refl, refl, (refl, refl, tt)))

walk_complete_example : walk later_text (λ row. row) names (limit_of (some 2)) 3 none ≡ names
walk_complete_example = walk_complete later_text (λ row. row) (some 2) names names-IsAscending
