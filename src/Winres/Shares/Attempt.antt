-- ===== src/Winres/Shares/Attempt.antt =====
-- What an attempt at the drives reports, and what it leaves alone.
use mltk.Common.{◌≡◌, ◌⊎◌, Bool, true, false, ◌&&◌, List, [], ◌∷◌, ◌==◌}
use mltk.Winres.ShareFile.{Drive}
use mltk.Winres.Shares.{Attempted}

-- Drives one by one: the same as before, or one whose flag was not set.
pub Grows : List Drive → List Drive → Type 0
Grows [] [] = Unit
Grows [] (d' ∷ ds') = ⊥
Grows (d ∷ ds) [] = ⊥
Grows (d ∷ ds) (d' ∷ ds') = ((d' ≡ d) ⊎ (d.success ≡ false)) × Grows ds ds'

-- `success` is set, which it is for a drive that is connected and for one that is given up.
abbrev pub all_marked : List Drive → Bool
all_marked [] = true
all_marked (d ∷ ds) = d.success && all_marked ds

-- The count is 0 exactly if every drive is marked.
abbrev Counts : Attempted → Type 0
Counts a = (a.fail_count == 0) ≡ all_marked a.all
