-- ===== src/FwTool/Argv.antt =====
-- What the firewall script gets.
use mltk.Common.{ℕ, ◌≡◌, refl, List, [], ◌∷◌, Option, none, some, take, codes, length}
use mltk.FwTool.{Arg, exec_argv, copy_args}

-- The arguments up to the first NULL, if there is one.
pub up_to_null : List Arg → Option (List (List ℕ))
up_to_null [] = none
up_to_null (none ∷ rest) = some []
up_to_null (some a ∷ rest) = elim (up_to_null rest) [ none ↦ none | some more ↦ some (a ∷ more) ]

-- With at least one argument, bash gets the script and at most the first seven of them, and the
-- list ends within the array.
pub exec_argv_lem :
    (program a : List ℕ) (args : List (List ℕ))
    → (vnargv : List Arg) × (exec_argv (program ∷ a ∷ args) ≡ some vnargv)
      × (length vnargv ≡ 10)
      × (up_to_null vnargv
          ≡ some (
              codes "bash"
              ∷ codes "/opt/openslx/vmchooser/scripts/set-firewall"
              ∷ take 7 (a ∷ args)))
unfolding exec_argv up_to_null copy_args
exec_argv_lem p a [] = (_, refl, refl, refl)
exec_argv_lem p a (b ∷ []) = (_, refl, refl, refl)
exec_argv_lem p a (b ∷ c ∷ []) = (_, refl, refl, refl)
exec_argv_lem p a (b ∷ c ∷ d ∷ []) = (_, refl, refl, refl)
exec_argv_lem p a (b ∷ c ∷ d ∷ e ∷ []) = (_, refl, refl, refl)
exec_argv_lem p a (b ∷ c ∷ d ∷ e ∷ f ∷ []) = (_, refl, refl, refl)
exec_argv_lem p a (b ∷ c ∷ d ∷ e ∷ f ∷ g ∷ []) = (_, refl, refl, refl)
exec_argv_lem p a (b ∷ c ∷ d ∷ e ∷ f ∷ g ∷ h ∷ rest) = (_, refl, refl, refl)
