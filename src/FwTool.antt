-- ===== src/FwTool.antt =====
-- The setuid helper core/modules/run-virt/fwtool/main.c, which runs the firewall script with its own
-- arguments as root. The fixed environment and the unchecked change to root are left out.
pub mod Argv
use mltk.Common.{
  ℕ, zero, suc, ◌+◌, ◌-◌, List, [], ◌∷◌, Option, none, some, get_or, set, replicate, codes, length,
  if◌then◌else◌, ltb, ◌++◌,
}

abbrev pub maxargs : ℕ
maxargs = 10

-- A pointer to a text, or NULL.
abbrev pub Arg : Type 0
Arg = Option (List ℕ)

-- `vnargv` after its initializer.
abbrev pub initial : List Arg
initial =
    some (codes "bash")
    ∷ some (codes "/opt/openslx/vmchooser/scripts/set-firewall")
    ∷ replicate (maxargs - 2) none

-- The loop from index i, with n rounds left. `argv` ends with its NULL.
unfoldable pub copy_args : ℕ → ℕ → List Arg → List Arg → List Arg
copy_args zero i argv vnargv = vnargv
copy_args (suc n) i argv vnargv =
    let arg = get_or argv i none in
    let copied = set vnargv (i + 1) arg in
    elim arg [ none ↦ copied | some text ↦ copy_args n (i + 1) argv copied ]

abbrev pub pointers : List (List ℕ) → List Arg
pointers [] = none ∷ []
pointers (a ∷ rest) = some a ∷ pointers rest

-- What `execve` gets for a call with these arguments, the program's name first; nothing is run, and
-- the exit code is 1, if there is no argument.
unfoldable pub exec_argv : List (List ℕ) → Option (List Arg)
unfolding copy_args
exec_argv [] = none
exec_argv (program ∷ []) = none
exec_argv (program ∷ a ∷ args) =
    let argv = pointers (program ∷ a ∷ args) in
    some (set (copy_args (maxargs - 3) 1 argv initial) (maxargs - 1) none)
