-- ===== src/Winres/Scripts/Passwords.antt =====
-- Which programs of `launchRunscript` get the password.
use mltk.Common.{
  ℕ, ◌+◌, ◌<◌, ◌≡◌, ◌⊎◌, refl, Bool, true, false, not, ◌||◌, List, [], ◌∷◌, ◌++◌, Option, none,
  some, if◌then◌else◌, arith, length, All, All-append, All-imp, ℤ, pos, eqb_ℤ, inl, inr, eqb_list,
  codes,
}
use mltk.Winres.Quote.{quote}
use mltk.Winres.Quote.Plain.{escaped, escape_shell_arg_plain}
use mltk.Winres.Quote.RoundTrip.{run_params-parse}
use mltk.Winres.Scripts.{
  Entry, Launch, Scripts, Runner, Run, scan_name, script_path, chosen, launch_read, launch_entry,
  push_launch, launch_entries, launch_all, legacy, with_credentials, launch_runscript,
}

-- A file of the folder under this name, whose third number is not 0.
pub Trusts : Scripts → Entry → Launch → Type 0
Trusts s e l =
    (s.acp_to_wide (script_path e.name) ≡ some l.file)
    × (read : ℤ × ℤ) × (scan_name e.name ≡ some read)
    × (eqb_ℤ read.1 (pos 0) ≡ false)

pub Some : (Entry → Type 0) → List Entry → Type 0
Some P [] = ⊥
Some P (e ∷ es) = P e ⊎ Some P es

-- A program without the password, or the runscript where the settings say so, or a trusted file.
pub IsAllowed : Scripts → List ℕ → Launch → Type 0
IsAllowed s empty_params l =
    (l.params ≡ empty_params)
    ⊎ (((l.file ≡ s.script_file) × (s.has_pass_creds ≡ true)) ⊎ Some (λ e. Trusts s e l) s.found)

abbrev FromFolder : Scripts → List ℕ → List Entry → Launch → Type 0
FromFolder s empty_params es l = (l.params ≡ empty_params) ⊎ Some (λ e. Trusts s e l) es

abbrev FromEntry : Scripts → List ℕ → Entry → Option Launch → Type 0
FromEntry s empty_params e none = Unit
FromEntry s empty_params e (some l) = (l.params ≡ empty_params) ⊎ Trusts s e l

launch_read_lem :
    (s : Scripts) (params empty_params : List ℕ) (e : Entry) (path : Option (List ℕ))
    (read : Option (ℤ × ℤ))
    → s.acp_to_wide (script_path e.name) ≡ path
    → scan_name e.name ≡ read
    → FromEntry s empty_params e (launch_read s params empty_params path read)
unfolding Trusts
launch_read_lem s params empty_params e none read at_path at_read = tt
launch_read_lem s params empty_params e (some path) none at_path at_read = tt
launch_read_lem s params empty_params e (some path) (some read) at_path at_read =
    go (eqb_ℤ read.1 (pos 0)) refl
  where
    go :
        (b : Bool)
        → eqb_ℤ read.1 (pos 0) ≡ b
        → (chosen (not b) params empty_params ≡ empty_params)
          ⊎ ((s.acp_to_wide (script_path e.name) ≡ some path)
              × (r : ℤ × ℤ) × (scan_name e.name ≡ some r)
              × (eqb_ℤ r.1 (pos 0) ≡ false))
    go true h = inl refl
    go false h = inr (at_path, read, at_read, h)

unless :
    (s : Scripts) (empty_params : List ℕ) (e : Entry) (b : Bool) (o : Option Launch)
    → FromEntry s empty_params e o
    → FromEntry s empty_params e (if b then none else o)
unless s empty_params e true o h = tt
unless s empty_params e false o h = h

launch_entry_lem :
    (s : Scripts) (params empty_params : List ℕ) (e : Entry)
    → FromEntry s empty_params e (launch_entry s params empty_params e)
unfolding launch_entry
launch_entry_lem s params empty_params e =
    let o : Option Launch =
      launch_read s params empty_params (s.acp_to_wide (script_path e.name)) (scan_name e.name) in
    unless s empty_params e (eqb_list e.name (codes ".") || eqb_list e.name (codes ".."))
      (if e.is_directory then none else o)
      (unless s empty_params e e.is_directory o (
        launch_read_lem s params empty_params e (s.acp_to_wide (script_path e.name))
          (scan_name e.name) refl refl))

head-FromFolder :
    (s : Scripts) (empty_params : List ℕ) (e : Entry) (es : List Entry) (l : Launch)
    → (l.params ≡ empty_params) ⊎ Trusts s e l
    → FromFolder s empty_params (e ∷ es) l
unfolding Some
head-FromFolder s empty_params e es l (inl h) = inl h
head-FromFolder s empty_params e es l (inr h) = inr (inl h)

tail-FromFolder :
    (s : Scripts) (empty_params : List ℕ) (e : Entry) (es : List Entry) (l : Launch)
    → FromFolder s empty_params es l
    → FromFolder s empty_params (e ∷ es) l
unfolding Some
tail-FromFolder s empty_params e es l (inl h) = inl h
tail-FromFolder s empty_params e es l (inr h) = inr (inr h)

push_launch_lem :
    (s : Scripts) (empty_params : List ℕ) (e : Entry) (es : List Entry) (o : Option Launch)
    (ls : List Launch)
    → FromEntry s empty_params e o
    → All (FromFolder s empty_params es) ls
    → All (FromFolder s empty_params (e ∷ es)) (push_launch o ls)
push_launch_lem s empty_params e es none ls h hs =
    All-imp (tail-FromFolder s empty_params e es) ls hs
push_launch_lem s empty_params e es (some l) ls h hs =
    (head-FromFolder s empty_params e es l h, All-imp (tail-FromFolder s empty_params e es) ls hs)

launch_entries_lem :
    (s : Scripts) (params empty_params : List ℕ) (es : List Entry)
    → All (FromFolder s empty_params es) (launch_entries s params empty_params es)
unfolding launch_entries
launch_entries_lem s params empty_params [] = tt
launch_entries_lem s params empty_params (e ∷ es) =
    push_launch_lem s empty_params e es (launch_entry s params empty_params e)
      (launch_entries s params empty_params es) (launch_entry_lem s params empty_params e)
      (launch_entries_lem s params empty_params es)

FromFolder-IsAllowed :
    (s : Scripts) (empty_params : List ℕ) (l : Launch)
    → FromFolder s empty_params s.found l
    → IsAllowed s empty_params l
unfolding IsAllowed
FromFolder-IsAllowed s empty_params l (inl h) = inl h
FromFolder-IsAllowed s empty_params l (inr h) = inr (inr h)

legacy-IsAllowed :
    (s : Scripts) (params empty_params : List ℕ)
    → IsAllowed s empty_params (legacy s params empty_params)
unfolding IsAllowed
legacy-IsAllowed s params empty_params = go s.has_pass_creds refl
  where
    go :
        (b : Bool)
        → s.has_pass_creds ≡ b
        → (chosen b params empty_params ≡ empty_params)
          ⊎ (((s.script_file ≡ s.script_file) × (s.has_pass_creds ≡ true))
              ⊎ Some (λ e. Trusts s e (legacy s params empty_params)) s.found)
    go true h = inr (inl (refl, h))
    go false h = inl refl

launch_all-IsAllowed :
    (s : Scripts) (r : Runner) (params empty_params : List ℕ)
    → All (IsAllowed s empty_params) (launch_all s r params empty_params).launched
launch_all-IsAllowed s r params empty_params =
    All-append (IsAllowed s empty_params) (launch_entries s params empty_params s.found)
      (legacy s params empty_params ∷ [])
      (All-imp (FromFolder-IsAllowed s empty_params) (launch_entries s params empty_params s.found)
        (launch_entries_lem s params empty_params s.found))
      (legacy-IsAllowed s params empty_params, tt)

-- If the user and the password are there and converted, fit in the buffer with their escapes, and
-- the fuel is more than the length of each, a call that is not after the end is done with the
-- scripts. Only the runscript, if the settings say so, and files of the folder whose third number
-- is not 0 are started with other parameters than the user alone.
pub launch_runscript-IsAllowed :
    (fuel : ℕ) (s : Scripts) (suser spass nuser npass : List ℕ) (r : Runner)
    → r.script_done ≡ false
    → s.utf8_to_wide suser ≡ some nuser
    → s.utf8_to_wide spass ≡ some npass
    → length nuser < fuel
    → length npass < fuel
    → length (escaped 0 nuser) + length (escaped 0 npass) < 192
    → (run : Run) × (launch_runscript fuel s suser (some spass) r ≡ some run)
      × (run.after.script_done ≡ true)
      × All (IsAllowed s (quote ∷ escaped 0 nuser ++ (quote ∷ []))) run.launched
unfolding launch_runscript with_credentials
launch_runscript-IsAllowed fuel s suser spass nuser npass r fresh at_user at_pass long_user
      long_pass fits =
    let written = run_params-parse fuel nuser npass long_user long_pass fits in
    let alone : List ℕ = quote ∷ escaped 0 nuser ++ (quote ∷ []) in
    (
      launch_all s r written.0 alone,
      rw
          (
            fresh,
            at_user,
            at_pass,
            with_credentials,
            written.1,
            escape_shell_arg_plain fuel nuser 198 long_user (omega arith),
          )
          refl,
      refl,
      launch_all-IsAllowed s r written.0 alone,
    )
