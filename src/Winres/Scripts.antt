-- ===== src/Winres/Scripts.antt =====
-- `launchRunscript` of core/modules/run-virt/winres/src/winres.c: the scripts of B:\adminrun and the
-- runscript, and who gets the password. What Windows converts and finds are parameters. The numbers
-- that `sscanf` reads are not bounded.
pub mod Passwords
use mltk.Common.{
  ℕ, zero, suc, ◌+◌, Bool, true, false, not, ◌&&◌, ◌||◌, List, [], ◌∷◌, ◌++◌, Option, none, some,
  if◌then◌else◌, ◌==◌, ltb, eqb_list, codes, take, ℤ, pos, eqb_ℤ, is_digit, read_digits, skip_space,
  negate,
}
use mltk.Winres.Quote.{escape_shell_arg, run_params}

-- `SW_HIDE`, `SW_SHOWMINNOACTIVE` and `SW_SHOWNORMAL`.
pub data Show : Type 0 where
  hide : Show
  show_min_no_active : Show
  show_normal : Show

abbrev pub map_script_visibility : ℤ → Show
map_script_visibility input =
    if eqb_ℤ input (pos 0)
    then hide
    else if eqb_ℤ input (pos 2)
    then show_min_no_active
    else show_normal

abbrev pub skip_digits : List ℕ → List ℕ
skip_digits [] = []
skip_digits (c ∷ cs) = let rest = skip_digits cs in if is_digit c then rest else c ∷ cs

-- The digits of `%d`, at least one, after the sign.
abbrev pub scan_digits : (ℕ → ℤ) → List ℕ → Option (ℤ × List ℕ)
scan_digits signed [] = none
scan_digits signed (c ∷ cs) =
    if is_digit c then some (signed (read_digits 0 (c ∷ cs)), skip_digits (c ∷ cs)) else none

abbrev pub scan_sign : List ℕ → Option (ℤ × List ℕ)
scan_sign [] = none
scan_sign (c ∷ cs) =
    if c == b'-'
    then scan_digits negate cs
    else if c == b'+'
    then scan_digits pos cs
    else scan_digits pos (c ∷ cs)

-- `%d` of `sscanf`: the number and the text after it.
abbrev pub scan_int : List ℕ → Option (ℤ × List ℕ)
scan_int text = scan_sign (skip_space text)

-- A dash and a number.
abbrev pub scan_dash : List ℕ → Option (ℤ × List ℕ)
scan_dash [] = none
scan_dash (c ∷ cs) = if c == b'-' then scan_int cs else none

infixl 20 ◌>>=◌
abbrev pub ◌>>=◌ {ℓ κ} : {A : Type ℓ} {B : Type κ} → Option A → (A → Option B) → Option B
none >>= f = none
some a >>= f = f a

-- `sscanf(name, "%d-%d-%d", ...)`: the second and the third number, if it reads all three.
unfoldable pub scan_name : List ℕ → Option (ℤ × ℤ)
scan_name name = do
  index ← scan_int name
  visibility ← scan_dash index.1
  pass_creds ← scan_dash visibility.1
  some (visibility.0, pass_creds.0)

-- A file that `FindFirstFile` and `FindNextFile` report.
pub record Entry : Type 0 where
  pub name : List ℕ
  pub is_directory : Bool

-- A call of `ShellExecuteW`.
pub record Launch : Type 0 where
  pub file : List ℕ
  pub params : List ℕ
  pub show : Show

-- The settings, and what Windows answers: the conversions of texts, and the files in the folder.
pub record Scripts : Type 0 where
  pub utf8_to_wide : List ℕ → Option (List ℕ)
  pub acp_to_wide : List ℕ → Option (List ℕ)
  pub found : List Entry
  pub script_file : List ℕ
  pub script_visibility : ℤ
  pub has_pass_creds : Bool

-- `sFile`, with room for 199 characters.
abbrev pub script_path : List ℕ → List ℕ
script_path name = take 199 (codes "B:\\adminrun\\" ++ name)

abbrev pub chosen : Bool → List ℕ → List ℕ → List ℕ
chosen pass_creds params empty_params = if pass_creds then params else empty_params

-- A file with its converted path, and the numbers in its name.
abbrev pub launch_read :
    Scripts → List ℕ → List ℕ → Option (List ℕ) → Option (ℤ × ℤ) → Option Launch
launch_read s params empty_params none read = none
launch_read s params empty_params (some uc_path) none = none
launch_read s params empty_params (some uc_path) (some read) = some (record {
  file = uc_path;
  params = chosen (not (eqb_ℤ read.1 (pos 0))) params empty_params;
  show = map_script_visibility read.0;
})

unfoldable pub launch_entry : Scripts → List ℕ → List ℕ → Entry → Option Launch
unfolding scan_name
launch_entry s params empty_params e =
    if eqb_list e.name (codes ".") || eqb_list e.name (codes "..")
    then none
    else if e.is_directory
    then none
    else launch_read s params empty_params (s.acp_to_wide (script_path e.name)) (scan_name e.name)

abbrev pub push_launch : Option Launch → List Launch → List Launch
push_launch none ls = ls
push_launch (some l) ls = l ∷ ls

unfoldable pub launch_entries : Scripts → List ℕ → List ℕ → List Entry → List Launch
unfolding launch_entry
launch_entries s params empty_params [] = []
launch_entries s params empty_params (e ∷ es) =
    push_launch (launch_entry s params empty_params e) (launch_entries s params empty_params es)

abbrev pub legacy : Scripts → List ℕ → List ℕ → Launch
legacy s params empty_params = record {
  file = s.script_file;
  params = chosen s.has_pass_creds params empty_params;
  show = map_script_visibility s.script_visibility;
}

-- `fails` and `_scriptDone`.
pub record Runner : Type 0 where
  pub fails : ℕ
  pub script_done : Bool

-- A call: the variables after it, whether it stops its timer, and what it starts.
pub record Run : Type 0 where
  pub after : Runner
  pub killed : Bool
  pub launched : List Launch

abbrev pub failure : Runner → Run
failure r = record {
  after = record {
    fails = suc r.fails;
    script_done = if ltb 12 (suc r.fails) then true else r.script_done;
  };
  killed = false;
  launched = [];
}

abbrev pub launch_all : Scripts → Runner → List ℕ → List ℕ → Run
launch_all s r params empty_params = record {
  after = record r { script_done = true };
  killed = false;
  launched = launch_entries s params empty_params s.found ++ (legacy s params empty_params ∷ []);
}

-- With the two texts converted. `none` means that the fuel of `escapeShellArg` ran out.
unfoldable pub with_credentials : ℕ → Scripts → Runner → List ℕ → List ℕ → Option Run
unfolding launch_entries
with_credentials fuel s r nuser npass = do
  params ← run_params fuel nuser npass
  empty_params ← escape_shell_arg fuel nuser 198
  some (launch_all s r params empty_params)

abbrev pub converted : ℕ → Scripts → Runner → Option (List ℕ) → Option (List ℕ) → Option Run
converted fuel s r none npass = some (failure r)
converted fuel s r (some nuser) none = some (failure r)
converted fuel s r (some nuser) (some npass) = with_credentials fuel s r nuser npass

abbrev pub with_spass : ℕ → Scripts → Runner → List ℕ → Option (List ℕ) → Option Run
with_spass fuel s r suser none = some (failure r)
with_spass fuel s r suser (some spass) =
    converted fuel s r (s.utf8_to_wide suser) (s.utf8_to_wide spass)

unfoldable pub launch_runscript : ℕ → Scripts → List ℕ → Option (List ℕ) → Runner → Option Run
unfolding with_credentials
launch_runscript fuel s suser spass r =
    if r.script_done
    then some (record { after = r; killed = true; launched = [] })
    else with_spass fuel s r suser spass
