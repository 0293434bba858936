-- ===== src/Winres/Shares.antt =====
-- `mountNetworkShares` of core/modules/run-virt/winres/src/winres.c: one attempt at all drives that
-- are not connected.
pub mod Attempt
use mltk.Common.{
  ℕ, suc, ◌-◌, Bool, true, false, not, ◌&&◌, ◌||◌, List, [], ◌∷◌, ◌++◌, Option, none, some,
  if◌then◌else◌, ◌==◌, ltb, eqb_list, codes, length, get_or, take,
}
use mltk.Winres.ShareFile.{Drive}
use mltk.Winres.Mount.{Windows, Login, Cache, Outcome, mount_network_share}

abbrev pub is_slash : ℕ → Bool
is_slash c = c == b'/' || c == b'\\'

-- The text after its first character without the slashes at its end.
unfoldable pub strip_tail : List ℕ → List ℕ
strip_tail [] = []
strip_tail (c ∷ cs) = elim (strip_tail cs) [
  | [] ↦ if is_slash c then [] else c ∷ []
  | ◌∷◌ x xs ↦ c ∷ x ∷ xs
]

-- The first character stays, whatever it is.
unfoldable pub strip_slashes : List ℕ → List ℕ
unfolding strip_tail
strip_slashes [] = []
strip_slashes (c ∷ cs) = c ∷ strip_tail cs

abbrev pub is_printer : Drive → Bool
is_printer d = elim d.letter [ none ↦ false | some l ↦ eqb_list l (codes "PRINTER") ]

-- A call of `postSuccessfulMount`: the drive, and the letter that it has got.
pub record Call : Type 0 where
  pub mounted_drive : Drive
  pub mounted_letter : List ℕ

abbrev pub calls_of : Drive → Option (List ℕ) → List Call
calls_of d none = []
calls_of d (some l) = record { mounted_drive = d; mounted_letter = l } ∷ []

-- A drive after an attempt, the static variables of `mount`, and the calls of
-- `postSuccessfulMount`, in their order.
pub record Tried : Type 0 where
  pub drive : Drive
  pub cache_after : Cache
  pub calls : List Call

abbrev pub mark : Drive → Bool → Drive
mark d done = record d { success = done }

-- By name, and if that fails by address.
unfoldable pub try_both : Windows → Login → Cache → Drive → Tried
try_both w login cache d =
    let first = mount_network_share w login cache d false in
    let second = mount_network_share w login first.cache d true in
    let calls = calls_of d first.mounted in
    if first.done
    then record { drive = mark d true; cache_after = first.cache; calls = calls }
    else record {
      drive = mark d second.done;
      cache_after = second.cache;
      calls = calls ++ calls_of d second.mounted;
    }

-- A drive that is not connected, at an attempt with this number.
unfoldable pub try_drive : Windows → Login → ℕ → Cache → Drive → Tried
unfolding strip_slashes try_both
try_drive w login attempt cache d =
    let d' = if attempt == 2 then record d { path = strip_slashes d.path } else d in
    if not (ltb 4 attempt) && is_printer d
    then record { drive = mark d' false; cache_after = cache; calls = [] }
    else try_both w login cache d'

-- What the loop leaves: the drives, `failCount`, the static variables of `mount`, and the calls.
pub record Attempted : Type 0 where
  pub all : List Drive
  pub fail_count : ℕ
  pub cache_left : Cache
  pub all_calls : List Call

abbrev pub after_drive : List Call → Drive → Attempted → Attempted
after_drive calls d a = record {
  all = d ∷ a.all;
  fail_count = if d.success then a.fail_count else suc a.fail_count;
  cache_left = a.cache_left;
  all_calls = calls ++ a.all_calls;
}

unfoldable pub try_all : Windows → Login → ℕ → Cache → List Drive → Attempted
unfolding try_drive
try_all w login attempt cache [] = record {
  all = [];
  fail_count = 0;
  cache_left = cache;
  all_calls = [];
}
try_all w login attempt cache (d ∷ ds) =
    let t = try_drive w login attempt cache d in
    let kept = try_all w login attempt cache ds in
    let rest = try_all w login attempt t.cache_after ds in
    if d.success then after_drive [] d kept else after_drive t.calls t.drive rest

-- The static `attemptNo`, the drives and the static variables of `mount`.
pub record Mounts : Type 0 where
  pub attempt_no : ℕ
  pub drives : List Drive
  pub cached : Cache

abbrev pub finished : ℕ → Attempted → Bool × Mounts × List Call
finished attempt a = (
  a.fail_count == 0,
  record { attempt_no = attempt; drives = a.all; cached = a.cache_left },
  a.all_calls,
)

abbrev pub has_password : Login → Bool
has_password login = elim login.spass [ none ↦ false | some pass ↦ true ]

unfoldable pub mount_network_shares : Windows → Bool → Login → Mounts → Bool × Mounts × List Call
unfolding try_all
mount_network_shares w share_file_ok login m =
    if not share_file_ok
    then (true, m, [])
    else if not (has_password login)
    then (false, m, [])
    else finished (suc m.attempt_no) (try_all w login (suc m.attempt_no) m.cached m.drives)
