-- ===== src/Brightness/Files.antt =====
-- `file_get_contents` and `file_put_contents` of core/modules/slx-brightness/src/main.c.
pub mod Whole
use mltk.Common.{
  ℕ, zero, suc, ◌+◌, ◌-◌, Bool, List, [], ◌∷◌, ◌++◌, Option, none, some, ℤ, pos, negsuc,
  if◌then◌else◌, ltb, leb, ◌==◌, length, take, drop,
}

-- A read gives an error or some bytes, at most as many as were asked for; none at the file's end.
pub data Read : Type 0 where
  failed : Read
  chunk : List ℕ → Read

-- The result, and the text in the buffer if its end is marked there.
pub record Got : Type 0 where
  pub ret : ℤ
  pub text : Option (List ℕ)

-- The read loop for `len` bytes, from those that are there. Past the end of `reads` a read gives
-- no bytes.
unfoldable pub get_loop : ℕ → List Read → List ℕ → Got
get_loop len [] got = record { ret = pos (length got); text = some got }
get_loop len (failed ∷ reads) got =
    if ltb (length got) len
    then record { ret = negsuc 0; text = none }
    else record { ret = pos (length got); text = some got }
get_loop len (chunk bs ∷ reads) got =
    let fresh = take (len - length got) bs in
    let more = get_loop len reads (got ++ fresh) in
    if ltb (length got) len
    then (if ltb 0 (length fresh) then more else record { ret = pos (length got); text = some got })
    else record { ret = pos (length got); text = some got }

-- `len` is the size of the buffer; `reads` is `none` if the file cannot be opened.
unfoldable pub file_get_contents : Option (List Read) → ℕ → Got
unfolding get_loop
file_get_contents reads zero = record { ret = pos 0; text = none }
file_get_contents reads (suc zero) = record { ret = pos 0; text = some [] }
file_get_contents none (suc (suc n)) = record { ret = negsuc 0; text = none }
file_get_contents (some reads) (suc (suc n)) = get_loop (suc n) reads []

-- A write fails, or takes some of the bytes it is given.
pub data Write : Type 0 where
  write_failed : Write
  wrote : ℕ → Write

pub record Put : Type 0 where
  pub put_ret : ℤ
  pub content : List ℕ

-- The write loop, from what is in the file. Past the end of `writes` a write takes no bytes.
unfoldable pub put_loop : List Write → List ℕ → List ℕ → Put
put_loop writes [] done = record { put_ret = pos (length done); content = done }
put_loop [] (c ∷ cs) done = record { put_ret = pos (length done); content = done }
put_loop (write_failed ∷ writes) (c ∷ cs) done = record { put_ret = negsuc 0; content = done }
put_loop (wrote n ∷ writes) (c ∷ cs) done =
    let more = put_loop writes (drop n (c ∷ cs)) (done ++ take n (c ∷ cs)) in
    if n == 0 then record { put_ret = pos (length done); content = done } else more

-- `writes` is `none` if the file cannot be opened; it is truncated before the first write. The
-- result and the file, unless it is as it was. With nothing to write the result is the initial -1.
unfoldable pub file_put_contents : Option (List Write) → List ℕ → ℤ × Option (List ℕ)
unfolding put_loop
file_put_contents none buffer = (negsuc 0, none)
file_put_contents (some writes) [] = (negsuc 0, some [])
file_put_contents (some writes) (c ∷ cs) =
    let p = put_loop writes (c ∷ cs) [] in (p.put_ret, some p.content)
