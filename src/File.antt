-- ===== src/File.antt =====
-- lib/util/utilFile.c: reads and writes that go on until all bytes are through, and `PFU_rtrim`.
-- The kernel is a list of what the system calls return, one after the other; a loop that is still
-- going at the end of the list hangs. ASSERT of a constant is a fault.
pub mod Whole
pub mod Trim
pub mod Place
mod Tests
use pi_frame.Prelude.{
  ℕ, zero, suc, ◌+◌, ◌-◌, Bool, true, false, List, [], ◌∷◌, ◌++◌, Outcome, ret, fault, hang, ◌>>=◌,
  ltb, ◌==◌, if◌then◌else◌, take, drop,
}

-- What `read`, `write` and `pread` return: how many bytes, or -1 with `errno`.
pub data Event : Type 0 where
  count : ℕ → Event
  eintr eio enospc other : Event

-- What the functions return: how many bytes, or one of the errors; `failed` is -1.
pub data Result : Type 0 where
  bytes : ℕ → Result
  error_io no_space failed : Result

-- The loop of `PFU_safeRead`: `src` is what the descriptor has to give, `buf` what is read so far.
pub read_loop : List Event → ℕ → ℕ → List ℕ → List ℕ → Outcome (Result × List ℕ)
read_loop [] size left src buf = hang
read_loop (count n ∷ es) size left src buf =
    let rest = read_loop es size (left - n) (drop n src) (buf ++ take n src) in
    if n == left
    then ret (bytes size, buf ++ take n src)
    else if n == 0
    then ret (bytes (size - left), buf)
    else rest
read_loop (eintr ∷ es) size left src buf =
    let rest = read_loop es size left src buf in if ltb 0 left then rest else ret (bytes size, buf)
read_loop (eio ∷ es) size left src buf = ret (error_io, buf)
read_loop (enospc ∷ es) size left src buf = ret (failed, buf)
read_loop (other ∷ es) size left src buf = ret (failed, buf)

-- `PFU_safeRead`.
pub safe_read : List Event → ℕ → List ℕ → Outcome (Result × List ℕ)
safe_read es size src = read_loop es size size src []

-- The loop of `PFU_safeWrite`: `data_left` is what is still to write, `out` what is written.
pub write_loop : List Event → ℕ → ℕ → List ℕ → List ℕ → Outcome (Result × List ℕ)
write_loop [] size left data_left out = hang
write_loop (count n ∷ es) size left data_left out =
    let rest = write_loop es size (left - n) (drop n data_left) (out ++ take n data_left) in
    if n == left then ret (bytes size, out ++ take n data_left) else rest
write_loop (eintr ∷ es) size left data_left out =
    let rest = write_loop es size left data_left out in
    if ltb 0 left then rest else ret (bytes size, out)
write_loop (eio ∷ es) size left data_left out = ret (error_io, out)
write_loop (enospc ∷ es) size left data_left out = ret (no_space, out)
write_loop (other ∷ es) size left data_left out = fault

-- `PFU_safeWrite`.
pub safe_write : List Event → ℕ → List ℕ → Outcome (Result × List ℕ)
safe_write es size content = write_loop es size size content []

-- The loop of `PFU_safePread`: each call reads the file at the offset that has been reached.
pub pread_loop : List Event → ℕ → ℕ → List ℕ → ℕ → List ℕ → Outcome (Result × List ℕ)
pread_loop [] size left file offset buf = hang
pread_loop (count n ∷ es) size left file offset buf =
    let rest = pread_loop es size (left - n) file (offset + n) (buf ++ take n (drop offset file)) in
    if n == left then ret (bytes size, buf ++ take n (drop offset file)) else rest
pread_loop (eintr ∷ es) size left file offset buf =
    let rest = pread_loop es size left file offset buf in
    if ltb 0 left then rest else ret (bytes size, buf)
pread_loop (eio ∷ es) size left file offset buf = ret (error_io, buf)
pread_loop (enospc ∷ es) size left file offset buf = fault
pread_loop (other ∷ es) size left file offset buf = fault

-- `PFU_safePread`.
pub safe_pread : List Event → ℕ → List ℕ → ℕ → Outcome (Result × List ℕ)
safe_pread es size file offset = pread_loop es size size file offset []

-- The bytes `xs` in a file from an offset on; a gap before them is filled with zeros.
pub splice : ℕ → List ℕ → List ℕ → List ℕ
splice offset [] file = file
splice zero (x ∷ xs) [] = x ∷ splice zero xs []
splice zero (x ∷ xs) (f ∷ fs) = x ∷ splice zero xs fs
splice (suc offset) (x ∷ xs) [] = 0 ∷ splice offset (x ∷ xs) []
splice (suc offset) (x ∷ xs) (f ∷ fs) = f ∷ splice offset (x ∷ xs) fs

-- The loop of `PFU_safePwrite`: each call writes to the file at the offset that has been reached.
pub pwrite_loop : List Event → ℕ → ℕ → List ℕ → ℕ → List ℕ → Outcome (Result × List ℕ)
pwrite_loop [] size left data_left offset file = hang
pwrite_loop (count n ∷ es) size left data_left offset file =
    let file' = splice offset (take n data_left) file in
    let rest = pwrite_loop es size (left - n) (drop n data_left) (offset + n) file' in
    if n == left then ret (bytes size, file') else rest
pwrite_loop (eintr ∷ es) size left data_left offset file =
    let rest = pwrite_loop es size left data_left offset file in
    if ltb 0 left then rest else ret (bytes size, file)
pwrite_loop (eio ∷ es) size left data_left offset file = ret (error_io, file)
pwrite_loop (enospc ∷ es) size left data_left offset file = ret (no_space, file)
pwrite_loop (other ∷ es) size left data_left offset file = fault

-- `PFU_safePwrite`.
pub safe_pwrite : List Event → ℕ → List ℕ → ℕ → List ℕ → Outcome (Result × List ℕ)
safe_pwrite es size content offset file = pwrite_loop es size size content offset file

-- `strchr`: the string is cut at the first `c`, if there is one.
pub has : ℕ → List ℕ → Bool
has c [] = false
has c (d ∷ ds) = if d == c then true else has c ds

pub cut : ℕ → List ℕ → List ℕ
cut c [] = []
cut c (d ∷ ds) = let rest = cut c ds in if d == c then [] else d ∷ rest

-- `PFU_rtrim`: at the first carriage return, or if there is none at the first line feed.
pub rtrim : List ℕ → List ℕ
rtrim s = if has 13 s then cut 13 s else if has 10 s then cut 10 s else s
