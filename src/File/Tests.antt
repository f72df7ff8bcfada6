-- ===== src/File/Tests.antt =====
-- Short runs of utilFile.c, and the theorems at these inputs.
use pi_frame.Prelude.{◌≡◌, refl, inl, inr, [], ◌∷◌, arith, ret, hang}
use pi_frame.File.{count, eintr, bytes, safe_read, safe_write, safe_pread}
use pi_frame.File.Whole.{safe_read-Serves, safe_write-Serves, end_of_file}

safe_read-Serves_example :
    safe_read (count 2 ∷ eintr ∷ count 1 ∷ []) 3 (1 ∷ 2 ∷ 3 ∷ 4 ∷ [])
    ≡ ret (bytes 3, 1 ∷ 2 ∷ 3 ∷ [])
safe_read-Serves_example =
    safe_read-Serves (count 2 ∷ eintr ∷ count 1 ∷ []) 3 (1 ∷ 2 ∷ 3 ∷ 4 ∷ [])
      (omega arith, omega arith, inr (omega arith, omega arith, inl refl)) (omega arith)

safe_write-Serves_example :
    safe_write (count 1 ∷ count 2 ∷ []) 3 (1 ∷ 2 ∷ 3 ∷ []) ≡ ret (bytes 3, 1 ∷ 2 ∷ 3 ∷ [])
safe_write-Serves_example =
    safe_write-Serves (count 1 ∷ count 2 ∷ []) 3 (1 ∷ 2 ∷ 3 ∷ [])
      (omega arith, omega arith, inr (omega arith, omega arith, inl refl)) (omega arith)

end_of_file_example :
    (safe_pread (count 0 ∷ count 0 ∷ []) 4 [] 0 ≡ hang)
    × (safe_read (count 0 ∷ count 0 ∷ count 0 ∷ []) 4 [] ≡ ret (bytes 0, []))
end_of_file_example = end_of_file 2 4 [] 0 (omega arith)
