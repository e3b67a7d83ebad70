-- ===== src/Report/Backtrace/Prints.antt =====
-- `_sppc_bt_print` adds to the report after its flush.
use sppc.Common.{
  ℕ, zero, suc, ◌+◌, ◌-◌, ◌%◌, ◌^◌, ◌≤◌, ◌<◌, Bool, ◌&&◌, Option, none, some, List, [], ◌∷◌, arith,
  get_or, Bytes, codes, All, ◌>>=◌, ltb, if◌then◌else◌, ◌==◌,
}
use sppc.Report.{put, put_symbol, put_dec, put_hex}
use sppc.Report.Speaks.{
  Speaks, nothing-Speaks, put-Speaks, put_symbol-Speaks, put_dec-Speaks, put_hex-Speaks,
  chain-Speaks,
}
use sppc.Report.Backtrace.{
  Resolved, Walk, put_place, file_part, put_object, print_frame, print_loop,
}

abbrev pub IsWord : ℕ → Type 0
IsWord v = v < 2 ^ 64

put_place-Speaks : (pc : ℕ) (found : Resolved) → IsWord pc → Speaks (put_place pc found)
unfolding put_place
put_place-Speaks pc found h = by_name found.name
  where
    by_name :
        (name : Option Bytes)
        → Speaks (λ r. elim name [
          | some n ↦
              put_hex ((pc + 2 ^ 64 - found.start) % 2 ^ 64) (put (codes "+") (put_symbol n r))
          | none ↦ put_hex pc (put (codes "?? ") r)
        ])
    by_name none =
        chain-Speaks (λ r. some (put (codes "?? ") r)) (put_hex pc) (put-Speaks (codes "?? "))
          (put_hex-Speaks pc h)
    by_name (some n) =
        let v = (pc + 2 ^ 64 - found.start) % 2 ^ 64 in
        chain-Speaks (λ r. some (put_symbol n r)) (λ r. put_hex v (put (codes "+") r))
          (put_symbol-Speaks n)
          (chain-Speaks (λ r. some (put (codes "+") r)) (put_hex v) (put-Speaks (codes "+"))
            (put_hex-Speaks v (omega arith)))

put_object-Speaks : (object : Option Bytes) → Speaks (λ r. some (put_object object r))
unfolding put_object
put_object-Speaks none = nothing-Speaks
put_object-Speaks (some []) = nothing-Speaks
put_object-Speaks (some (c ∷ cs)) =
    chain-Speaks (λ r. some (put (codes "  (") r))
      (λ r. some (put (codes ")") (put (file_part (c ∷ cs)) r))) (put-Speaks (codes "  ("))
      (chain-Speaks (λ r. some (put (file_part (c ∷ cs)) r)) (λ r. some (put (codes ")") r))
        (put-Speaks (file_part (c ∷ cs))) (put-Speaks (codes ")")))

print_frame-Speaks :
    (resolve : ℕ → Resolved) (exact : Bool) (i pc : ℕ)
    → IsWord i
    → IsWord pc
    → Speaks (print_frame resolve exact i pc)
unfolding print_frame
print_frame-Speaks resolve exact i pc hi hpc =
    let lookup = if (i == 0) && exact then pc else (pc + 2 ^ 64 - 1) % 2 ^ 64 in
    let gap = if ltb i 10 then codes "  " else codes " " in
    let object = (resolve lookup).object in
    chain-Speaks (λ r. some (put (codes "  #") r))
      (λ r. put_dec i r >>= λ q. put_place pc (resolve lookup) (put gap q) >>= λ l.
        some (put (codes "\n") (put_object object l)))
      (put-Speaks (codes "  #"))
      (chain-Speaks (put_dec i)
        (λ q. put_place pc (resolve lookup) (put gap q) >>= λ l.
          some (put (codes "\n") (put_object object l)))
        (put_dec-Speaks i hi)
        (chain-Speaks (λ q. put_place pc (resolve lookup) (put gap q))
          (λ l. some (put (codes "\n") (put_object object l)))
          (chain-Speaks (λ q. some (put gap q)) (put_place pc (resolve lookup)) (put-Speaks gap)
            (put_place-Speaks pc (resolve lookup) hpc))
          (chain-Speaks (λ l. some (put_object object l)) (λ l. some (put (codes "\n") l))
            (put_object-Speaks object) (put-Speaks (codes "\n")))))

get_or-IsWord : (xs : List ℕ) (i : ℕ) → All IsWord xs → IsWord (get_or xs i 0)
get_or-IsWord [] i h = omega arith
get_or-IsWord (x ∷ xs) zero h = h.0
get_or-IsWord (x ∷ xs) (suc i) h = get_or-IsWord xs i h.1

pub print_loop-Speaks :
    (resolve : ℕ → Resolved) (exact : Bool) (w : Walk) (k i : ℕ)
    → All IsWord w.frames
    → i + k ≤ 2 ^ 32
    → Speaks (print_loop resolve exact w k i)
unfolding print_loop
print_loop-Speaks resolve exact w zero i words h = nothing-Speaks
print_loop-Speaks resolve exact w (suc k) i words h =
    chain-Speaks (print_frame resolve exact (i - w.start) (get_or w.frames i 0))
      (print_loop resolve exact w k (i + 1))
      (print_frame-Speaks resolve exact (i - w.start) (get_or w.frames i 0) (omega arith)
        (get_or-IsWord w.frames i words))
      (print_loop-Speaks resolve exact w k (i + 1) words (omega arith))
