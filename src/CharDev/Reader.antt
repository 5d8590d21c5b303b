-- ===== src/CharDev/Reader.antt =====
-- lkml/mmap-app/drv.c: the program that reads from the device `som_mmap`.
use bbblack.Base.{ℕ, zero, suc, ◌*◌, ◌==◌, if◌then◌else◌, Option, none, some, List, [], ◌∷◌, ◌++◌}
use bbblack.Base.Int.{ℤ}
use bbblack.Base.Run.{Run, ◌>>◌, fault, modify}

-- What the program asks of the kernel, over a state `W` of it. `mmap` gives `none` for MAP_FAILED,
-- and `load` for an address that is not mapped.
pub record Kernel (W : Type 0) : Type 0 where
  pub open_som : W → ℤ × W
  pub mmap : ℤ → ℕ → W → Option ℕ × W
  pub load : ℕ → W → Option ℕ
  pub unmap : ℕ → ℕ → W → W
  pub close : ℤ → W → W

-- `rdBuf`, what was printed, and the kernel
pub record Env (W : Type 0) : Type 0 where
  pub rd_buf : List ℕ
  pub printed : List (List ℕ)
  pub world : W

-- What `%s` prints of an array
abbrev pub text_of : List ℕ → List ℕ
text_of [] = []
text_of (c ∷ cs) = let rest = text_of cs in if c == 0 then [] else c ∷ rest

-- The bytes of `n` addresses from `a` on, if all can be read
abbrev pub cons_if : Option ℕ → Option (List ℕ) → Option (List ℕ)
cons_if (some c) (some cs) = some (c ∷ cs)
cons_if _ _ = none

abbrev pub bytes_at : (ℕ → Option ℕ) → ℕ → ℕ → Option (List ℕ)
bytes_at load zero a = some []
bytes_at load (suc n) a = cons_if (load a) (bytes_at load n (suc a))

module _ {W : Type 0} (K : Kernel W) where
  -- `memcpy(rdBuf, mem, 7)`; reading at MAP_FAILED ends the program.
  unfoldable pub copy_to_buf : Option (List ℕ) → Run (Env W) Unit
  copy_to_buf none = fault
  copy_to_buf (some bytes) = modify (λ s. record s { rd_buf = bytes })

  unfoldable pub read_from : Option ℕ → Run (Env W) Unit
  unfolding copy_to_buf
  read_from none = fault
  read_from (some mem) = do
    λ s. copy_to_buf (bytes_at (λ a. K.load a s.world) 7 mem) s
    modify (λ s. record s { printed = s.printed ++ (text_of s.rd_buf ∷ []) })
    modify (λ s. record s { world = K.unmap mem (1024 * 4096) s.world })

  unfoldable pub main : Run (Env W) Unit
  unfolding read_from
  main s =
      let (fd, v) = K.open_som s.world in
      let (mem, u) = K.mmap fd (1024 * 4096) v in
      (read_from mem >> modify (λ t. record t { world = K.close fd t.world }))
        (record s { world = u })
