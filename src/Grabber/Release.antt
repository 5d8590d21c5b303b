-- ===== src/Grabber/Release.antt =====
-- lkml/v4l2-app/grabber.c: what `uninit_device` gives back.
use bbblack.Base.{
  ℕ, zero, suc, ◌<◌, ◌≡◌, refl, ◌∙◌, sym, some, List, [], ◌∷◌, ◌++◌, arith, append_assoc,
  append-nil, map, get_elem?, length, length-append,
}
use mathlib.Core.Path.{subst⁻¹}
use bbblack.Grabber.Types.{
  IoMethod, read, mmap, userptr, Buffer, Kernel, Call, Env, and_then, ◌>>◌, emit,
}
use bbblack.Grabber.Frames.{buffer_at}
use bbblack.Grabber.Setup.{
  init_by, munmapped, unmap_buffers, free_buffers, uninit_by, uninit_device,
}
use bbblack.Base.Run.{On, On-map, On-and_then}
use bbblack.Grabber.Retry.{Interrupts}
use bbblack.Grabber.Memory.{memory, memory-append, get_elem?-append, Provides}
use bbblack.Grabber.Balance.{obtain, give_back, Counted, Obtained, init_by-Obtained}

module _ {W : Type 0} (K : Kernel W) (patience : W → ℕ) (I : Interrupts K patience)
    (P : Provides K patience) (fuel : ℕ) where
  unmap_buffers_lem :
      (n : ℕ) (pre rest : List Buffer) (s : Env W)
      → s.buffers ≡ pre ++ rest
      → length rest ≡ n
      → On
          (λ _ t.
            (memory t.calls ≡ memory s.calls ++ map Call.munmap rest)
            × (t.array_addr ≡ s.array_addr))
          (λ _. ⊥)
          (unmap_buffers K fuel n (length pre) s)
  unfolding unmap_buffers munmapped
  unmap_buffers_lem zero pre [] s e len = (sym (append-nil _), refl)
  unmap_buffers_lem zero pre (b ∷ rest) s e len = absurd (omega arith)
  unmap_buffers_lem (suc n) pre [] s e len = absurd (omega arith)
  unmap_buffers_lem (suc n) pre (b ∷ rest) s e len =
      let there : get_elem? s.buffers (length pre) ≡ some b = rw e (get_elem?-append pre rest b) in
      let (v, ret, le) = P.unmap_memory b.start b.length s.world in
      let t : Env W = record s { world = v; calls = s.calls ++ (Call.munmap b ∷ []) } in
      let next : length (pre ++ (b ∷ [])) ≡ suc (length pre) =
        omega (arith, length-append pre (b ∷ [])) in
      rw (buffer_at, there)
        (rw ret (
          rw⁻¹ next (
            On-map
              (λ _ u.
                (memory u.calls ≡ memory t.calls ++ map Call.munmap rest)
                × (u.array_addr ≡ s.array_addr))
              (λ _ u.
                (memory u.calls ≡ memory s.calls ++ map Call.munmap (b ∷ rest))
                × (u.array_addr ≡ s.array_addr))
              (λ _. ⊥) (λ _. ⊥) (unmap_buffers K fuel n (length (pre ++ (b ∷ []))) t)
              (unmap_buffers_lem n (pre ++ (b ∷ [])) rest t
                (e ∙ sym (append_assoc pre (b ∷ []) rest)) (omega arith))
              (λ _ u (mem, arr). (
                mem
                    ∙ rw memory-append
                        (append_assoc (memory s.calls) (Call.munmap b ∷ []) (map Call.munmap rest)),
                arr,
              ))
              (λ u h. h))))

  free_buffers_lem :
      (n : ℕ) (pre rest : List Buffer) (s : Env W)
      → s.buffers ≡ pre ++ rest
      → length rest ≡ n
      → On
          (λ _ t.
            (memory t.calls ≡ memory s.calls ++ map (give_back userptr) rest)
            × (t.array_addr ≡ s.array_addr))
          (λ _. ⊥)
          (free_buffers K fuel n (length pre) s)
  unfolding free_buffers
  free_buffers_lem zero pre [] s e len = (sym (append-nil _), refl)
  free_buffers_lem zero pre (b ∷ rest) s e len = absurd (omega arith)
  free_buffers_lem (suc n) pre [] s e len = absurd (omega arith)
  free_buffers_lem (suc n) pre (b ∷ rest) s e len =
      let there : get_elem? s.buffers (length pre) ≡ some b = rw e (get_elem?-append pre rest b) in
      let t : Env W = record s { calls = s.calls ++ (Call.free b.start ∷ []) } in
      let next : length (pre ++ (b ∷ [])) ≡ suc (length pre) =
        omega (arith, length-append pre (b ∷ [])) in
      rw (buffer_at, there)
        (rw⁻¹ next (
          On-map
            (λ _ u.
              (memory u.calls ≡ memory t.calls ++ map (give_back userptr) rest)
              × (u.array_addr ≡ s.array_addr))
            (λ _ u.
              (memory u.calls ≡ memory s.calls ++ map (give_back userptr) (b ∷ rest))
              × (u.array_addr ≡ s.array_addr))
            (λ _. ⊥) (λ _. ⊥) (free_buffers K fuel n (length (pre ++ (b ∷ []))) t)
            (free_buffers_lem n (pre ++ (b ∷ [])) rest t (e ∙ sym (append_assoc pre (b ∷ []) rest))
              (omega arith))
            (λ _ u (mem, arr). (
              mem
                  ∙ rw memory-append (
                      append_assoc (memory s.calls) (Call.free b.start ∷ [])
                        (map (give_back userptr) rest)),
              arr,
            ))
            (λ u h. h)))

  uninit_read_lem :
      (bs : List Buffer) (s : Env W)
      → length bs ≡ 1
      → On
          (λ _ t.
            (memory t.calls ≡ memory s.calls ++ map (give_back read) bs)
            × (t.array_addr ≡ s.array_addr))
          (λ _. ⊥)
          (uninit_by K fuel read s.n_buffers (record s { buffers = bs }))
  unfolding uninit_by
  uninit_read_lem [] s len = absurd (omega arith)
  uninit_read_lem (b ∷ []) s len = (memory-append s.calls (Call.free b.start ∷ []), refl)
  uninit_read_lem (b ∷ c ∷ bs) s len = absurd (omega arith)

  uninit_by_lem :
      (io : IoMethod) (s : Env W)
      → Counted K patience I P fuel io s
      → On
          (λ _ t.
            (memory t.calls ≡ memory s.calls ++ map (give_back io) s.buffers)
            × (t.array_addr ≡ s.array_addr))
          (λ _. ⊥)
          (uninit_by K fuel io s.n_buffers s)
  unfolding uninit_by
  uninit_by_lem read s count = uninit_read_lem s.buffers s count
  uninit_by_lem mmap s count = unmap_buffers_lem s.n_buffers [] s.buffers s refl (sym count)
  uninit_by_lem userptr s count = free_buffers_lem s.n_buffers [] s.buffers s refl (sym count)

  -- What `uninit_device` does
  uninit_device_lem :
      (io : IoMethod) (s : Env W)
      → s.io ≡ io
      → Counted K patience I P fuel io s
      → On
          (λ _ t.
            memory t.calls
            ≡ memory s.calls ++ (map (give_back io) s.buffers ++ (Call.free s.array_addr ∷ [])))
          (λ _. ⊥)
          (uninit_device K fuel s)
  unfolding uninit_device
  uninit_device_lem io s e count =
      subst⁻¹
        (λ io'.
          On
            (λ _ t.
              memory t.calls
              ≡ memory s.calls ++ (map (give_back io) s.buffers ++ (Call.free s.array_addr ∷ [])))
            (λ _. ⊥)
            (and_then (uninit_by K fuel io' s.n_buffers s)
              (λ _ t. emit (Call.free t.array_addr) t)))
        e
        (On-and_then
          (λ _ t.
            (memory t.calls ≡ memory s.calls ++ map (give_back io) s.buffers)
            × (t.array_addr ≡ s.array_addr))
          (λ _ t.
            memory t.calls
            ≡ memory s.calls ++ (map (give_back io) s.buffers ++ (Call.free s.array_addr ∷ [])))
          (λ _. ⊥) (uninit_by K fuel io s.n_buffers s) _ (uninit_by_lem io s count)
          (λ _ t (mem, arr). rw arr (
            memory-append t.calls (Call.free s.array_addr ∷ [])
            ∙ rw mem (
                append_assoc (memory s.calls) (map (give_back io) s.buffers)
                  (Call.free s.array_addr ∷ [])))))

  -- The set-up of the buffers and then `uninit_device` both return, for each way of input, with a kernel
  -- that has memory to give and with more fuel than it has patience. What they obtain is the array and
  -- then the buffers `bs`, and what they give back, in this order, is each of `bs` in the way that fits
  -- and then the array.
  pub uninit_device-init_by :
      (io : IoMethod) (size : ℕ) (s : Env W)
      → s.io ≡ io
      → patience s.world < fuel
      → On
          (λ _ t.
            (a : ℕ) × (bs : List Buffer) × (memory t.calls
              ≡ memory s.calls
                ++ (Call.malloc a
                    ∷ (map (obtain io) bs ++ (map (give_back io) bs ++ (Call.free a ∷ []))))))
          (λ _. ⊥)
          ((init_by K fuel io size >> uninit_device K fuel) s)
  uninit_device-init_by io size s e lt =
      On-and_then (λ _ t. Obtained K patience I P fuel io s t) _ (λ _. ⊥) (init_by K fuel io size s)
        (λ _. uninit_device K fuel) (init_by-Obtained K patience I P fuel io size s lt)
        (λ _ t (io', mem, count).
          On-map
            (λ _ u.
              memory u.calls
              ≡ memory t.calls ++ (map (give_back io) t.buffers ++ (Call.free t.array_addr ∷ [])))
            (λ _ u.
              (a : ℕ) × (bs : List Buffer) × (memory u.calls
                ≡ memory s.calls
                  ++ (Call.malloc a
                      ∷ (map (obtain io) bs ++ (map (give_back io) bs ++ (Call.free a ∷ []))))))
            (λ _. ⊥) (λ _. ⊥) (uninit_device K fuel t) (uninit_device_lem io t (io' ∙ e) count)
            (λ _ u mem'. (
              t.array_addr,
              t.buffers,
              mem'
                  ∙ rw mem (
                      append_assoc (memory s.calls)
                        (Call.malloc t.array_addr ∷ map (obtain io) t.buffers)
                        (map (give_back io) t.buffers ++ (Call.free t.array_addr ∷ []))),
            ))
            (λ u h. h))
