-- ===== src/CharDev/ReaderLaws.antt =====
-- lkml/mmap/char-drv.c, lkml/mmap-app/drv.c: the program on the device.
use bbblack.Base.{
  ℕ, ◌+◌, ◌-◌, ◌*◌, ◌/◌, ◌%◌, ◌<◌, ◌≡◌, leb, ltb, ◌&&◌, if◌then◌else◌, Option, none, some, List, [],
  ◌∷◌, get_or, length,
}
use bbblack.Base.Word.{sub32}
use bbblack.Base.Int.{ℤ, pos, is_nonzero}
use bbblack.CharDev.Calls.{Call, memory, acquire, memcpy, remap_pfn_range, set_vm_ops}
use bbblack.CharDev.Som.{SomMmap, hello, som_mmap_fn, som_release}
use bbblack.CharDev.Reader.{Kernel}

-- The device, the bytes of the kernel's memory, and for an address of the program the address in the
-- kernel that is mapped there.
pub record System : Type 0 where
  pub som : SomMmap
  pub memory : ℕ → ℕ
  pub view : ℕ → Option ℕ

-- What the kernel documents of the calls: `memcpy` stores the bytes, and `remap_pfn_range` maps from
-- the start of the page of its address on.
abbrev pub perform : Call → System → System
perform (memcpy a bytes) s = record s {
  memory = λ p. if leb a p && ltb p (a + length bytes) then get_or bytes (p - a) 0 else s.memory p;
}
perform (remap_pfn_range start a size) s = record s {
  view = λ u.
      if leb start u && ltb u (start + size)
      then some (a / 4096 * 4096 + (u - start))
      else s.view u;
}
perform _ s = s

abbrev pub perform_all : List Call → System → System
perform_all [] s = s
perform_all (c ∷ cs) s = perform_all cs (perform c s)

-- The kernel under the program, for the address `start` that it gives to the mapping, and what
-- `kmalloc_array` and `remap_pfn_range` return in the driver. The calls of a mapping are performed when
-- the driver has returned 0.
abbrev pub mapped : ℕ → Option (ℤ × SomMmap) → System → Option ℕ × System
mapped start none s = (none, s)
mapped start (some (ret, d)) s =
    if is_nonzero ret
    then (none, record s { som = d })
    else (some start, perform_all d.calls (record s { som = d }))

abbrev pub som_device : ℕ → Option ℕ → ℤ → Kernel System
som_device start kmalloc_array remap = record {
  open_som = λ s. (pos 3, s);
  mmap = λ fd size s.
      mapped start
        (som_mmap_fn (record { vm_start = start; vm_end = start + size }) kmalloc_array remap s.som)
        s;
  load = λ u s. elim (s.view u) [ none ↦ none | some p ↦ some (s.memory p) ];
  unmap = λ u size s. record s { view = λ v. none };
  close = λ fd s. record s { som = (som_release s.som).1 };
}

module _ (start a : ℕ) (al : a % 4096 ≡ 0) (fits : start + 4194304 < 4294967296) (s : System) where
  abbrev size : ℕ
  size = sub32 (start + 4194304) start

  abbrev after : System
  after =
      perform_all
        (acquire (memory a) ∷ memcpy a hello ∷ remap_pfn_range start a size ∷ set_vm_ops ∷ []) s

  abbrev load : ℕ → Option ℕ
  load u = elim (after.view u) [ none ↦ none | some p ↦ some (after.memory p) ]
