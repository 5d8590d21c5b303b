-- ===== src/CharDev/Tests.antt =====
-- lkml/mmap/char-drv.c and lkml/char-drv/epm.c: the theorems at concrete data.
use bbblack.Base.{◌≡◌, refl, true, none, some, [], ◌∷◌, ◌++◌, arith, map, replicate}
use bbblack.Base.Int.{pos}
use bbblack.CharDev.Calls.{device_class, region, cdev, device, memory, acquired, given_back}
use bbblack.CharDev.Som.{
  SomMmap, InitAnswers, Vma, char_init, chardev_init, char_cleanup, som_mmap_fn,
}
use bbblack.CharDev.Epm.{EpmDrv, EpmAnswers, epm_init, epm_cdev_init}
use bbblack.CharDev.Reader.{Env}
use bbblack.CharDev.ReaderLaws.{System}
use bbblack.CharDev.SomLaws.{char_cleanup-char_init, map_all, release_all, som_release-som_mmap_fn}

abbrev som : SomMmap
som = record { num = 0; data_ptr = none; calls = [] }

abbrev willing : InitAnswers
willing = record {
  class_created = true;
  alloc_chrdev_region = pos 0;
  number = 240;
  cdev_add = pos 0;
  device_created = true;
}

willing_loads : (char_init willing som).0 ≡ pos 0
unfolding char_init chardev_init
willing_loads = refl

abbrev page : Vma
page = record { vm_start = 0x1000; vm_end = 0x2000 }

char_cleanup-char_init_example :
    let cs = (char_cleanup (char_init willing som).1).calls in
    (acquired cs ≡ device_class ∷ region 240 ∷ cdev 240 ∷ device 240 ∷ [])
    × (given_back cs ≡ cdev 240 ∷ region 240 ∷ device 240 ∷ device_class ∷ [])
char_cleanup-char_init_example = char_cleanup-char_init willing som refl refl willing_loads refl

som_release-som_mmap_fn_example :
    (t u : SomMmap) × (map_all page (pos 0) (4096 ∷ []) som ≡ some t)
    × (som_mmap_fn page (some 8192) (pos 0) t ≡ some (pos 0, u))
    × (acquired (release_all 1 u).calls ≡ map memory (4096 ∷ []) ++ (memory 8192 ∷ []))
    × (given_back (release_all 1 u).calls ≡ replicate 1 (memory 8192))
som_release-som_mmap_fn_example =
    som_release-som_mmap_fn page (pos 0) (4096 ∷ []) 8192 1 som (omega arith) refl

abbrev epm : EpmDrv
epm = record { epm_number = 0; epm_drv = none; calls = [] }

abbrev giving : EpmAnswers
giving = record {
  alloc_chrdev_region = pos 0;
  number = 241;
  class_created = true;
  kmalloc = some 512;
  cdev_add = pos 0;
  device_created = true;
  spi_register = pos 0;
}

giving_loads : (epm_init giving epm).0 ≡ pos 0
unfolding epm_init epm_cdev_init
giving_loads = refl

abbrev unread : Env System
unread = record {
  rd_buf = [];
  printed = [];
  world = record {
    som = record { num = 5; data_ptr = none; calls = [] };
    memory = λ p. 1;
    view = λ u. none;
  };
}
