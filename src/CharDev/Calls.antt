-- ===== src/CharDev/Calls.antt =====
-- lkml/mmap/char-drv.c and lkml/char-drv/epm.c: what the modules obtain from the kernel and give back.
use bbblack.Base.{ℕ, ◌≡◌, refl, ap, Bool, true, false, List, [], ◌∷◌, ◌++◌}

-- A region, a `cdev` and a device are named by the device number, memory by its address.
pub data Resource : Type 0 where
  device_class : Resource
  region cdev device memory : ℕ → Resource
  spi_driver : Resource

pub data Call : Type 0 where
  acquire : Resource → Call
  give_back : Resource → Call
  memcpy : ℕ → List ℕ → Call
  remap_pfn_range : ℕ → ℕ → ℕ → Call
  set_vm_ops : Call
  msleep : ℕ → Call

-- A call that succeeds acquires its resource, one that fails nothing.
abbrev pub acquire_if : Bool → Resource → List Call
acquire_if true r = acquire r ∷ []
acquire_if false r = []

abbrev pub acquired : List Call → List Resource
acquired [] = []
acquired (acquire r ∷ cs) = r ∷ acquired cs
acquired (_ ∷ cs) = acquired cs

abbrev pub given_back : List Call → List Resource
given_back [] = []
given_back (give_back r ∷ cs) = r ∷ given_back cs
given_back (_ ∷ cs) = given_back cs

pub acquired-append : (cs ds : List Call) → acquired (cs ++ ds) ≡ acquired cs ++ acquired ds
acquired-append [] ds = refl
acquired-append (acquire r ∷ cs) ds = ap (λ l. r ∷ l) (acquired-append cs ds)
acquired-append (give_back r ∷ cs) ds = acquired-append cs ds
acquired-append (_ ∷ cs) ds = acquired-append cs ds

pub given_back-append : (cs ds : List Call) → given_back (cs ++ ds) ≡ given_back cs ++ given_back ds
given_back-append [] ds = refl
given_back-append (give_back r ∷ cs) ds = ap (λ l. r ∷ l) (given_back-append cs ds)
given_back-append (acquire r ∷ cs) ds = given_back-append cs ds
given_back-append (_ ∷ cs) ds = given_back-append cs ds
