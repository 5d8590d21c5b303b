-- ===== src/CharDev/Som.antt =====
-- lkml/mmap/char-drv.c: the device `som_mmap`, whose memory a program can map. Calls are recorded
-- in order.
use bbblack.Base.{ℕ, Bool, Option, none, some, List, [], ◌∷◌, ◌++◌, if◌then◌else◌, codes}
use Prim.Native.Nat.{bit_or}
use bbblack.Base.Int.{ℤ, pos, minus, is_neg, is_nonzero}
use bbblack.Base.Word.{to_u32, to_int, sub32}
use bbblack.CharDev.Calls.{
  device_class, region, cdev, device, memory, Call, acquire, give_back, memcpy, remap_pfn_range,
  set_vm_ops, acquire_if,
}

abbrev pub enomem : ℕ
enomem = 12

-- `struct som_mmap_struct`, and the calls so far
pub record SomMmap : Type 0 where
  pub num : ℕ
  pub data_ptr : Option ℕ
  pub calls : List Call

-- What the kernel answers while the module is loaded.
pub record InitAnswers : Type 0 where
  pub class_created : Bool
  pub alloc_chrdev_region : ℤ
  pub number : ℕ
  pub cdev_add : ℤ
  pub device_created : Bool

abbrev emit : List Call → SomMmap → SomMmap
emit cs s = record s { calls = s.calls ++ cs }

-- The rest of `chardev_init`, once the number is there. The result of `device_create` is not used.
add_device : InitAnswers → SomMmap → ℤ × SomMmap
add_device a s =
    if is_nonzero a.cdev_add
    then (minus 1, s)
    else (pos 0, emit (acquire (cdev s.num) ∷ acquire_if a.device_created (device s.num)) s)

unfoldable pub chardev_init : InitAnswers → SomMmap → ℤ × SomMmap
unfolding add_device
chardev_init a s =
    let t = emit (acquire_if a.class_created device_class) s in
    if is_neg a.alloc_chrdev_region
    then (minus 1, t)
    else add_device a (emit (acquire (region a.number) ∷ []) (record t { num = a.number }))

unfoldable pub char_init : InitAnswers → SomMmap → ℤ × SomMmap
char_init a s = let (ret, t) = chardev_init a s in (if is_nonzero ret then minus 1 else pos 0, t)

unfoldable pub char_cleanup : SomMmap → SomMmap
char_cleanup s =
    emit
      (give_back (cdev s.num)
        ∷ give_back (region s.num)
        ∷ give_back (device s.num)
        ∷ give_back device_class
        ∷ [])
      s

-- `kfree`, which takes NULL too.
kfree : Option ℕ → List Call
kfree none = []
kfree (some a) = give_back (memory a) ∷ []

unfoldable pub som_open : SomMmap → ℤ × SomMmap
som_open s = (pos 0, s)

unfoldable pub som_release : SomMmap → ℤ × SomMmap
unfolding kfree
som_release s = (pos 0, emit (kfree s.data_ptr) s)

-- `a | b` of two `int`s
abbrev pub int_or : ℤ → ℤ → ℤ
int_or a b = to_int (bit_or (to_u32 a) (to_u32 b))

-- The fields of `struct vm_area_struct` that are read
pub record Vma : Type 0 where
  pub vm_start : ℕ
  pub vm_end : ℕ

-- The 7 bytes of "Hello\n" with its NUL
abbrev pub hello : List ℕ
hello = codes "Hello" ++ (10 ∷ 0 ∷ [])

-- The rest of `som_mmap_fn`, by what `kmalloc_array` returned: `none` stands for the write through NULL, which
-- the test before it does not prevent. The value of `remap_pfn_range` is an argument.
map_data : Vma → Option ℕ → ℤ → SomMmap → Option (ℤ × SomMmap)
map_data vma none remap s = none
map_data vma (some a) remap s = some (
  int_or (pos 0) remap,
  emit
      (acquire (memory a)
        ∷ memcpy a hello
        ∷ remap_pfn_range vma.vm_start a (sub32 vma.vm_end vma.vm_start)
        ∷ set_vm_ops
        ∷ [])
      s,
)

unfoldable pub som_mmap_fn : Vma → Option ℕ → ℤ → SomMmap → Option (ℤ × SomMmap)
unfolding map_data
som_mmap_fn vma kmalloc_array remap s =
    map_data vma kmalloc_array remap (record s { data_ptr = kmalloc_array })
