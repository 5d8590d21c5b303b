-- ===== src/CharDev/SomLaws.antt =====
-- lkml/mmap/char-drv.c: what the module obtains and gives back.
use bbblack.Base.{
  ℕ, zero, suc, ◌≡◌, refl, ◌∙◌, sym, Bool, true, false, not, ◌&&◌, Option, none, some, List, [],
  ◌∷◌, ◌++◌, ◌<◌, ◌^◌, if◌then◌else◌, arith, append_assoc, append-nil, map, replicate,
}
use Prim.Native.Nat.{bit_or, bit_or-bitwise}
use bbblack.Base.Int.{ℤ, pos, negsuc, minus, is_neg, is_nonzero}
use bbblack.Base.Word.{sub32}
use bbblack.CharDev.Calls.{
  device_class, region, cdev, device, memory, acquire, give_back, acquire_if, acquired, given_back,
  acquired-append, given_back-append, memcpy, remap_pfn_range, set_vm_ops,
}
use bbblack.CharDev.Som.{
  SomMmap, InitAnswers, Vma, char_init, chardev_init, char_cleanup, som_release, som_mmap_fn,
  int_or, hello,
}

ruleset call_laws = (
  acquired-append, given_back-append, memcpy, remap_pfn_range, set_vm_ops, append-nil, append_assoc,
)

-- What a load does, by the kernel's answers
abbrev pub Loaded : InitAnswers → SomMmap → Type 0
Loaded a s =
    let reserved : Bool = not (is_neg a.alloc_chrdev_region) in
    let added : Bool = reserved && not (is_nonzero a.cdev_add) in
    let (ret, t) = char_init a s in
    (ret ≡ (if added then pos 0 else minus 1))
    × (given_back t.calls ≡ given_back s.calls)
    × (acquired t.calls
        ≡ acquired s.calls
          ++ acquired (
              acquire_if a.class_created device_class
              ++ (acquire_if reserved (region a.number)
                  ++ (acquire_if added (cdev a.number)
                      ++ acquire_if (added && a.device_created) (device a.number)))))

load_by :
    (c : Bool) (z : ℤ) (n : ℕ) (k : ℤ) (d : Bool) (s : SomMmap)
    → Loaded
        (record {
          class_created = c;
          alloc_chrdev_region = z;
          number = n;
          cdev_add = k;
          device_created = d;
        })
        s
unfolding char_init chardev_init
load_by true (negsuc z) n k d s = (refl, simp call_laws, simp call_laws)
load_by false (negsuc z) n k d s = (refl, simp call_laws, simp call_laws)
load_by true (pos z) n (negsuc k) d s = (refl, simp call_laws, simp call_laws)
load_by false (pos z) n (negsuc k) d s = (refl, simp call_laws, simp call_laws)
load_by true (pos z) n (pos (suc k)) d s = (refl, simp call_laws, simp call_laws)
load_by false (pos z) n (pos (suc k)) d s = (refl, simp call_laws, simp call_laws)
load_by true (pos z) n (pos zero) true s = (refl, simp call_laws, simp call_laws)
load_by true (pos z) n (pos zero) false s = (refl, simp call_laws, simp call_laws)
load_by false (pos z) n (pos zero) true s = (refl, simp call_laws, simp call_laws)
load_by false (pos z) n (pos zero) false s = (refl, simp call_laws, simp call_laws)

-- A load gives nothing back, whether it fails or not. It returns 0 exactly when a device number was
-- reserved and the `cdev` was added, and -1 otherwise. It obtains, in this order, the class, the
-- number, the `cdev` and the device, as far as each was given out: the number is asked for without a
-- class too, the `cdev` only with the number, the device only with the `cdev`.
pub char_init_lem : (a : InitAnswers) (s : SomMmap) → Loaded a s
char_init_lem a s =
    load_by a.class_created a.alloc_chrdev_region a.number a.cdev_add a.device_created s

unload_by :
    (c : Bool) (z : ℤ) (n : ℕ) (k : ℤ) (d : Bool) (s : SomMmap)
    → let a : InitAnswers = record {
      class_created = c;
      alloc_chrdev_region = z;
      number = n;
      cdev_add = k;
      device_created = d;
    } in
      c ≡ true
      → d ≡ true
      → (char_init a s).0 ≡ pos 0
      → s.calls ≡ []
      → let cs = (char_cleanup (char_init a s).1).calls in
        (acquired cs ≡ device_class ∷ region n ∷ cdev n ∷ device n ∷ [])
        × (given_back cs ≡ cdev n ∷ region n ∷ device n ∷ device_class ∷ [])
unfolding char_init chardev_init char_cleanup
unload_by c (negsuc z) n k d s p q ok e = cc
unload_by c (pos z) n (negsuc k) d s p q ok e = cc
unload_by c (pos z) n (pos (suc k)) d s p q ok e = cc
unload_by false (pos z) n (pos zero) d s p q ok e = cc
unload_by true (pos z) n (pos zero) false s p q ok e = cc
unload_by true (pos z) n (pos zero) true s p q ok e = rw e (refl, refl)

-- The exit after a load that succeeded, with the class and the device created, gives back all that the
-- load obtained, each once.
pub char_cleanup-char_init :
    (a : InitAnswers) (s : SomMmap)
    → a.class_created ≡ true
    → a.device_created ≡ true
    → (char_init a s).0 ≡ pos 0
    → s.calls ≡ []
    → let cs = (char_cleanup (char_init a s).1).calls in
      (acquired cs ≡ device_class ∷ region a.number ∷ cdev a.number ∷ device a.number ∷ [])
      × (given_back cs ≡ cdev a.number ∷ region a.number ∷ device a.number ∷ device_class ∷ [])
char_cleanup-char_init a s c d ok e =
    unload_by a.class_created a.alloc_chrdev_region a.number a.cdev_add a.device_created s c d ok e

bit_or-zero : (x : ℕ) → bit_or 0 x ≡ x
bit_or-zero x = rw bit_or-bitwise refl

-- The values of an `int`
abbrev pub IsInt : ℤ → Type 0
IsInt (pos n) = n < 2 ^ 31
IsInt (negsuc n) = n < 2 ^ 31

int_or-zero : (z : ℤ) → IsInt z → int_or (pos 0) z ≡ z
int_or-zero (pos n) h = rw bit_or-zero (ground arith)
int_or-zero (negsuc n) h = rw bit_or-zero (ground arith)

-- Some mappings in turn, each with memory at the next address.
pub map_all : Vma → ℤ → List ℕ → SomMmap → Option SomMmap
map_all vma remap [] s = some s
map_all vma remap (a ∷ rest) s = elim (som_mmap_fn vma (some a) remap s) [
  | none ↦ none
  | some r ↦ map_all vma remap rest r.1
]

-- Some releases in turn
pub release_all : ℕ → SomMmap → SomMmap
release_all zero s = s
release_all (suc k) s = release_all k (som_release s).1

-- What some mappings in turn leave: the memory of each, and the pointer to the last.
map_all_lem :
    (vma : Vma) (remap : ℤ) (addrs : List ℕ) (s : SomMmap)
    → (t : SomMmap) × (map_all vma remap addrs s ≡ some t)
      × (acquired t.calls ≡ acquired s.calls ++ map memory addrs)
      × (given_back t.calls ≡ given_back s.calls)
unfolding map_all som_mmap_fn
map_all_lem vma remap [] s = (s, refl, sym (append-nil _), refl)
map_all_lem vma remap (a ∷ rest) s =
    let u : SomMmap = record s {
      data_ptr = some a;
      calls =
          s.calls
          ++ (acquire (memory a)
              ∷ memcpy a hello
              ∷ remap_pfn_range vma.vm_start a (sub32 vma.vm_end vma.vm_start)
              ∷ set_vm_ops
              ∷ []);
    } in
    let (t, e, got, back) = map_all_lem vma remap rest u in
    (
      t,
      e,
      got ∙ rw acquired-append (append_assoc (acquired s.calls) (memory a ∷ []) (map memory rest)),
      back ∙ simp call_laws,
    )

released :
    (a : ℕ) (s : SomMmap)
    → s.data_ptr ≡ some a
    → (som_release s).1 ≡ record s { calls = s.calls ++ (give_back (memory a) ∷ []) }
unfolding som_release
released a s e = rw e refl

release_all_lem :
    (k a : ℕ) (s : SomMmap)
    → s.data_ptr ≡ some a
    → (given_back (release_all k s).calls ≡ given_back s.calls ++ replicate k (memory a))
      × (acquired (release_all k s).calls ≡ acquired s.calls)
unfolding release_all
release_all_lem zero a s e = (sym (append-nil _), refl)
release_all_lem (suc k) a s e =
    let u : SomMmap = record s { calls = s.calls ++ (give_back (memory a) ∷ []) } in
    let (back, got) = release_all_lem k a u e in
    rw (released a s e, release_all)
      (
        back
            ∙ rw given_back-append
                (append_assoc (given_back s.calls) (memory a ∷ []) (replicate k (memory a))),
        got ∙ simp call_laws,
      )

-- The device frees the memory of the last mapping at every release, and no other. After mappings at
-- the addresses `addrs` and then `a`, and `k` releases, the memory of all of them was obtained, and
-- that at `a` was given back `k` times: only a single mapping with a single release is balanced.
-- Each mapping has returned what `remap_pfn_range` returned.
pub som_release-som_mmap_fn :
    (vma : Vma) (remap : ℤ) (addrs : List ℕ) (a k : ℕ) (s : SomMmap)
    → IsInt remap
    → s.calls ≡ []
    → (t u : SomMmap) × (map_all vma remap addrs s ≡ some t)
      × (som_mmap_fn vma (some a) remap t ≡ some (remap, u))
      × (acquired (release_all k u).calls ≡ map memory addrs ++ (memory a ∷ []))
      × (given_back (release_all k u).calls ≡ replicate k (memory a))
som_release-som_mmap_fn vma remap addrs a k s int e =
    let (t, mapped, got, back) = map_all_lem vma remap addrs s in
    let u : SomMmap = record t {
      data_ptr = some a;
      calls =
          t.calls
          ++ (acquire (memory a)
              ∷ memcpy a hello
              ∷ remap_pfn_range vma.vm_start a (sub32 vma.vm_end vma.vm_start)
              ∷ set_vm_ops
              ∷ []);
    } in
    let (back', got') = release_all_lem k a u refl in
    let none_yet : (acquired s.calls ≡ []) × (given_back s.calls ≡ []) = rw e (refl, refl) in
    (
      t,
      u,
      mapped,
      unfold som_mmap_fn in rw (int_or-zero remap int) refl,
      got' ∙ rw (acquired-append, got, none_yet.0) refl,
      back' ∙ rw (given_back-append, back, none_yet.1) refl,
    )
