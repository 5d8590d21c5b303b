-- ===== src/CharDev/EpmLaws.antt =====
-- lkml/char-drv/epm.c: what the module obtains and gives back.
use bbblack.Base.{
  ℕ, zero, suc, ◌≡◌, refl, ◌≢◌, ◌↔◌, Bool, true, false, Option, none, some, List, [], ◌∷◌, ◌++◌,
  ◌∙◌, append-nil, arith,
}
use bbblack.Base.Int.{ℤ, pos, negsuc, is_neg}
use bbblack.CharDev.Calls.{
  device_class, region, cdev, device, memory, spi_driver, acquired, given_back, acquired-append,
  given_back-append, msleep,
}
use bbblack.CharDev.Epm.{
  EpmDrv, EpmAnswers, epm_cdev_init, epm_init, epm_exit, Operation, probe, remove, open_file,
  release, serve, serve_all,
}

-- The answers, one by one
abbrev answers : ℤ → ℕ → Bool → Option ℕ → ℤ → Bool → ℤ → EpmAnswers
answers z n c m k d r = record {
  alloc_chrdev_region = z;
  number = n;
  class_created = c;
  kmalloc = m;
  cdev_add = k;
  device_created = d;
  spi_register = r;
}

epm_init_by :
    (z : ℤ) (n : ℕ) (c : Bool) (m : Option ℕ) (k : ℤ) (d : Bool) (r : ℤ) (s : EpmDrv)
    → ((epm_init (answers z n c m k d r) s).0 ≡ pos 0)
      ↔ ((is_neg z ≡ false) × (m ≢ none) × (r ≡ pos 0))
unfolding epm_init epm_cdev_init
epm_init_by (negsuc z) n c m k d r s = ground arith
epm_init_by (pos z) n c none k d r s = ground arith
epm_init_by (pos z) n c (some p) (pos zero) d r s = (λ e. (refl, λ q. cc, e), λ (x, y, q). q)
epm_init_by (pos z) n c (some p) (pos (suc k)) d r s = (λ e. (refl, λ q. cc, e), λ (x, y, q). q)
epm_init_by (pos z) n c (some p) (negsuc k) d r s = (λ e. (refl, λ q. cc, e), λ (x, y, q). q)

-- The load returns 0 exactly when a device number was reserved, memory was there, and the SPI driver
-- was registered. It does not matter whether the `cdev` was added.
pub epm_init_iff :
    (a : EpmAnswers) (s : EpmDrv)
    → ((epm_init a s).0 ≡ pos 0)
      ↔ ((is_neg a.alloc_chrdev_region ≡ false) × (a.kmalloc ≢ none) × (a.spi_register ≡ pos 0))
epm_init_iff a s =
    epm_init_by a.alloc_chrdev_region a.number a.class_created a.kmalloc a.cdev_add a.device_created
      a.spi_register s

unload_by :
    (z : ℤ) (n : ℕ) (c : Bool) (m : Option ℕ) (k : ℤ) (d : Bool) (r : ℤ) (p : ℕ) (s : EpmDrv)
    → c ≡ true
    → d ≡ true
    → m ≡ some p
    → k ≡ pos 0
    → (epm_init (answers z n c m k d r) s).0 ≡ pos 0
    → s.calls ≡ []
    → let cs = (epm_exit (epm_init (answers z n c m k d r) s).1).calls in
      (acquired cs ≡ region n ∷ device_class ∷ memory p ∷ cdev n ∷ device n ∷ spi_driver ∷ [])
      × (given_back cs ≡ cdev n ∷ region n ∷ device n ∷ device_class ∷ [])
unfolding epm_init epm_cdev_init epm_exit
unload_by (negsuc z) n c m k d r p s c1 d1 m1 k1 ok e = cc
unload_by (pos z) n false m k d r p s c1 d1 m1 k1 ok e = cc
unload_by (pos z) n true m k false r p s c1 d1 m1 k1 ok e = cc
unload_by (pos z) n true none k true r p s c1 d1 m1 k1 ok e = cc
unload_by (pos z) n true (some q) (negsuc k) true r p s c1 d1 m1 k1 ok e = cc
unload_by (pos z) n true (some q) (pos (suc k)) true r p s c1 d1 m1 k1 ok e = cc
unload_by (pos z) n true (some q) (pos zero) true (negsuc r) p s c1 d1 m1 k1 ok e = cc
unload_by (pos z) n true (some q) (pos zero) true (pos (suc r)) p s c1 d1 m1 k1 ok e = cc
unload_by (pos z) n true (some q) (pos zero) true (pos zero) p s c1 d1 m1 k1 ok e =
    let same : q ≡ p = cc in rw (e, same) (refl, refl)

-- The operations between the load and the exit obtain nothing and give nothing back.
serve_all_lem :
    (os : List Operation) (s : EpmDrv)
    → let t = serve_all os s in
      (t.epm_number ≡ s.epm_number)
      × (acquired t.calls ≡ acquired s.calls)
      × (given_back t.calls ≡ given_back s.calls)
unfolding serve_all serve
serve_all_lem [] s = (refl, refl, refl)
serve_all_lem (probe ∷ os) s = serve_all_lem os s
serve_all_lem (remove ∷ os) s = serve_all_lem os s
serve_all_lem (release ∷ os) s = serve_all_lem os s
serve_all_lem (open_file ∷ os) s =
    let t : EpmDrv = record s { calls = s.calls ++ (msleep 5000 ∷ []) } in
    let (n, a, g) = serve_all_lem os t in
    (
      n,
      a ∙ acquired-append s.calls (msleep 5000 ∷ []) ∙ append-nil _,
      g ∙ given_back-append s.calls (msleep 5000 ∷ []) ∙ append-nil _,
    )

exit_after :
    (os : List Operation) (s : EpmDrv)
    → (acquired (epm_exit (serve_all os s)).calls ≡ acquired (epm_exit s).calls)
      × (given_back (epm_exit (serve_all os s)).calls ≡ given_back (epm_exit s).calls)
unfolding epm_exit
exit_after os s =
    let (n, a, g) = serve_all_lem os s in
    (rw (n, acquired-append, acquired-append, a), rw (n, given_back-append, given_back-append, g))

-- Where every step of the load succeeds, the exit gives back the `cdev`, the number, the device and the
-- class, but neither the memory of the driver's structure nor the SPI driver, which stays registered;
-- whatever probes, removals, opens and releases come in between.
pub epm_exit-epm_init :
    (a : EpmAnswers) (p : ℕ) (s : EpmDrv) (os : List Operation)
    → a.class_created ≡ true
    → a.device_created ≡ true
    → a.kmalloc ≡ some p
    → a.cdev_add ≡ pos 0
    → (epm_init a s).0 ≡ pos 0
    → s.calls ≡ []
    → let n = a.number in
      let cs = (epm_exit (serve_all os (epm_init a s).1)).calls in
      (acquired cs ≡ region n ∷ device_class ∷ memory p ∷ cdev n ∷ device n ∷ spi_driver ∷ [])
      × (given_back cs ≡ cdev n ∷ region n ∷ device n ∷ device_class ∷ [])
epm_exit-epm_init a p s os c d m k ok e =
    let (acq, giv) = exit_after os (epm_init a s).1 in
    let (x, y) =
      unload_by a.alloc_chrdev_region a.number a.class_created a.kmalloc a.cdev_add a.device_created
        a.spi_register p s c d m k ok e in
    (acq ∙ x, giv ∙ y)
