-- ===== src/CharDev/Epm.antt =====
-- lkml/char-drv/epm.c: the SPI driver `epm` with a character device. Calls are recorded in order.
use bbblack.Base.{ℕ, ◌==◌, not, false, Bool, Option, none, some, List, [], ◌∷◌, ◌++◌, if◌then◌else◌}
use bbblack.Base.Int.{ℤ, pos, minus, is_neg, is_nonzero}
use bbblack.CharDev.Calls.{
  device_class, region, cdev, device, memory, spi_driver, Call, acquire, give_back, acquire_if,
  msleep,
}

-- The globals `epm_number` and `epm_drv`, and the calls so far
pub record EpmDrv : Type 0 where
  pub epm_number : ℕ
  pub epm_drv : Option ℕ
  pub calls : List Call

pub record EpmAnswers : Type 0 where
  pub alloc_chrdev_region : ℤ
  pub number : ℕ
  pub class_created : Bool
  pub kmalloc : Option ℕ
  pub cdev_add : ℤ
  pub device_created : Bool
  pub spi_register : ℤ

abbrev emit : List Call → EpmDrv → EpmDrv
emit cs s = record s { calls = s.calls ++ cs }

-- The rest of `epm_cdev_init`, by what `kmalloc` returned.
epm_cdev_add : Option ℕ → EpmAnswers → EpmDrv → ℤ × EpmDrv
epm_cdev_add none a s = (minus 1, s)
epm_cdev_add (some p) a s =
    let t = emit (acquire (memory p) ∷ []) s in
    if is_nonzero a.cdev_add then (pos 1, t) else (
      pos 0,
      emit (acquire (cdev s.epm_number) ∷ acquire_if a.device_created (device s.epm_number)) t,
    )

unfoldable pub epm_cdev_init : EpmAnswers → EpmDrv → ℤ × EpmDrv
unfolding epm_cdev_add
epm_cdev_init a s =
    if is_neg a.alloc_chrdev_region
    then (minus 1, s)
    else epm_cdev_add a.kmalloc a (
        emit (acquire (region a.number) ∷ acquire_if a.class_created device_class)
          (record s { epm_number = a.number; epm_drv = a.kmalloc }))

-- `ret == -1`
abbrev is_minus_one : ℤ → Bool
is_minus_one (pos n) = false
is_minus_one (ℤ.negsuc n) = n == 0

unfoldable pub epm_init : EpmAnswers → EpmDrv → ℤ × EpmDrv
epm_init a s =
    let (ret, t) = epm_cdev_init a s in
    if is_minus_one ret
    then (ret, t)
    else (a.spi_register, emit (acquire_if (not (is_nonzero a.spi_register)) spi_driver) t)

unfoldable pub epm_exit : EpmDrv → EpmDrv
epm_exit s =
    emit
      (give_back (cdev s.epm_number)
        ∷ give_back (region s.epm_number)
        ∷ give_back (device s.epm_number)
        ∷ give_back device_class
        ∷ [])
      s

-- The probe and the removal of the SPI driver
unfoldable pub epm_probe : EpmDrv → ℤ × EpmDrv
epm_probe s = (pos 0, s)

unfoldable pub epm_remove : EpmDrv → ℤ × EpmDrv
epm_remove s = (pos 0, s)

-- The file operations: an open keeps its caller waiting.
unfoldable pub generic_open : EpmDrv → ℤ × EpmDrv
generic_open s = (pos 0, emit (msleep 5000 ∷ []) s)

unfoldable pub generic_release : EpmDrv → ℤ × EpmDrv
generic_release s = (pos 0, s)

-- What the kernel may call once the module is loaded
pub data Operation : Type 0 where
  probe remove open_file release : Operation

-- `epm_driver` and `fops`
unfoldable pub serve : Operation → EpmDrv → ℤ × EpmDrv
unfolding epm_probe epm_remove generic_open generic_release
serve probe s = epm_probe s
serve remove s = epm_remove s
serve open_file s = generic_open s
serve release s = generic_release s

unfoldable pub serve_all : List Operation → EpmDrv → EpmDrv
unfolding serve
serve_all [] s = s
serve_all (o ∷ os) s = serve_all os (serve o s).1
