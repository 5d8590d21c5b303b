-- ===== src/Grabber/Main.antt =====
-- lkml/v4l2-app/grabber.c: the options, and the whole program.
use bbblack.Base.{ℕ, ◌==◌, suc, if◌then◌else◌, List, [], ◌∷◌, codes}
use bbblack.Base.Int.{ℤ, pos, negsuc}
use bbblack.Base.Word.{to_u32, to_int}
use bbblack.Grabber.Types.{
  read, mmap, userptr, Kernel, Env, exits, Prog, ◌>>◌, pure, exit_failure, modify,
}
use bbblack.Grabber.Setup.{open_device, init_device}

-- What `getopt_long` returns in turn, up to -1, each with `optarg`.
pub data Opt : Type 0 where
  flag : Opt
  device : List ℕ → Opt
  help memory_mapped read_calls user_pointers output format : Opt
  count : List ℕ → Opt
  unknown : Opt

abbrev pub default_device : List ℕ
default_device = codes "/dev/video0"

-- The globals as `main` starts.
abbrev pub initial : {W : Type 0} → W → Env W
initial w = record {
  dev_name = default_device;
  io = mmap;
  fd = negsuc 0;
  buffers = [];
  array_addr = 0;
  n_buffers = 0;
  out_buf = 0;
  force_format = 0;
  frame_count = pos 70;
  world = w;
  calls = [];
}

-- `strtol` is an argument: the `long` and `errno` after the call.
module _ {W : Type 0} (strtol : List ℕ → ℤ × ℕ) where
  -- The body of the loop of `main`
  unfoldable pub parse_option : Opt → Prog W Unit
  parse_option flag = pure tt
  parse_option (device name) = modify (λ s. record s { dev_name = name })
  parse_option help = λ s. (exits 0, s)
  parse_option memory_mapped = modify (λ s. record s { io = mmap })
  parse_option read_calls = modify (λ s. record s { io = read })
  parse_option user_pointers = modify (λ s. record s { io = userptr })
  parse_option output = modify (λ s. record s { out_buf = suc s.out_buf })
  parse_option format = modify (λ s. record s { force_format = suc s.force_format })
  parse_option (count text) = do
    let (n, errno) = strtol text
    modify (λ s. record s { frame_count = to_int (to_u32 n) })
    if errno == 0 then pure tt else exit_failure
  parse_option unknown = exit_failure

  unfoldable pub parse_options : List Opt → Prog W Unit
  unfolding parse_option
  parse_options [] = pure tt
  parse_options (o ∷ os) = do parse_option o; parse_options os

  module _ (K : Kernel W) (fuel : ℕ) where
    -- The calls after `init_device` are commented out in the source.
    unfoldable pub main : List Opt → Prog W ℕ
    unfolding parse_options
    main opts = do parse_options opts; open_device K fuel; init_device K fuel; pure 0
