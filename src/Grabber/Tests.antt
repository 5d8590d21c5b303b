-- ===== src/Grabber/Tests.antt =====
-- lkml/v4l2-app/grabber.c: the theorems at a kernel whose requests are interrupted a few times.
use bbblack.Base.{
  ℕ, zero, suc, ◌+◌, ◌*◌, ◌≤◌, ◌<◌, ◌≡◌, refl, ◌⊎◌, inl, true, some, List, [], ◌∷◌, ◌++◌, arith,
  map, codes,
}
use bbblack.Base.Int.{ℤ, pos}
use bbblack.Base.Word.{to_u32}
use bbblack.Grabber.Types.{
  mmap, userptr, Request, querycap, cropcap, s_fmt, g_fmt, reqbufs, querybuf, qbuf, dqbuf, streamon,
  clear, mapped, Buffer, V4l2Buffer, Out, Reply, failed, done, is_interrupted, eintr, Kernel, Call,
  Env, ◌>>◌,
}
use bbblack.Grabber.Frames.{xioctl, mainloop}
use bbblack.Grabber.Setup.{init_by, uninit_device}
use bbblack.Grabber.Main.{output, count, main, initial}
use bbblack.Base.Run.{On}
use bbblack.Grabber.Retry.{Interrupts, Answered, xioctl_lem}
use bbblack.Grabber.Takes.{images}
use bbblack.Grabber.Count.{mainloop_frames}
use bbblack.Grabber.Serving.{mainloop_serves}
use bbblack.Grabber.Delivers.{Serves, Delivers}
use bbblack.Grabber.Memory.{memory, Provides}
use bbblack.Grabber.Balance.{obtain, give_back}
use bbblack.Grabber.Release.{uninit_device-init_by}
use bbblack.Grabber.Quiet.{captures}
use bbblack.Grabber.Idle.{captures-main}
use bbblack.Grabber.Forced.{IsReply}
use bbblack.Grabber.Format.{main-s_fmt_vid_cap}
use bbblack.FakeVid.State.{FakeVidDevice}
use bbblack.FakeVid.Init.{init_device}
use bbblack.FakeVid.Format.{s_fmt_vid_cap, g_fmt_vid_cap, querycap as fake_querycap}
use bbblack.Grabber.Plain.{word_of, OnFakeDriver}
use bbblack.Grabber.Accepted.{SetUp}
use bbblack.Grabber.Fits.{Fits, main_sets_up}
use bbblack.Grabber.Types.{PixFormat}
use bbblack.Grabber.Main.{format, user_pointers}
use bbblack.Base.{none}

answer : (r : Request) → Out r
answer querycap = 0x8500_0001
answer cropcap = record { left = pos 0; top = pos 0; width = 640; height = 480 }
answer (s_fmt f) = 614400
answer g_fmt = 921600
answer (reqbufs m n) = 2
answer (querybuf b) = record b { length = 4096; offset = b.index * 4096 }
answer (dqbuf b) = record b { bytesused = 128 }
answer (Request.s_crop r) = tt
answer (qbuf b) = tt
answer streamon = tt
answer Request.streamoff = tt

-- The state is the number of signals that are still to come.
flaky : (r : Request) → ℕ → Reply (Out r) × ℕ
flaky r (suc w) = (failed 4, w)
flaky r zero = (done 0 (answer r), zero)

abbrev K : Kernel ℕ
K = record {
  ioctl = λ fd r w. flaky r w;
  read = λ fd addr n w. (done 128 tt, w);
  select = λ fd w. (done 1 tt, w);
  map_memory = λ len offset w. (some (65536 + offset), w);
  unmap_memory = λ addr len w. (true, w);
  allocate = λ size w. (some size, w);
  stat_is_chr = λ name w. (some true, w);
  open_file = λ name w. (some 3, w);
  close = λ fd w. (true, w);
}

abbrev patience : ℕ → ℕ
patience w = w

flaky-le : (r : Request) (w : ℕ) → (flaky r w).1 ≤ w
unfolding flaky
flaky-le r (suc w) = omega arith
flaky-le r zero = omega arith

flaky-lt : (r : Request) (w : ℕ) → is_interrupted (flaky r w).0 ≡ true → (flaky r w).1 < w
unfolding flaky
flaky-lt r (suc w) h = omega arith
flaky-lt r zero h = cc

flaky_failed : (r : Request) (w e : ℕ) → (flaky r w).0 ≡ failed e → e ≡ eintr
unfolding flaky
flaky_failed r (suc w) e h = cc
flaky_failed r zero e h = cc

flaky_count : (w ret n : ℕ) → (flaky (reqbufs mapped 4) w).0 ≡ done ret n → 2 ≤ n
unfolding flaky answer
flaky_count (suc w) ret n h = cc
flaky_count zero ret n h = ground arith

K-Interrupts : Interrupts K patience
K-Interrupts = record { request = λ fd r w. flaky-le r w; interrupted = λ fd r w h. flaky-lt r w h }

K-Provides : Provides K patience
K-Provides = record {
  request = λ fd r w e needed h. flaky_failed r w e h;
  enough = λ fd w ret n h. flaky_count w ret n h;
  allocate = λ size w. (size, w, refl, omega arith);
  map_memory = λ len offset w. (65536 + offset, w, refl, omega arith);
  unmap_memory = λ addr len w. (w, refl, omega arith);
}

flaky_dequeue :
    (w : ℕ)
    → Serves patience
        (λ e. (e ≡ eintr) ⊎ (e ≡ 11))
        (λ r (buf : V4l2Buffer). buf.index < 1)
        w
        (flaky (dqbuf (clear mapped)) w)
unfolding flaky answer
flaky_dequeue (suc w) = (inl refl, omega arith)
flaky_dequeue zero = (omega arith, omega arith)

flaky_requeue :
    (buf : V4l2Buffer) (w : ℕ)
    → Serves patience (λ e. (e ≡ eintr) ⊎ ⊥) (λ _ _. Unit {0}) w (flaky (qbuf buf) w)
unfolding flaky answer
flaky_requeue buf (suc w) = (inl refl, omega arith)
flaky_requeue buf zero = (tt, omega arith)

K-Delivers : Delivers patience K 1
K-Delivers = record {
  select = λ fd w. (omega arith, omega arith);
  dequeue = λ fd w. flaky_dequeue w;
  requeue = λ fd buf w. flaky_requeue buf w;
}

abbrev at_start : Env ℕ
at_start = initial 3

-- One buffer of 4096 bytes, two frames to grab, and three signals to come
abbrev set_up : Env ℕ
set_up = record (initial 3) {
  fd = pos 3;
  buffers = record { start = 65536; length = 4096 } ∷ [];
  n_buffers = 1;
  frame_count = pos 2;
}

xioctl_lem_example : On (Answered K patience streamon set_up) (λ _. ⊥) (xioctl K 5 streamon set_up)
xioctl_lem_example = xioctl_lem K patience 5 streamon set_up K-Interrupts (omega arith)

mainloop_frames_example :
    On
      (λ _ t. images t.calls ≡ images set_up.calls + to_u32 (pos 2))
      (λ t. images t.calls ≤ images set_up.calls + to_u32 (pos 2))
      (mainloop K 5 set_up)
mainloop_frames_example = mainloop_frames K 5 set_up

mainloop_serves_example :
    On (λ _ t. images t.calls ≡ images set_up.calls + to_u32 (pos 2)) (λ _. ⊥) (mainloop K 5 set_up)
mainloop_serves_example =
    mainloop_serves patience K 1 K-Delivers 5 set_up (refl, refl, refl) (omega arith)

uninit_device-init_by_example :
    On
      (λ _ t.
        (a : ℕ) × (bs : List Buffer) × (memory t.calls
          ≡ memory at_start.calls
            ++ (Call.malloc a
                ∷ (map (obtain mmap) bs ++ (map (give_back mmap) bs ++ (Call.free a ∷ []))))))
      (λ _. ⊥)
      ((init_by K 5 mmap 614400 >> uninit_device K 5) at_start)
uninit_device-init_by_example =
    uninit_device-init_by K patience K-Interrupts K-Provides 5 mmap 614400 at_start refl
      (omega arith)

abbrev strtol : List ℕ → ℤ × ℕ
strtol text = (pos 10, 0)

captures-main_example :
    On
      (λ _ t. captures t.calls ≡ 0)
      (λ t. captures t.calls ≡ 0)
      (main strtol K 5 (output ∷ count (codes "10") ∷ []) (initial 3))
captures-main_example = captures-main K 5 strtol (output ∷ count (codes "10") ∷ []) 3

-- The same kernel over the fake driver, which refuses every format
fake_ioctl : (r : Request) → ℕ → Reply (Out r) × ℕ
fake_ioctl (s_fmt f) w = (failed 1, w)
fake_ioctl r w = flaky r w

abbrev K_fake : Kernel ℕ
K_fake = record K { ioctl = λ fd r w. fake_ioctl r w }

fake_device : FakeVidDevice
fake_device = init_device (λ _. record { payload = 0; timestamp = 0; fmt = none }) (λ _. 0)

K_fake-s_fmt_vid_cap :
    (fd : ℤ) (f : PixFormat) (w : ℕ)
    → IsReply (s_fmt_vid_cap fake_device).0 (K_fake.ioctl fd (s_fmt f) w).0
unfolding s_fmt_vid_cap fake_ioctl
K_fake-s_fmt_vid_cap fd f w = refl

main-s_fmt_vid_cap_example :
    On (λ _ _. ⊥) (λ _. Unit {0}) (main strtol K_fake 5 (format ∷ user_pointers ∷ []) (initial 3))
main-s_fmt_vid_cap_example =
    main-s_fmt_vid_cap strtol K_fake 5 0 (format ∷ user_pointers ∷ []) 3 fake_device
      K_fake-s_fmt_vid_cap refl

flaky_caps :
    (w ret caps : ℕ)
    → (flaky querycap w).0 ≡ done ret caps
    → caps ≡ word_of (fake_querycap (codes "fake")).1.capabilities
unfolding flaky answer fake_querycap
flaky_caps (suc w) ret caps h = cc
flaky_caps zero ret caps h = cc

flaky_format :
    (w ret size : ℕ)
    → (flaky g_fmt w).0 ≡ done ret size
    → size ≡ (g_fmt_vid_cap fake_device).1.sizeimage
unfolding flaky answer g_fmt_vid_cap fake_device init_device
flaky_format (suc w) ret size h = cc
flaky_format zero ret size h = cc

K-OnFakeDriver : OnFakeDriver K patience (codes "fake") fake_device
K-OnFakeDriver = record {
  stat_is_chr = λ path w. (w, refl, omega arith);
  open_file = λ path w. (3, w, refl, omega arith);
  format = λ fd w ret size h. flaky_format w ret size h;
  capabilities = λ fd w ret caps h. flaky_caps w ret caps h;
}

main_sets_up_example :
    On
      (λ ret t.
        ((ret ≡ 0)
          × SetUp K patience K-Interrupts K-Provides (codes "fake") fake_device K-OnFakeDriver 5 t)
        × Fits fake_device userptr t)
      (λ _. ⊥)
      (main strtol K 5 (user_pointers ∷ count (codes "10") ∷ []) (initial 3))
unfolding fake_device init_device
main_sets_up_example =
    main_sets_up K patience K-Interrupts K-Provides (codes "fake") fake_device K-OnFakeDriver 5
      strtol (user_pointers ∷ count (codes "10") ∷ []) 3 (tt, (refl, tt)) (omega arith) refl
      (omega arith) (omega arith)
