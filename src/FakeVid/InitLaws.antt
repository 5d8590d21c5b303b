-- ===== src/FakeVid/InitLaws.antt =====
-- lkml/v4l2/vid4linux.c: what loading and unloading the module hands over and takes back.
use bbblack.Base.{
  ℕ, ◌≡◌, refl, ◌≢◌, Bool, true, false, some, List, [], ◌∷◌, ◌++◌, arith, append_assoc, All,
  Bool-cases, Option-cases, inl, inr,
}
use bbblack.Base.Int.{pos, is_neg}
use bbblack.FakeVid.Init.{
  member, allocated, Call, kzalloc, kfree, v4l2_device_register, v4l2_device_unregister,
  video_device_alloc, video_register_device, video_unregister_device, Answers, Module, ret,
  v4l2_init, v4l2_exit,
}

snoc3 :
    (l : List Call) (a b c : Call)
    → ((l ++ (a ∷ [])) ++ (b ∷ [])) ++ (c ∷ []) ≡ l ++ (a ∷ b ∷ c ∷ [])
snoc3 l a b c = simp append_assoc

snoc7 :
    (l : List Call) (a b c d e f g : Call)
    → ((((((l ++ (a ∷ [])) ++ (b ∷ [])) ++ (c ∷ [])) ++ (d ∷ [])) ++ (e ∷ [])) ++ (f ∷ []))
        ++ (g ∷ [])
      ≡ l ++ (a ∷ b ∷ c ∷ d ∷ e ∷ f ∷ g ∷ [])
snoc7 l a b c d e f g = simp append_assoc

-- Loading and unloading, when every call succeeds, is this trace. The video device that is
-- unregistered is the member `vdev` of the device, not the allocated one that was registered.
pub exit-init :
    (a : Answers) (m : Module) (d v : ℕ)
    → a.kzalloc_ret ≡ some d
    → is_neg a.v4l2_device_register_ret ≡ false
    → a.video_device_alloc_ret ≡ some v
    → is_neg a.video_register_device_ret ≡ false
    → m.fake_vid_list ≡ []
    → let (o, n) = v4l2_init a m in
      (o ≡ ret (pos 0))
      × ((v4l2_exit n).calls
          ≡ m.calls
            ++ (kzalloc d
                ∷ v4l2_device_register d
                ∷ video_device_alloc v
                ∷ video_register_device (allocated v)
                ∷ video_unregister_device (member d)
                ∷ v4l2_device_unregister d
                ∷ kfree d
                ∷ []))
unfolding v4l2_init v4l2_exit
exit-init a m d v k r l s e = ground (
  arith,
  snoc7 m.calls (kzalloc d) (v4l2_device_register d) (video_device_alloc v)
      (video_register_device (allocated v)) (video_unregister_device (member d))
      (v4l2_device_unregister d) (kfree d),
)

-- The calls that give something back.
abbrev pub is_release : Call → Bool
is_release (kfree d) = true
is_release (v4l2_device_unregister d) = true
is_release (video_unregister_device p) = true
is_release _ = false

-- A load that fails once the device is allocated leaks it: nothing is given back, and the device is
-- not on the list that `v4l2_exit` goes through.
pub init_failure_leaks :
    (a : Answers) (m : Module) (d : ℕ)
    → a.kzalloc_ret ≡ some d
    → (v4l2_init a m).0 ≢ ret (pos 0)
    → let n = (v4l2_init a m).1 in
      (n.fake_vid_list ≡ m.fake_vid_list)
      × ((cs : List Call) × (n.calls ≡ m.calls ++ (kzalloc d ∷ cs))
          × All (λ c. is_release c ≡ false) cs)
unfolding v4l2_init
init_failure_leaks a m d k f = elim (Bool-cases (is_neg a.v4l2_device_register_ret)) [
  | inl n ↦ (ground arith, ([], ground arith, tt))
  | inr p ↦ elim (Option-cases a.video_device_alloc_ret) [
    | inl l ↦ (
      ground arith,
      (
        v4l2_device_register d ∷ [],
        ground (arith, append_assoc m.calls (kzalloc d ∷ []) (v4l2_device_register d ∷ [])),
        (refl, tt),
      ),
    )
    | inr (v, l) ↦ elim (Bool-cases (is_neg a.video_register_device_ret)) [
      | inl q ↦ (
        ground arith,
        (
          v4l2_device_register d ∷ video_device_alloc v ∷ [],
          ground (arith, snoc3 m.calls (kzalloc d) (v4l2_device_register d) (video_device_alloc v)),
          (refl, (refl, tt)),
        ),
      )
      | inr q ↦ absurd (f (ground arith))
    ]
  ]
]
