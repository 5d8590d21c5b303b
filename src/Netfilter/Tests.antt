-- ===== src/Netfilter/Tests.antt =====
-- lkml/netfilter/netfilter.c: the theorems at concrete data.
use bbblack.Base.{
  ℕ, ◌-◌, ◌≡◌, refl, Option, none, some, List, [], ◌∷◌, if◌then◌else◌, leb, ◌&&◌, codes,
}
use bbblack.Netfilter.Hooks.{accept, drop, State, rx_hook_func, tx_hook_func}
use bbblack.Netfilter.Switch.{store, rx, tx, run, verdict_of_last_command}

-- A number of one digit, or nothing.
abbrev sscanf : List ℕ → Option ℕ
sscanf [] = none
sscanf (c ∷ _) = if leb b'0' c && leb c b'9' then some (c - b'0') else none

abbrev loaded : State
loaded = record { ret = accept; dkobj = 5; calls = [] }

verdict_of_last_command_example :
    let t =
      run sscanf
        (store (codes "on") 2 ∷ rx ∷ store (codes "1") 1 ∷ tx ∷ store (codes "7") 1 ∷ [])
        loaded in
    (rx_hook_func t ≡ drop) × (tx_hook_func t ≡ drop)
verdict_of_last_command_example =
    verdict_of_last_command sscanf (store (codes "on") 2 ∷ rx ∷ []) (tx ∷ store (codes "7") 1 ∷ [])
      (codes "1") 1 drop loaded refl (tt, (refl, tt))
