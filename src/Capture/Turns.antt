-- ===== src/Capture/Turns.antt =====
-- lkml/v4l2-app/grabber.c: the frames that a run processes, and buffers that come in turn.
use bbblack.Base.{
  ℕ, zero, suc, ◌+◌, ◌%◌, ◌<◌, ◌≡◌, refl, ap, some, List, [], ◌∷◌, ◌++◌, arith, get_elem?, get_or,
  map, map-append, ◌∙◌,
}
use bbblack.Grabber.Types.{Buffer, Call}

-- The numbers of n buffers in turn, from the k-th on, m of them
abbrev pub rotation : ℕ → ℕ → ℕ → List ℕ
rotation n k zero = []
rotation n k (suc m) = (k % n) ∷ rotation n (suc k) m

rotation-suc : (n k m : ℕ) → rotation n k (suc m) ≡ rotation n k m ++ ((k + m) % n ∷ [])
rotation-suc n k zero = let same : k + 0 ≡ k = omega arith in rw same refl
rotation-suc n k (suc m) =
    let same : k + suc m ≡ suc k + m = omega arith in
    rw same (ap (λ l. k % n ∷ l) (rotation-suc n (suc k) m))

get_elem?-rotation : (n k m i : ℕ) → i < m → get_elem? (rotation n k m) i ≡ some ((k + i) % n)
get_elem?-rotation n k zero i h = absurd (omega arith)
get_elem?-rotation n k (suc m) zero h = let same : k + 0 ≡ k = omega arith in rw same refl
get_elem?-rotation n k (suc m) (suc i) h =
    let same : k + suc i ≡ suc k + i = omega arith in
    rw same (get_elem?-rotation n (suc k) m i (omega arith))

pub rotation_start : (n m : ℕ) → rotation n 0 (suc m) ≡ rotation n 0 m ++ (m % n ∷ [])
rotation_start n m =
    let none_before : 0 + m ≡ m = omega arith in rw none_before at (rotation-suc n 0 m)

pub get_elem?_start : (n m i : ℕ) → i < m → get_elem? (rotation n 0 m) i ≡ some (i % n)
get_elem?_start n m i h =
    let none_before : 0 + i ≡ i = omega arith in rw none_before at (get_elem?-rotation n 0 m i h)

pub get_elem?-append :
    {A : Type 0} (xs ys : List A) (i : ℕ) (a : A)
    → get_elem? xs i ≡ some a
    → get_elem? (xs ++ ys) i ≡ some a
get_elem?-append [] ys i a h = cc
get_elem?-append (x ∷ xs) ys zero a h = h
get_elem?-append (x ∷ xs) ys (suc i) a h = get_elem?-append xs ys i a h

-- The addresses of the frames that were processed, in order
abbrev pub shown : List Call → List ℕ
shown [] = []
shown (Call.process_image a n ∷ cs) = a ∷ shown cs
shown (_ ∷ cs) = shown cs

pub shown-append : (cs ds : List Call) → shown (cs ++ ds) ≡ shown cs ++ shown ds
shown-append [] ds = refl
shown-append (Call.process_image a n ∷ cs) ds = ap (λ l. a ∷ l) (shown-append cs ds)
shown-append (Call.ioctl r ∷ cs) ds = shown-append cs ds
shown-append (Call.read ∷ cs) ds = shown-append cs ds
shown-append (Call.select ∷ cs) ds = shown-append cs ds
shown-append (Call.mmap b ∷ cs) ds = shown-append cs ds
shown-append (Call.munmap b ∷ cs) ds = shown-append cs ds
shown-append (Call.malloc b ∷ cs) ds = shown-append cs ds
shown-append (Call.free b ∷ cs) ds = shown-append cs ds
shown-append (Call.open_file b ∷ cs) ds = shown-append cs ds
shown-append (Call.close b ∷ cs) ds = shown-append cs ds

-- The address at which buffer number i is mapped
abbrev pub address : List Buffer → ℕ → ℕ
address bufs i = (get_or bufs i (record { start = 0; length = 0 })).start

pub address_there :
    (bufs : List Buffer) (i : ℕ) (b : Buffer) → get_elem? bufs i ≡ some b → b.start ≡ address bufs i
address_there [] i b h = cc
address_there (x ∷ bufs) zero b h = cc
address_there (x ∷ bufs) (suc i) b h = address_there bufs i b h

-- The addresses of m frames, from n buffers in turn
abbrev pub frames : ℕ → List Buffer → ℕ → List ℕ
frames n bufs m = map (address bufs) (rotation n 0 m)

pub frames-suc :
    (n : ℕ) (bufs : List Buffer) (m : ℕ)
    → frames n bufs (suc m) ≡ frames n bufs m ++ (address bufs (m % n) ∷ [])
frames-suc n bufs m = ap (map (address bufs)) (rotation_start n m) ∙ map-append _ _ _
