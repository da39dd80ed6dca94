-- ===== src/Fetcher/Control.antt =====
-- srv/feeds/fetcher.go: `Start` and `Stop`, and the loops that `Start` sets going, as a step
-- relation. A step of a loop is what it does between two choices of the scheduler; the mutex makes
-- `Start` and `Stop` one step each.
use mathlib.Core.Path.{subst}
use mathlib.Core.List.{append-nil, append_assoc}
use feedreader.Prelude.{
  ℕ, zero, suc, ◌≡◌, refl, sym, ap, ◌∙◌, Bool, true, false, not, List, [], ◌∷◌, ◌++◌, nat_eq, ltb,
  leb, ◌&&◌, ◌||◌, all, arith,
}

-- A loop is inside `FetchAll`, or in its `select` on the channel that `f.stopCh` was on entering it.
pub data Loop : Type 0 where
  fetching : Loop
  selecting : ℕ → Loop

-- The channels are numbered as they are made; 0 is nil.
pub record Control : Type 0 where
  pub running : Bool
  pub stop_ch : ℕ
  pub loops : List Loop

abbrev pub new_control : Control
new_control = record { running = false; stop_ch = 0; loops = [] }

-- `Start` makes a channel only after `Stop` closed the one before.
abbrev pub is_closed : Control → ℕ → Bool
is_closed s k = ltb 0 k && (ltb k s.stop_ch || (nat_eq k s.stop_ch && not s.running))

pub data Step (s : Control) : Control → Type 0 where
  start_running : s.running ≡ true → Step s s
  start_stopped :
      s.running ≡ false
      → Step s
          (record { running = true; stop_ch = suc s.stop_ch; loops = s.loops ++ fetching ∷ [] })
  stop_running : s.running ≡ true → Step s (record s { running = false })
  stop_stopped : s.running ≡ false → Step s s
  enter :
      (xs ys : List Loop)
      → s.loops ≡ xs ++ fetching ∷ ys
      → Step s (record s { loops = xs ++ selecting s.stop_ch ∷ ys })
  tick :
      (k : ℕ) (xs ys : List Loop)
      → s.loops ≡ xs ++ selecting k ∷ ys
      → Step s (record s { loops = xs ++ fetching ∷ ys })
  leave :
      (k : ℕ) (xs ys : List Loop)
      → s.loops ≡ xs ++ selecting k ∷ ys
      → is_closed s k ≡ true
      → Step s (record s { loops = xs ++ ys })

pub data Reach (s : Control) : Control → Type 0 where
  here : Reach s s
  next : {t u : Control} → Reach s t → Step t u → Reach s u

-- there is a channel, and a loop waits on one that was made
abbrev made : ℕ → Loop → Bool
made n fetching = ltb 0 n
made n (selecting k) = ltb 0 k && leb k n

all-append {ℓ} :
    {A : Type ℓ} (p : A → Bool) (xs ys : List A) → all p (xs ++ ys) ≡ (all p xs && all p ys)
all-append p [] ys = refl
all-append p (x ∷ xs) ys = ground (arith, all-append p xs ys)

all-made-suc :
    (n : ℕ) (loops : List Loop) → all (made n) loops ≡ true → all (made (suc n)) loops ≡ true
all-made-suc n [] h = refl
all-made-suc n (fetching ∷ loops) h = ground (arith, all-made-suc n loops)
all-made-suc n (selecting k ∷ loops) h = ground (arith, all-made-suc n loops)

abbrev IsSound : Control → Type 0
IsSound s = all (made s.stop_ch) s.loops ≡ true

all-middle :
    (p : Loop → Bool) (l : Loop) (xs ys : List Loop)
    → all p (xs ++ l ∷ ys) ≡ true
    → (all p xs ≡ true) × (p l ≡ true) × (all p ys ≡ true)
all-middle p l xs ys h = let k = sym (all-append p xs (l ∷ ys)) ∙ h in ground arith

all_replaced :
    (p : Loop → Bool) (l : Loop) (xs ys : List Loop)
    → all p xs ≡ true
    → p l ≡ true
    → all p ys ≡ true
    → all p (xs ++ l ∷ ys) ≡ true
all_replaced p l xs ys h k m = all-append p xs (l ∷ ys) ∙ ground arith

-- a loop that moves on is replaced by one that is as sound
moved :
    (n : ℕ) (old new : Loop) (loops xs ys : List Loop)
    → all (made n) loops ≡ true
    → loops ≡ xs ++ old ∷ ys
    → (made n old ≡ true → made n new ≡ true)
    → all (made n) (xs ++ new ∷ ys) ≡ true
moved n old new loops xs ys h e step =
    let (front, here_ok, back) = all-middle (made n) old xs ys (ap (all (made n)) (sym e) ∙ h) in
    all_replaced (made n) new xs ys front (step here_ok) back

Step-IsSound : {s t : Control} → Step s t → IsSound s → IsSound t
Step-IsSound (start_running r) h = h
Step-IsSound {s} (start_stopped r) h =
    all-append (made (suc s.stop_ch)) s.loops (fetching ∷ [])
    ∙ ground (arith, all-made-suc s.stop_ch s.loops h)
Step-IsSound (stop_running r) h = h
Step-IsSound (stop_stopped r) h = h
Step-IsSound {s} (enter xs ys e) h =
    moved s.stop_ch fetching (selecting s.stop_ch) s.loops xs ys h e (λ k. ground arith)
Step-IsSound {s} (tick k xs ys e) h =
    moved s.stop_ch (selecting k) fetching s.loops xs ys h e (λ m. ground arith)
Step-IsSound {s} (leave k xs ys e closed) h =
    let (front, old, back) =
      all-middle (made s.stop_ch) (selecting k) xs ys (ap (all (made s.stop_ch)) (sym e) ∙ h) in
    all-append (made s.stop_ch) xs ys ∙ ground arith

Reach-IsSound : {s t : Control} → Reach s t → IsSound s → IsSound t
Reach-IsSound here h = h
Reach-IsSound (next r step) h = Step-IsSound step (Reach-IsSound r h)

Reach-trans : {s t u : Control} → Reach s t → Reach t u → Reach s u
Reach-trans r here = r
Reach-trans r (next q step) = next (Reach-trans r q) step

-- stopped, with these loops
abbrev stopped : ℕ → List Loop → Control
stopped n loops = record { running = false; stop_ch = n; loops = loops }

all_leave :
    (n : ℕ) (loops : List Loop) → IsSound (stopped n loops) → Reach (stopped n loops) (stopped n [])
all_leave n [] h = here
all_leave n (fetching ∷ loops) h =
    Reach-trans (next (next here (enter [] loops refl)) (leave n [] loops refl (ground arith)))
      (all_leave n loops (ground arith))
all_leave n (selecting k ∷ loops) h =
    Reach-trans (next here (leave k [] loops refl (ground arith)))
      (all_leave n loops (ground arith))

-- In a state that `Start`, `Stop` and the loops can bring about, and in which the fetcher is
-- stopped, every loop can come to its end without another `Start`: the state with the same channel
-- and no loops can be reached.
pub stopped_loops_end :
    {s : Control} → Reach new_control s → s.running ≡ false → Reach s (record s { loops = [] })
stopped_loops_end {s} r h =
    subst (λ b. Reach (record s { running = b }) (record s { running = b; loops = [] })) (sym h)
      (all_leave s.stop_ch s.loops (Reach-IsSound r refl))

-- the loops of a fetcher that was restarted a number of times during its first fetch
abbrev fetchings : ℕ → List Loop
fetchings zero = fetching ∷ []
fetchings (suc n) = fetchings n ++ fetching ∷ []

-- so many loops in their `select` on one channel
abbrev pub selectings : ℕ → ℕ → List Loop
selectings zero k = []
selectings (suc n) k = selecting k ∷ selectings n k

-- running, with these loops
abbrev pub running : ℕ → List Loop → Control
running n loops = record { running = true; stop_ch = n; loops = loops }

restarts_fetching : (n : ℕ) → Reach new_control (running (suc n) (fetchings n))
restarts_fetching zero = next here (start_stopped refl)
restarts_fetching (suc n) =
    next (next (restarts_fetching n) (stop_running refl)) (start_stopped refl)

append_selecting :
    (n k : ℕ) (ys : List Loop)
    → selectings n k ++ selecting k ∷ ys ≡ selecting k ∷ (selectings n k ++ ys)
append_selecting zero k ys = refl
append_selecting (suc n) k ys = ap (λ rest. selecting k ∷ rest) (append_selecting n k ys)

-- the loops that are fetching come to their `select` one by one, the last of the list first
all_enter :
    (n k : ℕ) (ys : List Loop)
    → Reach (running k (fetchings n ++ ys)) (running k (selectings (suc n) k ++ ys))
all_enter zero k ys = next here (enter [] ys refl)
all_enter (suc n) k ys =
    let first =
      next here (enter (fetchings n) ys (append_assoc (fetchings n) (fetching ∷ []) ys)) in
    Reach-trans first (
      subst (λ loops. Reach (running k (fetchings n ++ selecting k ∷ ys)) (running k loops))
        (append_selecting (suc n) k ys) (all_enter n k (selecting k ∷ ys)))

-- A restart does not end the loop before it: for any number of restarts a state can be reached in
-- which the fetcher is running and that many loops more than one wait in their `select`, each on
-- the channel of the last start, which is not closed.
pub restarts_add_loops :
    (n : ℕ)
    → Reach new_control (running (suc n) (selectings (suc n) (suc n)))
      × (is_closed (running (suc n) (selectings (suc n) (suc n))) (suc n) ≡ false)
restarts_add_loops n = (
  subst (λ loops. Reach new_control (running (suc n) loops))
      (append-nil (selectings (suc n) (suc n)))
      (Reach-trans
        (subst (λ loops. Reach new_control (running (suc n) loops)) (sym (append-nil (fetchings n)))
          (restarts_fetching n))
        (all_enter n (suc n) [])),
  ground arith,
)
