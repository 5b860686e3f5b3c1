-- ===== src/Queue/Refine.antt =====
-- A valid ring behaves as the bounded first-in first-out list of its contents.
use esp_glow.Prelude.{
  ℕ, suc, ◌+◌, ◌-◌, ◌%◌, ◌^◌, ◌<◌, ◌≡◌, ◌≢◌, refl, sym, ap, ap₂, ◌∙◌, inl, inr, arith, List, [],
  ◌∷◌, ◌++◌, leb, ltb, ◌==◌, Bool-cases, if◌then◌else◌, length, get_or, set, get_or-set_self,
  get_or-set_ne, length-set, tabulate, tabulate-ext, tabulate-suc, length-tabulate,
  length-replicate,
}
use esp_glow.Queue.{Ring, add_size, init, push, pop, Op, put, get, popped, step, run}
use esp_glow.Queue.Bounded
use esp_glow.Queue.Bounded.{Bounded}
use esp_glow.Queue.Inv.{
  IsValid, mod_once, head_step, init-IsValid, step-IsValid, length-push, length-pop,
}

-- Fewer than `c` places on, the ring is not back where it was.
slots_apart : (h i n c : ℕ) → h < c → i < n → n < c → (h + n) % c ≢ (h + i) % c
slots_apart h i n c hh hi hn e =
    grind (arith, mod_once (h + i) c (omega arith), mod_once (h + n) c (omega arith))

module _ {ℓ} {A : Type ℓ} (blank : A) where
  -- the element `i` places behind the head
  abbrev pub slot : List A → ℕ → ℕ → A
  slot buffer head i = get_or buffer ((head + i) % length buffer) blank

  -- oldest first
  abbrev pub contents : Ring A → List A
  contents q = tabulate q.count (slot q.buffer q.head)

  -- A write at the tail appends.
  window_set :
      (buffer : List A) (h n : ℕ) (a : A)
      → h < length buffer
      → n < length buffer
      → tabulate (suc n) (slot (set buffer ((h + n) % length buffer) a) h)
        ≡ tabulate n (slot buffer h) ++ (a ∷ [])
  window_set buffer h n a hh hn =
      let at = (h + n) % length buffer in
      let same = length-set buffer at a in
      let old : (i : ℕ) → i < n → slot (set buffer at a) h i ≡ slot buffer h i =
        λ i hi. rw same (get_or-set_ne buffer at _ a blank (slots_apart h i n _ hh hi hn)) in
      let new : slot (set buffer at a) h n ≡ a =
        rw same (get_or-set_self buffer at a blank (omega arith)) in
      tabulate-suc n (slot (set buffer at a) h)
      ∙ ap₂ (λ xs x. xs ++ (x ∷ [])) (tabulate-ext n _ _ old) new

  -- Leaving the head out shortens the window from the front.
  window_next :
      (buffer : List A) (h n : ℕ)
      → h < length buffer
      → n < length buffer
      → length buffer < 2 ^ 32
      → tabulate (suc n) (slot buffer h)
        ≡ get_or buffer h blank ∷ tabulate n (slot buffer (add_size h 1 % length buffer))
  window_next buffer h n hh hn small =
      ap₂ (λ i xs. get_or buffer i blank ∷ xs)
        (omega (arith, mod_once (h + 0) (length buffer) (omega arith)))
        (tabulate-ext n _ _
          λ i hi. sym (ap (λ k. get_or buffer k blank) (head_step h i _ hh (omega arith) small)))

  -- What relates a ring to its abstract state. The ring's drop counter wraps.
  pub record Represents (q : Ring A) (b : Bounded A) : Type ℓ where
    pub items_are : b.items ≡ contents q
    pub refused_are : q.dropped ≡ b.refused % 2 ^ 32

  extended :
      {q : Ring A} (a : A)
      → IsValid q
      → q.count < length q.buffer
      → contents q ++ (a ∷ []) ≡ tabulate (add_size q.count 1) (slot (set q.buffer q.tail a) q.head)
  extended {q} a v room =
      let e : add_size q.count 1 ≡ suc q.count = omega (arith, v.small) in
      rw (e, v.tail_is) (sym (window_set q.buffer q.head q.count a v.head_in room))

  put_refines :
      (a : A) {q : Ring A} {b : Bounded A}
      → IsValid q
      → Represents q b
      → (step blank (put a) q).0 ≡ (Bounded.step (length q.buffer) (put a) b).0
        × Represents (step blank (put a) q).1 (Bounded.step (length q.buffer) (put a) b).1
  unfolding step push Bounded.step
  put_refines a {q} {b} v r = elim (Bool-cases (leb (length q.buffer) q.count)) [
    | inl full ↦
        rw (r.items_are, length-tabulate q.count (slot q.buffer q.head), full)
          (refl, record { items_are = refl; refused_are = omega (arith, r.refused_are) })
    | inr room ↦
        rw (r.items_are, length-tabulate q.count (slot q.buffer q.head), room)
          (
            refl,
            record {
              items_are = extended {q = q} a v (ground (arith, room));
              refused_are = r.refused_are;
            },
          )
  ]

  -- A pop gives the oldest element, if there is one, and leaves the others in order.
  pub pop_lem :
      {q : Ring A}
      → IsValid q
      → ((pop blank q).0 ≡ Bounded.first (contents q))
        × (contents (pop blank q).1 ≡ Bounded.behind (contents q))
        × ((pop blank q).1.dropped ≡ q.dropped)
  unfolding pop
  pop_lem {q} v = elim (Bool-cases (q.count == 0)) [
    | inl empty ↦
        let none_left : contents q ≡ [] =
          ap (λ n. tabulate n (slot q.buffer q.head)) {y = 0} (ground (arith, empty)) in
        rw (empty, none_left) (refl, refl, refl)
    | inr left ↦
        let pred : q.count ≡ suc (q.count - 1) = ground (arith, left) in
        let split =
          ap (λ n. tabulate n (slot q.buffer q.head)) pred
          ∙ window_next q.buffer q.head (q.count - 1) v.head_in (omega arith) v.small in
        rw (left, split) (refl, refl, refl)
  ]

  get_refines :
      {q : Ring A} {b : Bounded A}
      → IsValid q
      → Represents q b
      → (step blank get q).0 ≡ (Bounded.step (length q.buffer) get b).0
        × Represents (step blank get q).1 (Bounded.step (length q.buffer) get b).1
  unfolding step Bounded.step
  get_refines {q} {b} v r =
      let (out, left, same) = pop_lem v in
      rw r.items_are
        (ap popped out, record { items_are = sym left; refused_are = same ∙ r.refused_are })

  pub step_refines :
      (op : Op A) {q : Ring A} {b : Bounded A}
      → IsValid q
      → Represents q b
      → (step blank op q).0 ≡ (Bounded.step (length q.buffer) op b).0
        × Represents (step blank op q).1 (Bounded.step (length q.buffer) op b).1
  step_refines (put a) v r = put_refines a v r
  step_refines get v r = get_refines v r

  length-step : (op : Op A) (q : Ring A) → length (step blank op q).1.buffer ≡ length q.buffer
  unfolding step
  length-step (put a) q = length-push q a
  length-step get q = length-pop blank q

  -- Whatever the tasks do, in whatever order, a queue of capacity `cap` that starts out valid gives
  -- each call the answer of the bounded first-in first-out list, refuses the newest element when it
  -- is full, counts what it refused modulo 2^32, and stays valid.
  pub run_refines :
      (ops : List (Op A)) {q : Ring A} {b : Bounded A} (cap : ℕ)
      → length q.buffer ≡ cap
      → IsValid q
      → Represents q b
      → ((run blank ops q).0 ≡ (Bounded.run cap ops b).0)
        × Represents (run blank ops q).1 (Bounded.run cap ops b).1
        × IsValid (run blank ops q).1
  unfolding run Bounded.run
  run_refines [] cap size v r = (refl, r, v)
  run_refines (op ∷ ops) {q} {b} cap size v r =
      let (same, r') = rw size at (step_refines op v r) in
      let (rest, r'', v'') =
        run_refines ops cap (length-step op q ∙ size) (step-IsValid blank op v) r' in
      (ap₂ (◌∷◌) same rest, r'', v'')

  -- The queue of a fresh constructor stands for the empty list, at capacity 1 where 0 was asked for.
  init-Represents :
      (capacity : ℕ) → Represents (init blank capacity) (record { items = []; refused = 0 })
  unfolding init
  init-Represents capacity = record { items_are = refl; refused_are = omega arith }

  -- Any sequence of calls on a newly constructed queue, whichever tasks make them, is answered as the
  -- bounded first-in first-out list answers it from empty. The bound is the capacity asked for, or 1
  -- where that is 0; capacities from 2^32 on, which the device's size_t cannot hold, are left out.
  pub run-init :
      (ops : List (Op A)) (capacity : ℕ)
      → capacity < 2 ^ 32
      → (run blank ops (init blank capacity)).0
        ≡ (Bounded.run
            (if ltb 0 capacity then capacity else 1)
            ops
            (record { items = []; refused = 0 })).0
  unfolding init
  run-init ops capacity h =
      let n = (if ltb 0 capacity then capacity else 1) in
      let v = init-IsValid blank capacity h in
      (run_refines ops n (length-replicate n blank) v (init-Represents capacity)).0
