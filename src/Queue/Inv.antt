-- ===== src/Queue/Inv.antt =====
-- The representation invariant of the ring: indices in range, and no addition that wraps.
use native.Mathlib.Nat.{mod-eq_of_lt, mod-eq-sub-mod}
use native.Mathlib.Decide.{dec_lt}
use esp_glow.Prelude.{
  ℕ, ◌+◌, ◌-◌, ◌%◌, ◌^◌, ◌≤◌, ◌<◌, ◌≡◌, ◌⊎◌, inl, inr, arith, length, length-set, length-replicate,
  ltb, leb, Bool-cases, ◌==◌, suc, if◌then◌else◌,
}
use esp_glow.Queue.{Ring, add_size, init, push, pop, Op, put, get, step}

pub record IsValid {ℓ} {A : Type ℓ} (q : Ring A) : Type 0 where
  pub nonempty : 0 < length q.buffer
  pub small : length q.buffer < 2 ^ 32
  pub head_in : q.head < length q.buffer
  pub count_in : q.count ≤ length q.buffer
  pub tail_is : q.tail ≡ (q.head + q.count) % length q.buffer

-- Less than twice round, `%` subtracts once or not at all.
pub mod_once : (x c : ℕ) → x < c + c → ((x < c) × (x % c ≡ x)) ⊎ ((c ≤ x) × (x % c ≡ x - c))
mod_once x c h = elim (dec_lt x c) [
  | yes p ↦ inl (p, mod-eq_of_lt p)
  | no p ↦ inr (
    omega arith,
    omega (
      arith,
      mod-eq-sub-mod {n = x} {m = c} (omega arith),
      mod-eq_of_lt {n = x - c} {m = c} (omega arith),
    ),
  )
]

-- The two indices move on by one place round the buffer.
pub tail_step :
    (h n c : ℕ) → h < c → n < c → c < 2 ^ 32 → add_size ((h + n) % c) 1 % c ≡ (h + add_size n 1) % c
tail_step h n c hh hn small =
    let e : (h + n) % c + 1 ≡ add_size ((h + n) % c) 1 = omega arith in
    grind (
      arith,
      mod_once (h + n) c (omega arith),
      mod_once ((h + n) % c + 1) c (omega arith),
      mod_once (h + (n + 1)) c (omega arith),
    )

pub head_step :
    (h i c : ℕ) → h < c → i + 1 ≤ c → c < 2 ^ 32 → (add_size h 1 % c + i) % c ≡ (h + suc i) % c
head_step h i c hh hi small = grind (
  arith,
  mod_once (h + 1) c (omega arith),
  mod_once ((h + 1) % c + i) c (omega arith),
  mod_once (h + (i + 1)) c (omega arith),
)

module _ {ℓ} {A : Type ℓ} where
  pub init-IsValid : (blank : A) (capacity : ℕ) → capacity < 2 ^ 32 → IsValid (init blank capacity)
  unfolding init
  init-IsValid blank capacity h =
      let n = (if ltb 0 capacity then capacity else 1) in ground (arith, length-replicate n blank)

  pub push-IsValid : {q : Ring A} (a : A) → IsValid q → IsValid (push q a).1
  unfolding push
  push-IsValid {q} a v = elim (Bool-cases (leb (length q.buffer) q.count)) [
    | inl full ↦ rw full (record {
      nonempty = v.nonempty;
      small = v.small;
      head_in = v.head_in;
      count_in = v.count_in;
      tail_is = v.tail_is;
    })
    | inr room ↦
        let same = length-set q.buffer q.tail a in
        let below : q.count < length q.buffer = ground (arith, room) in
        let moved : q.tail ≡ (q.head + q.count) % length q.buffer = v.tail_is in
        rw room (record {
          nonempty = omega (arith, same);
          small = omega (arith, same);
          head_in = omega (arith, same);
          count_in = omega (arith, same);
          tail_is =
              rw (same, moved) (tail_step q.head q.count (length q.buffer) v.head_in below v.small);
        })
  ]

  pub pop-IsValid : (blank : A) {q : Ring A} → IsValid q → IsValid (pop blank q).1
  unfolding pop
  pop-IsValid blank {q} v = elim (Bool-cases (q.count == 0)) [
    | inl empty ↦ rw empty v
    | inr some_left ↦
        let left : 0 < q.count = ground (arith, some_left) in
        let next : suc (q.count - 1) ≡ q.count = omega arith in
        rw some_left (record {
          nonempty = v.nonempty;
          small = v.small;
          head_in = omega arith;
          count_in = omega arith;
          tail_is =
              let round =
                head_step q.head (q.count - 1) (length q.buffer) v.head_in (omega arith) v.small in
              rw (round, next) v.tail_is;
        })
  ]

  pub step-IsValid : (blank : A) (op : Op A) {q : Ring A} → IsValid q → IsValid (step blank op q).1
  unfolding step
  step-IsValid blank (put a) v = push-IsValid a v
  step-IsValid blank get v = pop-IsValid blank v

  pub length-push : (q : Ring A) (a : A) → length (push q a).1.buffer ≡ length q.buffer
  unfolding push
  length-push q a = elim (Bool-cases (leb (length q.buffer) q.count)) [
    | inl full ↦ rw full
    | inr room ↦ rw room (length-set q.buffer q.tail a)
  ]

  pub length-pop : (blank : A) (q : Ring A) → length (pop blank q).1.buffer ≡ length q.buffer
  unfolding pop
  length-pop blank q = elim (Bool-cases (q.count == 0)) [
    | inl empty ↦ rw empty
    | inr some_left ↦ rw some_left
  ]
