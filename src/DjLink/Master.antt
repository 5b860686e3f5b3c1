-- ===== src/DjLink/Master.antt =====
-- djlink_master_tracker.cpp: which player is tempo master.
use esp_glow.Prelude.{
  ℕ, suc, ◌≡◌, ◌≢◌, refl, sym, ap, ◌∙◌, arith, Bool, true, false, not, ◌&&◌, Bool-cases,
  Option-cases, inl, inr, Option, none, some, List, [], ◌∷◌, if◌then◌else◌, ◌==◌, set, ne→==,
}

pub record Entry : Type 0 where
  pub device_number : ℕ
  pub is_master : Bool
  pub valid : Bool

-- The table has eight slots.
abbrev pub Tracker : Type 0
Tracker = List Entry

abbrev pub holds : ℕ → Entry → Bool
holds device e = e.valid && e.device_number == device

abbrev pub later : Option ℕ → Option ℕ
later none = none
later (some i) = some (suc i)

-- the slot of a device, and the first empty slot
unfoldable pub find : ℕ → Tracker → Option ℕ
find device [] = none
find device (e ∷ es) = let rest = find device es in if holds device e then some 0 else later rest

unfoldable pub first_free : Tracker → Option ℕ
first_free [] = none
first_free (e ∷ es) = let rest = first_free es in if not e.valid then some 0 else later rest

abbrev pub or_else : Option ℕ → Option ℕ → Option ℕ
or_else none o = o
or_else (some i) o = some i

abbrev pub or_slot_0 : Option ℕ → ℕ
or_slot_0 none = 0
or_slot_0 (some i) = i

unfoldable pub update : ℕ → Bool → Tracker → Tracker
unfolding find first_free
update device is_master es =
    set es (or_slot_0 (or_else (find device es) (first_free es)))
      (record { device_number = device; is_master = is_master; valid = true })

unfoldable pub has_known_master : Tracker → Bool
has_known_master [] = false
has_known_master (e ∷ es) =
    let rest = has_known_master es in if e.valid && e.is_master then true else rest

-- `e != nullptr && e->isMaster`
unfoldable pub is_known_master : ℕ → Tracker → Bool
is_known_master device [] = false
is_known_master device (e ∷ es) =
    let rest = is_known_master device es in if holds device e then e.is_master else rest

unfoldable pub should_accept : ℕ → Tracker → Bool
unfolding has_known_master is_known_master
should_accept device es =
    if is_known_master device es then true else if not (has_known_master es) then true else false

abbrev entry : ℕ → Bool → Entry
entry device is_master = record { device_number = device; is_master = is_master; valid = true }

-- A slot that is the device's own, or the first empty one for a device not in the table.
set-found :
    (device other i : ℕ) (m : Bool) (es : Tracker)
    → find device es ≡ some i
    → is_known_master other (set es i (entry device m))
      ≡ (if other == device then m else is_known_master other es)
unfolding find is_known_master
set-found device other i m [] h = absurd cc
set-found device other i m (e ∷ es) h = elim (Bool-cases (holds device e)) [
  | inl mine ↦ let at : i ≡ 0 = ground arith in rw at (ground arith)
  | inr not_mine ↦ elim (Option-cases (find device es)) [
    | inl missing ↦ absurd (ground arith)
    | inr (j, found) ↦
        let at : i ≡ suc j = ground arith in
        rw at (ground (arith, set-found device other j m es found))
  ]
]

set-free :
    (device other i : ℕ) (m : Bool) (es : Tracker)
    → find device es ≡ none
    → first_free es ≡ some i
    → is_known_master other (set es i (entry device m))
      ≡ (if other == device then m else is_known_master other es)
unfolding find first_free is_known_master
set-free device other i m [] h g = absurd cc
set-free device other i m (e ∷ es) h g = elim (Bool-cases e.valid) [
  | inr free ↦ let at : i ≡ 0 = ground arith in rw at (ground arith)
  | inl taken ↦ elim (Option-cases (first_free es)) [
    | inl missing ↦ absurd (ground arith)
    | inr (j, found) ↦
        let at : i ≡ suc j = ground arith in
        let absent : find device es ≡ none = ground arith in
        rw at (ground (arith, set-free device other j m es absent found))
  ]
]

has_known_master-known :
    (device : ℕ) (es : Tracker) → is_known_master device es ≡ true → has_known_master es ≡ true
unfolding has_known_master is_known_master
has_known_master-known device [] h = cc
has_known_master-known device (e ∷ es) h = ground (arith, has_known_master-known device es)

-- An update of a device that is in the table, or for which there is an empty slot, records its flag and
-- leaves what is known of every other device.
pub is_known_master-update :
    (device other : ℕ) (m : Bool) (es : Tracker)
    → ((i : ℕ) × (or_else (find device es) (first_free es) ≡ some i))
    → is_known_master other (update device m es)
      ≡ (if other == device then m else is_known_master other es)
unfolding update
is_known_master-update device other m es (i, slot) = elim (Option-cases (find device es)) [
  | inr (j, found) ↦ rw found (set-found device other j m es found)
  | inl absent ↦
      let free : first_free es ≡ some i = sym (ap (λ o. or_else o (first_free es)) absent) ∙ slot in
      rw (absent, free) (set-free device other i m es absent free)
]

-- Once a device that is in the table, or for which there is an empty slot, has said that it is master, its
-- beats are accepted, and a beat of another device is accepted exactly if that one is still recorded as master
-- too: the older flag is not cleared.
pub should_accept-update :
    (device other : ℕ) (es : Tracker)
    → ((i : ℕ) × (or_else (find device es) (first_free es) ≡ some i))
    → other ≢ device
    → (should_accept device (update device true es) ≡ true)
      × (should_accept other (update device true es) ≡ is_known_master other es)
unfolding should_accept
should_accept-update device other es room ne =
    let own = is_known_master-update device device true es room in
    let theirs = is_known_master-update device other true es room in
    let master : is_known_master device (update device true es) ≡ true = ground arith in
    let known = has_known_master-known device (update device true es) master in
    let apart : (other == device) ≡ false = ne→== other device ne in
    (rw master refl, rw (known, theirs, apart) (ground arith))
