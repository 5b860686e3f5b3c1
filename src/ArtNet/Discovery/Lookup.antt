-- ===== src/ArtNet/Discovery/Lookup.antt =====
-- What the table knows of an address, before and after a reply.
use esp_glow.Prelude.{
  ℕ, zero, suc, ◌+◌, ◌≤◌, ◌<◌, ◌≡◌, refl, ap, ◌∙◌, arith, Bool, true, false, ◌||◌, ◌&&◌, Option,
  none, some, List, [], ◌∷◌, ◌++◌, if◌then◌else◌, ◌==◌, ==_iff, ltb, leb, length, set, take,
  Bool-cases, Option-cases, inl, inr,
}
use esp_glow.Fixture.Apply.{is_some}
use esp_glow.ArtNet.Discovery.{
  ArtNetPollReply, DiscoveredNode, ArtNetDiscovery, node_of, index_of, on_reply,
}
use esp_glow.ArtNet.Discovery.Table.{live, take-set-suc}

one_more : (n : ℕ) → n + 1 ≡ suc n
one_more n = omega arith

not_below : (n m : ℕ) → leb m n ≡ true → ltb n m ≡ false
not_below n m h = ground arith

below_test : (n m : ℕ) → leb m n ≡ false → ltb n m ≡ true
below_test n m h = ground arith

below_16 : (n : ℕ) → leb 16 n ≡ false → n < 16
below_16 n h = ground arith

module _ {A : Type 0} where
  gated : (b : Bool) (a x : A) → x ≡ (if b && false then a else x)
  gated true a x = refl
  gated false a x = refl

  open_gate : (b : Bool) (a x : A) → (if b then a else x) ≡ (if b && true then a else x)
  open_gate true a x = refl
  open_gate false a x = refl

  turned : (k ip : ℕ) (a x : A) → (if k == ip then a else x) ≡ (if ip == k then a else x)
  turned k ip a x = elim (Bool-cases (k == ip)) [
    | inl same ↦ let back : (ip == k) ≡ true = ground (arith, same) in rw (same, back) refl
    | inr other ↦ let back : (ip == k) ≡ false = ground (arith, other) in rw (other, back) refl
  ]

  -- the answers at the node replaced, and behind a node of another address
  first_of :
      (k n ip : ℕ)
      → n ≡ k
      → (a b x : A)
      → (if k == ip then a else x) ≡ (if ip == k then a else (if n == ip then b else x))
  first_of k n ip e a b x = elim (Bool-cases (k == ip)) [
    | inl same ↦ let back : (ip == k) ≡ true = ground (arith, same) in rw (same, back) refl
    | inr other ↦
        let back : (ip == k) ≡ false = ground (arith, other) in
        let no : (n == ip) ≡ false = ground (arith, other, e) in rw (other, back, no) refl
  ]

  later_of :
      (k n ip : ℕ)
      → (n == k) ≡ false
      → (a b x : A) {y : A} → y ≡ (if ip == k then a else x)
      → (if n == ip then b else y) ≡ (if ip == k then a else (if n == ip then b else x))
  later_of k n ip differ a b x e = elim (Bool-cases (n == ip)) [
    | inl here ↦ let no : (ip == k) ≡ false = ground (arith, here, differ) in rw (here, no) refl
    | inr other ↦ rw other e
  ]

module _ {F : Type 0} where
  abbrev pub lookup : ℕ → List (DiscoveredNode F) → Option (DiscoveredNode F)
  lookup ip [] = none
  lookup ip (n ∷ ns) = let rest = lookup ip ns in if n.ip == ip then some n else rest

  index_of-none :
      (ip c : ℕ) (nodes : List (DiscoveredNode F))
      → index_of ip c nodes ≡ none
      → lookup ip (take c nodes) ≡ none
  unfolding index_of
  index_of-none ip zero nodes e = refl
  index_of-none ip (suc c) [] e = refl
  index_of-none ip (suc c) (n ∷ nodes) e = elim (Bool-cases (n.ip == ip)) [
    | inl here ↦ absurd (ground arith)
    | inr other ↦ elim (Option-cases (index_of ip c nodes)) [
      | inl missing ↦ rw other (index_of-none ip c nodes missing)
      | inr (j, found) ↦ absurd (ground arith)
    ]
  ]

  -- replacing the node that has the address
  replaced :
      (k : DiscoveredNode F) (ip c : ℕ) (nodes : List (DiscoveredNode F)) (i : ℕ)
      → index_of k.ip c nodes ≡ some i
      → (lookup ip (take c (set nodes i k))
          ≡ (if ip == k.ip then some k else lookup ip (take c nodes)))
        × (is_some (lookup k.ip (take c nodes)) ≡ true)
  unfolding index_of
  replaced k ip zero nodes i e = absurd cc
  replaced k ip (suc c) [] i e = absurd cc
  replaced k ip (suc c) (n ∷ nodes) i e = elim (Bool-cases (n.ip == k.ip)) [
    | inl here ↦
        let at : i ≡ 0 = ground arith in
        let same : n.ip ≡ k.ip = (==_iff n.ip k.ip).0 here in
        rw (at, here)
          (first_of k.ip n.ip ip same (some k) (some n) (lookup ip (take c nodes)), refl)
    | inr other ↦ elim (Option-cases (index_of k.ip c nodes)) [
      | inl missing ↦ absurd (ground arith)
      | inr (j, found) ↦
          let at : i ≡ suc j = ground arith in
          let (rest, known) = replaced k ip c nodes j found in
          rw (at, other)
            (later_of k.ip n.ip ip other (some k) (some n) (lookup ip (take c nodes)) rest, known)
    ]
  ]

  -- adding a node behind the others
  lookup-added :
      (k : DiscoveredNode F) (ip : ℕ) (ns : List (DiscoveredNode F))
      → lookup k.ip ns ≡ none
      → lookup ip (ns ++ (k ∷ [])) ≡ (if ip == k.ip then some k else lookup ip ns)
  lookup-added k ip [] none_yet = turned k.ip ip (some k) none
  lookup-added k ip (n ∷ ns) none_yet = elim (Bool-cases (n.ip == k.ip)) [
    | inl here ↦ absurd (ground arith)
    | inr other ↦
        let later : lookup k.ip ns ≡ none = ground arith in
        later_of k.ip n.ip ip other (some k) (some n) (lookup ip ns) (lookup-added k ip ns later)
  ]

-- For a table whose count is within its array of 16: after a reply, the table knows of the reply's address
-- what the reply says, unless it is full and did not know the address, and of every other address what it knew.
pub on_reply-lookup :
    {F : Type 0} (d : ArtNetDiscovery F) (reply : ArtNetPollReply) (now : F) (ip : ℕ)
    → d.count ≤ length d.nodes
    → length d.nodes ≡ 16
    → lookup ip (live (on_reply d reply now)) ≡ (
        if ip == reply.ip && (is_some (lookup reply.ip (live d)) || ltb d.count 16)
        then some (node_of reply now)
        else lookup ip (live d))
unfolding on_reply
on_reply-lookup d reply now ip within sized =
    let k = node_of reply now in
    elim (Option-cases (index_of reply.ip d.count d.nodes)) [
      | inl unknown ↦
          let absent = index_of-none reply.ip d.count d.nodes unknown in
          elim (Bool-cases (leb 16 d.count)) [
            | inl full ↦
                let no_room : ltb d.count 16 ≡ false = not_below d.count 16 full in
                rw (unknown, on_reply, full, absent, no_room)
                  (gated (ip == reply.ip) (some k) (lookup ip (live d)))
            | inr room ↦
                let shape : take (d.count + 1) (set d.nodes d.count k) ≡ live d ++ (k ∷ []) =
                  ap (λ i. take i (set d.nodes d.count k)) (one_more d.count)
                  ∙ take-set-suc d.nodes d.count k (omega (arith, below_16 d.count room)) in
                let yes : ltb d.count 16 ≡ true = below_test d.count 16 room in
                rw (unknown, on_reply, room, absent, shape, yes)
                  (lookup-added k ip (live d) absent
                    ∙ open_gate (ip == reply.ip) (some k) (lookup ip (live d)))
          ]
      | inr (i, found) ↦
          let (same, known) = replaced k ip d.count d.nodes i found in
          rw (found, on_reply, known, same)
            (open_gate (ip == reply.ip) (some k) (lookup ip (live d)))
    ]
