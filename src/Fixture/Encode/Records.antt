-- ===== src/Fixture/Encode/Records.antt =====
-- A table of records of one size, read back record by record.
use esp_glow.Prelude.{
  ℕ, ◌+◌, ◌≡◌, refl, sym, ap, ◌∙◌, arith, List, [], ◌∷◌, ◌++◌, length, length-append, All,
}
use esp_glow.Prelude.Append.{append_assoc, get_elem?-append_at}
use esp_glow.Prelude.Outcome.{Outcome, ok, read, or_fault}
use esp_glow.Mdef.Parse.{each_record}

pub read-append :
    (pre rest : List ℕ) (j k : ℕ) → j ≡ length pre + k → read (pre ++ rest) j ≡ read rest k
unfolding read
read-append pre rest j k e = ap or_fault (get_elem?-append_at pre rest j k e)

module _ {A : Type 0} (write : A → List ℕ) where
  abbrev pub table : List A → List ℕ
  table [] = []
  table (x ∷ xs) = write x ++ table xs

  module _ (bytes : List ℕ) (parse : ℕ → Outcome A) (P : A → Type 0) (size : ℕ)
      (sized : (x : A) → length (write x) ≡ size)
      (each : (pre : List ℕ) (x : A) (post : List ℕ)
        → bytes ≡ pre ++ (write x ++ post)
        → P x
        → parse (length pre) ≡ ok x) where
    pub each_record-table :
        (pre : List ℕ) (xs : List A) (post : List ℕ) (at : ℕ)
        → at ≡ length pre
        → bytes ≡ pre ++ (table xs ++ post)
        → All P xs
        → each_record parse at size (length xs) ≡ ok xs
    unfolding each_record
    each_record-table pre [] post at e whole ps = refl
    each_record-table pre (x ∷ xs) post at e whole ps =
        let here = whole ∙ ap (λ t. pre ++ t) (append_assoc (write x) (table xs) post) in
        let first = ap parse e ∙ each pre x (table xs ++ post) here ps.0 in
        let rest =
          each_record-table (pre ++ write x) xs post (at + size)
            (omega (arith, length-append pre (write x), sized x))
            (here ∙ sym (append_assoc pre (write x) (table xs ++ post))) ps.1 in
        rw (first, rest) refl
