-- ===== src/Queue/Tests.antt =====
-- Runs of the queues at concrete inputs.
use esp_glow.Prelude.{
  ℕ, ◌≡◌, refl, arith, true, false, none, some, List, [], ◌∷◌, length, replicate, length-replicate,
  take,
}
use esp_glow.Queue.{Ring, Op, put, get, pushed, popped, run, step, push, pop}
use esp_glow.Queue.Bounded
use esp_glow.Queue.Inv.{IsValid}
use esp_glow.Queue.Refine.{Represents, run_refines}
use esp_glow.Queue.Pump.{pump, Pumped, pump_lem}
use esp_glow.Queue.Eval.{
  EvalSubmission, eval_src_max, make_eval_submission, make_eval_submission_lem,
}

-- 8 then 9, round the end of the storage
abbrev wrapped : Ring ℕ
wrapped = record { buffer = 9 ∷ 7 ∷ 8 ∷ []; head = 2; tail = 1; count = 2; dropped = 5 }

abbrev calls : List (Op ℕ)
calls = put 1 ∷ put 2 ∷ get ∷ get ∷ get ∷ get ∷ []

wrapped-IsValid : IsValid wrapped
wrapped-IsValid = ground arith

run-wrapped :
    (run 0 calls wrapped).0
    ≡ pushed true
      ∷ pushed false
      ∷ popped (some 8)
      ∷ popped (some 9)
      ∷ popped (some 1)
      ∷ popped none
      ∷ []
unfolding run step push pop
run-wrapped = refl

wrapped-Represents : Represents 0 wrapped (record { items = 8 ∷ 9 ∷ []; refused = 5 })
wrapped-Represents = record { items_are = refl; refused_are = refl }

run_refines_example :
    ((run 0 calls wrapped).0 ≡ (Bounded.run 3 calls (record { items = 8 ∷ 9 ∷ []; refused = 5 })).0)
    × Represents 0
        (run 0 calls wrapped).1
        (Bounded.run 3 calls (record { items = 8 ∷ 9 ∷ []; refused = 5 })).1
    × IsValid (run 0 calls wrapped).1
run_refines_example = run_refines 0 calls 3 refl wrapped-IsValid wrapped-Represents

-- The pump takes the two events into a list, newest first.
pump_example :
    Pumped 0 (λ ev seen. ev ∷ seen) 5 (8 ∷ 9 ∷ []) [] (pump 0 (λ ev seen. ev ∷ seen) 5 wrapped [])
pump_example = pump_lem 0 (λ ev seen. ev ∷ seen) 5 (8 ∷ 9 ∷ []) [] wrapped-IsValid refl

abbrev old_submission : EvalSubmission
old_submission = record { source = replicate eval_src_max 7; len = 4; request_id = 1 }

make_eval_submission_example :
    (sub : EvalSubmission) × (make_eval_submission (some (65 ∷ 66 ∷ [])) 2 9 old_submission
      ≡ (true, sub))
    × (sub.len ≡ 2)
    × (take sub.len sub.source ≡ 65 ∷ 66 ∷ [])
    × (length sub.source ≡ eval_src_max)
    × (sub.request_id ≡ 9)
make_eval_submission_example =
    make_eval_submission_lem (65 ∷ 66 ∷ []) 9 old_submission (omega arith)
      (length-replicate {A = ℕ} eval_src_max 7)
