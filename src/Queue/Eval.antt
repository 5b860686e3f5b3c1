-- ===== src/Queue/Eval.antt =====
-- eval_queue.cpp: the queue of source text for the script engine, and the making of its elements.
use esp_glow.Prelude.{
  ℕ, ne→==, ◌^◌, ◌≤◌, ◌<◌, ◌≡◌, refl, ap, ◌∙◌, arith, Bool, true, false, Option, none, some, List,
  ◌++◌, ◌==◌, if◌then◌else◌, min, length, take, drop, length-append, length-take, take-min,
  length-drop, take-append, replicate, ◌%◌,
}
use esp_glow.Queue
use esp_glow.Queue.{Ring}

abbrev pub eval_src_max : ℕ
eval_src_max = 4096

-- `source` is the whole array, of `eval_src_max` bytes.
pub record EvalSubmission : Type 0 where
  pub source : List ℕ
  pub len : ℕ
  pub request_id : ℕ

abbrev blank : EvalSubmission
blank = record { source = replicate eval_src_max 0; len = 0; request_id = 0 }

-- `RingEvalSubmissionQueue`, whose body is that of the control queue
unfoldable pub init : ℕ → Ring EvalSubmission
init capacity = Queue.init blank capacity

unfoldable pub push : Ring EvalSubmission → EvalSubmission → Bool × Ring EvalSubmission
push q sub = Queue.push q sub

unfoldable pub pop : Ring EvalSubmission → Option EvalSubmission × Ring EvalSubmission
pop q = Queue.pop blank q

-- `none` for `src` is the null pointer; `out` is the caller's submission, which keeps the rest of
-- its array.
unfoldable pub make_eval_submission :
    Option (List ℕ) → ℕ → ℕ → EvalSubmission → Bool × EvalSubmission
make_eval_submission none len request_id out = (false, out)
make_eval_submission (some src) len request_id out =
    let copy_len = min len eval_src_max in
    if len == 0 then (false, out) else (
      true,
      record {
        source = take copy_len src ++ drop copy_len out.source;
        len = copy_len % 2 ^ 32;
        request_id = request_id;
      },
    )

module _ {ℓ} {A : Type ℓ} where
  copied : (n : ℕ) (xs old : List A) → n ≤ length xs → take n (take n xs ++ drop n old) ≡ take n xs
  copied n xs old h =
      let e : n ≡ length (take n xs) = omega (arith, length-take n xs) in
      ap (λ k. take k (take n xs ++ drop n old)) e ∙ take-append (take n xs) (drop n old)

  length-copied :
      (n : ℕ) (xs old : List A)
      → n ≤ length xs
      → n ≤ length old
      → length (take n xs ++ drop n old) ≡ length old
  length-copied n xs old h g =
      omega (arith, length-append (take n xs) (drop n old), length-take n xs, length-drop n old)

-- A submission of any length other than 0 is taken. What is stored is the start of the text, cut to
-- the array's 4096 bytes; `len` counts the bytes stored, and the array keeps its size.
pub make_eval_submission_lem :
    (src : List ℕ) (request_id : ℕ) (out : EvalSubmission)
    → 0 < length src
    → length out.source ≡ eval_src_max
    → (sub : EvalSubmission) × (make_eval_submission (some src) (length src) request_id out
        ≡ (true, sub))
      × (sub.len ≡ min (length src) eval_src_max)
      × (take sub.len sub.source ≡ take eval_src_max src)
      × (length sub.source ≡ eval_src_max)
      × (sub.request_id ≡ request_id)
unfolding make_eval_submission
make_eval_submission_lem src request_id out some_text size =
    let n = min (length src) eval_src_max in
    let taken : (length src == 0) ≡ false = ne→== (length src) 0 (omega arith) in
    let kept : n % 2 ^ 32 ≡ n = omega arith in
    (
      record { source = take n src ++ drop n out.source; len = n; request_id = request_id },
      rw (taken, kept) refl,
      refl,
      copied n src out.source (omega arith) ∙ take-min eval_src_max src,
      length-copied n src out.source (omega arith) (omega arith) ∙ size,
      refl,
    )
