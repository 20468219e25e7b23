-- ===== src/Sqs/Batches.antt =====
-- What SqsQueue.enqueueBatch (src/adapters/aws/SqsQueue.ts) passes to SQS.
use saral.Base.{
  ℕ, zero, suc, ◌+◌, ◌≤◌, ◌<◌, ◌≡◌, refl, sym, ap, ◌∙◌, Option, List, [], ◌∷◌, ◌++◌, append-nil,
  append_assoc, arith, ltb, Bool-cases, Option-cases, inl, inr, take, drop, length, All, All-append,
  take-append-drop, length-take, ltb→lt,
}
use native.Mathlib.Nat.{zero-add, suc-add}
use saral.Jobs.{Job}
use saral.Sqs.Driver.{
  Entry, SqsClient, Texts, Sent, fulfilled, rejected, stuck, body_of, delay_field, entries,
  after_chunk, send_chunks, enqueue_batch,
}

-- A client that keeps, beside its state, the batches that it was sent.
abbrev pub recorded : {W : Type 0} → SqsClient W → SqsClient (W × List (List Entry))
recorded client = record {
  send_message = λ body delay (w, batches).
      let (w', result) = client.send_message body delay w in ((w', batches), result);
  send_message_batch = λ batch (w, batches).
      let (w', result) = client.send_message_batch batch w in ((w', batches ++ batch ∷ []), result);
  receive_message = λ max_number wait (w, batches).
      let (w', result) = client.receive_message max_number wait w in ((w', batches), result);
  delete_message = λ handle (w, batches).
      let (w', result) = client.delete_message handle w in ((w', batches), result);
  change_message_visibility = λ handle timeout (w, batches).
      let (w', result) = client.change_message_visibility handle timeout w in
      ((w', batches), result);
}

abbrev pub concat : List (List Entry) → List Entry
concat [] = []
concat (b ∷ bs) = b ++ concat bs

-- SQS takes at least one entry in a batch, and at most ten.
abbrev pub FitsBatch : List Entry → Type 0
FitsBatch b = (1 ≤ length b) × (length b ≤ 10)

-- Nothing is left to send, if the promise was fulfilled.
abbrev pub LeavesNone : Sent → List Entry → Type 0
LeavesNone (fulfilled ids) rest = rest ≡ []
LeavesNone rejected rest = Unit
LeavesNone stuck rest = ⊥

abbrev pub CutsUp : List Entry → (List (List Entry) × Sent) → Type 0
CutsUp all (batches, sent) =
    All FitsBatch batches
    × (rest : List Entry) × (concat batches ++ rest ≡ all)
    × LeavesNone sent rest

concat-append : (bs cs : List (List Entry)) → concat (bs ++ cs) ≡ concat bs ++ concat cs
concat-append [] cs = refl
concat-append (b ∷ bs) cs = ap (λ l. b ++ l) (concat-append bs cs) ∙ sym (append_assoc b _ _)

take_all : (n : ℕ) (xs : List Job) → length xs ≤ n → take n xs ≡ xs
take_all zero [] le = refl
take_all (suc n) [] le = refl
take_all zero (x ∷ xs) le = absurd (omega arith)
take_all (suc n) (x ∷ xs) le = ap (λ l. x ∷ l) (take_all n xs (omega arith))

drop_none : (n : ℕ) (xs : List Job) → length xs ≤ n → drop n xs ≡ []
drop_none zero [] le = refl
drop_none zero (x ∷ xs) le = absurd (omega arith)
drop_none (suc n) [] le = refl
drop_none (suc n) (x ∷ xs) le = drop_none n xs (omega arith)

length-drop : (n : ℕ) (xs : List Job) → n ≤ length xs → length (drop n xs) + n ≡ length xs
length-drop zero xs le = omega arith
length-drop (suc n) [] le = absurd (omega arith)
length-drop (suc n) (x ∷ xs) le = omega (arith, length-drop n xs (omega arith))

drop-drop : (m n : ℕ) (xs : List Job) → drop m (drop n xs) ≡ drop (n + m) xs
drop-drop m zero xs = rw zero-add
drop-drop zero (suc n) [] = rw suc-add refl
drop-drop (suc m) (suc n) [] = rw suc-add refl
drop-drop m (suc n) (x ∷ xs) = rw suc-add (drop-drop m n xs)

module _ (t : Texts) (delay : Option ℕ) where
  entries-append :
      (offset : ℕ) (xs ys : List Job)
      → entries t delay offset (xs ++ ys)
        ≡ entries t delay offset xs ++ entries t delay (offset + length xs) ys
  unfolding entries
  entries-append offset [] ys = ground arith
  entries-append offset (x ∷ xs) ys =
      ap
        (λ l.
          record { id = offset; message_body = body_of t x; delay_seconds = delay_field delay } ∷ l)
        (entries-append (offset + 1) xs ys
          ∙ ap (λ n. entries t delay (offset + 1) xs ++ entries t delay n ys) (omega arith))

  length-entries : (offset : ℕ) (xs : List Job) → length (entries t delay offset xs) ≡ length xs
  unfolding entries
  length-entries offset [] = refl
  length-entries offset (x ∷ xs) = ap suc (length-entries (offset + 1) xs)

  split_at_ten :
      (offset : ℕ) (xs : List Job)
      → entries t delay offset (take 10 xs) ++ entries t delay (offset + 10) (drop 10 xs)
        ≡ entries t delay offset xs
  split_at_ten offset xs = elim (Bool-cases (ltb (length xs) 10)) [
    | inl few ↦
        let le : length xs ≤ 10 = ground arith in
        rw (take_all 10 xs le, drop_none 10 xs le)
          (unfold entries in append-nil (entries t delay offset xs))
    | inr many ↦
        let le : 10 ≤ length xs = ground arith in
        ap (λ n. entries t delay offset (take 10 xs) ++ entries t delay n (drop 10 xs))
          (omega (arith, length-take 10 xs))
        ∙ sym (entries-append offset (take 10 xs) (drop 10 xs))
        ∙ ap (entries t delay offset) (take-append-drop 10 xs)
  ]

module _ {W : Type 0} (t : Texts) (client : SqsClient W) (delay : Option ℕ) (jobs : List Job) where
  -- The chunk that a round sends.
  abbrev chunk : ℕ → List Entry
  chunk offset = entries t delay offset (take 10 (drop offset jobs))

  chunk-FitsBatch : (offset : ℕ) → offset < length jobs → FitsBatch (chunk offset)
  chunk-FitsBatch offset lt = omega (
    arith,
    length-entries t delay offset (take 10 (drop offset jobs)),
    length-take 10 (drop offset jobs),
    length-drop offset jobs,
  )

  -- Once the chunk is sent, the entries after it are left.
  chunk_cut :
      (offset : ℕ) (batches : List (List Entry))
      → concat batches ++ entries t delay offset (drop offset jobs) ≡ entries t delay 0 jobs
      → concat (batches ++ chunk offset ∷ [])
          ++ entries t delay (offset + 10) (drop (offset + 10) jobs)
        ≡ entries t delay 0 jobs
  chunk_cut offset batches cut =
      rw
        (
          concat-append batches (chunk offset ∷ []),
          append-nil (chunk offset),
          append_assoc,
          ← drop-drop 10 offset jobs,
          split_at_ten t delay offset (drop offset jobs),
        )
        cut

  send_chunks-CutsUp :
      (fuel offset : ℕ) (w : W) (batches : List (List Entry)) (ids : List ℕ)
      → 0 < fuel
      → length jobs < fuel + offset
      → All FitsBatch batches
      → concat batches ++ entries t delay offset (drop offset jobs) ≡ entries t delay 0 jobs
      → let ((w', batches'), sent) =
          send_chunks t (recorded client) fuel delay jobs offset (w, batches) ids in
        CutsUp (entries t delay 0 jobs) (batches', sent)
  unfolding send_chunks
  send_chunks-CutsUp zero offset w batches ids pos lt fits cut = absurd (omega arith)
  send_chunks-CutsUp (suc fuel) offset w batches ids pos lt fits cut =
      elim (Bool-cases (ltb offset (length jobs))) [
        | inl more ↦
            let inside : offset < length jobs = ltb→lt _ _ more in
            let fits' =
              All-append FitsBatch batches (chunk offset ∷ []) fits
                (chunk-FitsBatch offset inside, tt) in
            let cut' = chunk_cut offset batches cut in
            elim (Option-cases (client.send_message_batch (chunk offset) w).1) [
              | inl threw ↦
                  rw (more, threw, after_chunk)
                    (fits', entries t delay (offset + 10) (drop (offset + 10) jobs), cut', tt)
              | inr (r, answered) ↦ elim (Bool-cases (ltb 0 r.failed)) [
                | inl partly ↦
                    rw (more, answered, after_chunk, partly)
                      (fits', entries t delay (offset + 10) (drop (offset + 10) jobs), cut', tt)
                | inr whole ↦
                    rw (more, answered, after_chunk, whole)
                      (send_chunks-CutsUp fuel (offset + 10) _ (batches ++ chunk offset ∷ []) _
                        (omega arith) (omega arith) fits' cut')
              ]
            ]
        | inr over ↦ rw over (
          fits,
          entries t delay offset (drop offset jobs),
          cut,
          rw (drop_none offset jobs (ground arith)) (unfold entries in refl),
        )
      ]

-- `enqueueBatch` cuts the jobs up: whatever SQS answers, the batches that it sends have between
-- one and ten entries each and, one after the other, are the first of the entries that the jobs
-- become, in order and numbered from 0; if the promise is fulfilled they are all of them. The loop
-- ends.
pub enqueue_batch-CutsUp :
    {W : Type 0} (t : Texts) (client : SqsClient W) (delay : Option ℕ) (jobs : List Job) (w : W)
    → let ((w', batches), sent) = enqueue_batch t (recorded client) delay jobs (w, []) in
      CutsUp (entries t delay 0 jobs) (batches, sent)
unfolding enqueue_batch
enqueue_batch-CutsUp t client delay jobs w =
    send_chunks-CutsUp t client delay jobs (suc (length jobs)) 0 w [] [] (omega arith) (omega arith)
      tt refl
