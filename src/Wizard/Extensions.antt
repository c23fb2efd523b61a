-- ===== src/Wizard/Extensions.antt =====
-- internal/wizard/wizard.go: the loop that creates the extensions batch by batch, and each batch's
-- retries. Times are seconds. A loop runs on fuel, and fails with out_of_fuel once that is used up.
use swarmdialer.Prelude.{
  ℕ, zero, suc, ◌+◌, ◌*◌, ◌-◌, min, Bool, Option, none, some, List, [], ◌∷◌, length, ltb, leb,
  if◌then◌else◌,
}
use swarmdialer.Text.{Bytes, scan_digits}
use swarmdialer.Wizard.Batch.{extension_batch_size, ext_base, Work, make_batch, take_items}
use swarmdialer.Wizard.{
  Result, ok, fail, ◌>>=◌, cancelled, request_failed, out_of_fuel, ExtensionCreate, BatchItem,
  Existing, Extension,
}

-- `post` is the answer to a batch at an attempt, or none on an error, `took` how long that takes, and
-- `stopped` whether the context ends while the wizard waits behind the attempt.
module _ (post : ℕ → List ExtensionCreate → Option (List BatchItem)) (took : ℕ → ℕ)
    (stopped : ℕ → Bool) where
  unfoldable pub create_loop : ℕ → ℕ → ℕ → ℕ → ℕ → List ExtensionCreate → Result (List BatchItem)
  create_loop zero attempt now backoff deadline batch = fail out_of_fuel
  create_loop (suc fuel) attempt now backoff deadline batch =
      let at = now + took attempt in
      let rest =
        create_loop fuel (suc attempt) (at + backoff)
          (if ltb backoff 30 then backoff * 2 else backoff) deadline batch in
      elim (post attempt batch) [
        | some items ↦ ok items
        | none ↦
            if ltb deadline (at + backoff)
            then fail request_failed
            else (if stopped attempt then fail cancelled else rest)
      ]

  unfoldable pub create_batch_with_retry : ℕ → List ExtensionCreate → Result (List BatchItem)
  unfolding create_loop
  create_batch_with_retry max_wait batch = create_loop (suc max_wait) 0 0 2 max_wait batch

-- strconv.Atoi of the extension's number
abbrev pub ext_number : Extension → ℕ
ext_number e = scan_digits 0 e.ext

-- sort.Slice by number
unfoldable pub insert_extension : Extension → List Extension → List Extension
insert_extension e [] = e ∷ []
insert_extension e (x ∷ xs) =
    let rest = insert_extension e xs in
    if leb (ext_number e) (ext_number x) then e ∷ x ∷ xs else x ∷ rest

unfoldable pub sort_extensions : List Extension → List Extension
unfolding insert_extension
sort_extensions [] = []
sort_extensions (x ∷ xs) = insert_extension x (sort_extensions xs)

unfoldable pub round_size : ℕ → Work → ℕ
round_size count w = min (count - length w.extensions) extension_batch_size

abbrev pub new_work : ℕ → Work
new_work base = record {
  extensions = [];
  prefix = none;
  candidate = base;
  skips = 0;
  secrets = 0;
  reads = 0;
  created = 0;
}

-- The count asked for, the channel limit, and the world: whether the context is over at a round, what a
-- draw of a secret and reading a number back give, and `create`, which is `createBatchWithRetry`.
module _ (over : ℕ → Bool) (secret : ℕ → Option Bytes) (read_back : ℕ → ℕ → Option Existing)
    (create : ℕ → List ExtensionCreate → Result (List BatchItem)) (count limit : ℕ) where
  -- One round of the loop.
  unfoldable pub run_round : ℕ → Work → Result Work
  unfolding make_batch take_items round_size
  run_round round w =
      if over round
      then fail cancelled
      else make_batch secret (min limit 999) (round_size count w) w.candidate w.secrets
        >>= (λ batch. create round batch >>= (λ items.
            take_items read_back batch items (record w {
              candidate = w.candidate + round_size count w;
              secrets = w.secrets + 2 * round_size count w;
            })
            >>= (λ v. ok (record v { created = length v.extensions }))))

  unfoldable pub provision_loop : ℕ → ℕ → Work → Result Work
  unfolding run_round
  provision_loop zero round w = if ltb (length w.extensions) count then fail out_of_fuel else ok w
  provision_loop (suc fuel) round w =
      if ltb (length w.extensions) count
      then run_round round w >>= provision_loop fuel (suc round)
      else ok w

-- The whole of it: a round posts its batch until that is answered. Every round adds an extension or
-- meets a number that is taken, which the fuel allows for.
module _ (over : ℕ → Bool) (secret : ℕ → Option Bytes) (read_back : ℕ → ℕ → Option Existing)
    (post : ℕ → ℕ → List ExtensionCreate → Option (List BatchItem)) (took : ℕ → ℕ → ℕ)
    (stopped : ℕ → ℕ → Bool) (count limit max_wait : ℕ) where
  unfoldable pub provision_extensions : ℕ → Result (List Extension)
  unfolding provision_loop ext_base sort_extensions create_batch_with_retry
  provision_extensions digits =
      provision_loop over secret read_back
        (λ round. create_batch_with_retry (post round) (took round) (stopped round) max_wait) count
        limit (count + 22) 0 (new_work (ext_base digits))
      >>= (λ w. ok (sort_extensions w.extensions))
