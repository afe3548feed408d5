-- ===== src/Startup.antt =====
-- src/storageserver/storageserver_impl.go and src/stwserver/stwserver_impl.go: how a slave comes to
-- the list of all servers. It dials the master, six times at most, and then registers again and again
-- until the reply has status OK. `dials i` says whether the `i`-th attempt succeeds, and `reply i` is
-- the answer to the `i`-th registration: `none` for a failed call, `some none` for a status other than
-- OK, and otherwise the servers.
use simple_twitter.Common.{
  ℕ, zero, suc, ◌+◌, ◌<◌, ◌≡◌, refl, Bool, true, false, Option, none, some, Outcome, done, fatal,
  arith,
}

unfoldable pub dial_master : (ℕ → Bool) → ℕ → ℕ → Outcome (Unit {0})
dial_master dials count zero = fatal
dial_master dials count (suc left) = elim (dials count) [
  | true ↦ done tt
  | false ↦ dial_master dials (suc count) left
]

-- `if count>5 { log.Fatal(…) }` stands in front of each attempt.
abbrev pub dial_attempts : ℕ
dial_attempts = 6

-- The loop has no bound: `left` is the number of registrations that are looked at, and `none` says
-- that all of them have passed and the server still waits.
unfoldable pub await_servers {ℓ} :
    {A : Type ℓ} → (ℕ → Option (Option A)) → ℕ → ℕ → Outcome (Option A)
await_servers reply count zero = done none
await_servers reply count (suc left) = elim (reply count) [
  | none ↦ fatal
  | some none ↦ await_servers reply (suc count) left
  | some (some servers) ↦ done (some servers)
]

-- If an attempt within the bound succeeds, the master is reached.
pub dial_master-reaches :
    (dials : ℕ → Bool) (i count left : ℕ)
    → dials (count + i) ≡ true
    → i < left
    → dial_master dials count left ≡ done tt
unfolding dial_master
dial_master-reaches dials i count zero e h = absurd (omega arith)
dial_master-reaches dials zero count (suc left) e h =
    let same : count + 0 ≡ count = omega arith in
    let now : dials count ≡ true = rw (← same) e in ground (arith, now)
dial_master-reaches dials (suc i) count (suc left) e h =
    let same : count + suc i ≡ suc count + i = omega arith in
    let rest = dial_master-reaches dials i (suc count) left (rw (← same) e) (omega arith) in
    ground (arith, rest)

-- If no attempt within the bound succeeds, the process exits.
pub dial_master-gives_up :
    (dials : ℕ → Bool) (count left : ℕ)
    → ((i : ℕ) → i < left → dials (count + i) ≡ false)
    → dial_master dials count left ≡ fatal
unfolding dial_master
dial_master-gives_up dials count zero h = refl
dial_master-gives_up dials count (suc left) h =
    let start : count + 0 ≡ count = omega arith in
    let same : (i : ℕ) → count + suc i ≡ suc count + i = λ i. omega arith in
    let now : dials count ≡ false = rw (← start) (h 0 (omega arith)) in
    let rest =
      dial_master-gives_up dials (suc count) left
        (λ i lt. rw (← same i) (h (suc i) (omega arith))) in
    ground (arith, now, rest)

-- The first reply with status OK is the one that counts, however late it comes.
pub await_servers-first {ℓ} :
    {A : Type ℓ} (reply : ℕ → Option (Option A)) (servers : A) (i count left : ℕ)
    → ((k : ℕ) → k < i → reply (count + k) ≡ some none)
    → reply (count + i) ≡ some (some servers)
    → i < left
    → await_servers reply count left ≡ done (some servers)
unfolding await_servers
await_servers-first reply servers i count zero before e h = absurd (omega arith)
await_servers-first reply servers zero count (suc left) before e h =
    let same : count + 0 ≡ count = omega arith in
    let now : reply count ≡ some (some servers) = rw (← same) e in ground (arith, now)
await_servers-first reply servers (suc i) count (suc left) before e h =
    let start : count + 0 ≡ count = omega arith in
    let same : (k : ℕ) → count + suc k ≡ suc count + k = λ k. omega arith in
    let now : reply count ≡ some none = rw (← start) (before 0 (omega arith)) in
    let rest =
      await_servers-first reply servers i (suc count) left
        (λ k lt. rw (← same k) (before (suc k) (omega arith))) (rw (← same i) e) (omega arith) in
    ground (arith, now, rest)
